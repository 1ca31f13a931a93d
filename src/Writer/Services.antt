-- ===== src/Writer/Services.antt =====
-- grpcserver.go of services/writer/internal/mgrpc: the calls on the writers, with their list in
-- pkg/config/writer.go.
pub mod Keys
pub mod InStep
pub mod Resumed
mod Tests
use nav_control.Base.{
  ℕ, ◌+◌, ◌%◌, ◌^◌, List, [], ◌∷◌, ◌++◌, Option, none, some, Bool, true, false, ◌&&◌, if◌then◌else◌,
  ◌==◌, Map, find, put, remove,
}
use nav_control.Go.Text.{Text}
use nav_control.Go.Words.{lt32}
use nav_control.Writer.Server.{WrNatsServer, Machine, no_file}
use nav_control.Writer.Nats.{Writing, Broker, no_link, start_writer, close_writer, tick}
use nav_control.Writer.Config.{
  Writer, delete_writer, WriteService, GrpcServer, World, fresh_server, configured, requested,
  written_writer,
}

unfoldable pub was_there : Option Writing → List Writing
was_there none = []
was_there (some w) = w ∷ []

-- `s.wrNatsMap[id] = wrNats`, of another writer than the one that is there.
unfoldable pub set_writer : ℕ → Writing → GrpcServer → GrpcServer
set_writer id w s = record s {
  wr_nats_map = put id w s.wr_nats_map;
  deleted = s.deleted ++ was_there (find id s.wr_nats_map);
}

-- The loop of `StartGRPCServer`: a writer that cannot be started is kept.
unfoldable pub start_writers : (ℕ → World) → ℕ → List Writer → GrpcServer → GrpcServer
start_writers worlds n [] s = s
start_writers worlds n (r ∷ rs) s =
    let started = start_writer (worlds n).broker (worlds n).machine (configured (worlds n) s r) in
    start_writers worlds (n + 1) rs (set_writer r.id_writer started.1 s)

-- `StartGRPCServer`, of what it does with the writers.
unfoldable pub start_grpc_server : (ℕ → World) → GrpcServer → GrpcServer
start_grpc_server worlds s = start_writers worlds 0 s.writers s

unfoldable pub keys : Map Writing → List ℕ
keys [] = []
keys ((k, w) ∷ m) = k ∷ keys m

-- `for key, _ := range s.wrNatsMap { if key > maxId { maxId = key } }`
unfoldable pub max_id : ℕ → List ℕ → ℕ
max_id m [] = m
max_id m (k ∷ ks) = max_id (if lt32 m k then k else m) ks

unfoldable pub following_id : GrpcServer → ℕ
following_id s = (max_id 0 (keys s.wr_nats_map) + 1) % 2 ^ 32

unfoldable pub save_config : World → GrpcServer → GrpcServer
save_config world s = record s { saved = if world.saves then s.writers else s.saved }

unfoldable pub after_start :
    World → WriteService → GrpcServer → Bool × Writing → Option WriteService × GrpcServer
after_start world req s (false, w) = (none, s)
after_start world req s (true, w) =
    let id = following_id s in
    let added = set_writer id w s in
    (
      some req,
      save_config world (record added { writers = added.writers ++ (written_writer id req ∷ []) }),
    )

-- `AddWrite`, which answers with the fields of the request.
unfoldable pub add_write : World → WriteService → GrpcServer → Option WriteService × GrpcServer
add_write world req s = elim (find req.id_writer s.wr_nats_map) [
  | some w ↦ (none, s)
  | none ↦ after_start world req s (start_writer world.broker world.machine (requested world s req))
]

-- `DeleteWrite`: the configuration is not saved.
unfoldable pub delete_write : World → WriteService → GrpcServer → Option WriteService × GrpcServer
delete_write world req s = elim (find req.id_writer s.wr_nats_map) [
  | none ↦ (none, s)
  | some w ↦ (
    some req,
    record s {
      wr_nats_map = remove req.id_writer s.wr_nats_map;
      deleted = s.deleted ++ (close_writer world.machine w ∷ []);
      writers = delete_writer req.id_writer s.writers;
    },
  )
]

unfoldable pub answer : Text → (active : Bool) → Writing → WriteService
answer status active w = record {
  id_writer = w.id_writer;
  id_sm = w.id_sm;
  ip_db = w.ip_db;
  port_db = w.port_db;
  name = w.name;
  db_name = w.db_name;
  db_table = w.db_table;
  login = w.login;
  passw = w.passw;
  status = status;
  active = active;
  description = w.description;
}

abbrev pub closed_status : Text
closed_status = b'c' ∷ b'l' ∷ b'o' ∷ b's' ∷ b'e' ∷ b'd' ∷ []

abbrev pub open_status : Text
open_status = b'o' ∷ b'p' ∷ b'e' ∷ b'n' ∷ []

unfoldable pub set_same : ℕ → Writing → GrpcServer → GrpcServer
set_same id w s = record s { wr_nats_map = put id w s.wr_nats_map }

-- `DownWrite`
unfoldable pub down_write : World → ℕ → GrpcServer → Option WriteService × GrpcServer
down_write world id s = elim (find id s.wr_nats_map) [
  | none ↦ (none, s)
  | some w ↦ (some (answer closed_status true w), set_same id (close_writer world.machine w) s)
]

-- `UpWrite`: what a start that fails has done stays.
unfoldable pub up_write : World → ℕ → GrpcServer → Option WriteService × GrpcServer
up_write world id s = elim (find id s.wr_nats_map) [
  | none ↦ (none, s)
  | some w ↦
      let started = start_writer world.broker world.machine w in
      (
        if started.0 then some (answer open_status true started.1) else none,
        set_same id started.1 s,
      )
]

abbrev pub active_status : Text
active_status = b'a' ∷ b'c' ∷ b't' ∷ b'i' ∷ b'v' ∷ b'e' ∷ []

-- `getStatusString`
unfoldable pub get_status_string : (db_connected nats_connected : Bool) → Text
get_status_string true true = active_status
get_status_string false true = b'n' ∷ b'a' ∷ b't' ∷ b's' ∷ b'_' ∷ b'o' ∷ b'n' ∷ b'l' ∷ b'y' ∷ []
get_status_string true false = b'd' ∷ b'b' ∷ b'_' ∷ b'o' ∷ b'n' ∷ b'l' ∷ b'y' ∷ []
get_status_string false false = b'i' ∷ b'n' ∷ active_status

unfoldable pub list_entries : Map Writing → List WriteService
list_entries [] = []
list_entries ((k, w) ∷ m) =
    answer (get_status_string w.server.db_connected w.nats_connected) w.nats_connected w
    ∷ list_entries m

-- `ListWrites`
unfoldable pub list_writes : GrpcServer → List WriteService
list_writes s = list_entries s.wr_nats_map

-- A tick of the goroutine of a writer in the map, and of one that was deleted.
unfoldable pub tick_writer : World → ℕ → GrpcServer → GrpcServer
tick_writer world id s = elim (find id s.wr_nats_map) [
  | none ↦ s
  | some w ↦ set_same id (tick world.broker world.machine w) s
]

unfoldable pub tick_all : World → List Writing → List Writing
tick_all world [] = []
tick_all world (w ∷ ws) = tick world.broker world.machine w ∷ tick_all world ws

unfoldable pub tick_deleted : World → GrpcServer → GrpcServer
tick_deleted world s = record s { deleted = tick_all world s.deleted }
