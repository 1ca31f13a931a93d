-- ===== src/Writer/Services/Tests.antt =====
-- Runs of the calls on the writers of a service with two of them.
use nav_control.Go.Words.{lt32}
use nav_control.Writer.Services.Keys.{ids}
use nav_control.Base.{
  ℕ, ◌<◌, IsDistinct, member, put, ◌≡◌, ◌≢◌, refl, [], ◌∷◌, ◌++◌, some, none, true, find, arith,
}
use nav_control.Writer.Server.{answers}
use nav_control.Writer.Nats.{
  Writing, open_link, no_link, start_writer, and_monitor, start_subscription, init, connect_to_nats,
}
use nav_control.Writer.Config.{Writer, WriteService, GrpcServer, World, configured}
use nav_control.Writer.Services.{
  start_grpc_server, following_id, add_write, delete_write, tick_deleted, tick_all, max_id, keys,
  start_writers, set_writer,
}
use nav_control.Writer.Services.InStep.{
  IsInStep, HasRoom, Reach, starts, next, adds, deletes, Reach-IsInStep,
}
use nav_control.Writer.Services.Resumed.{delete_write-resumes}

abbrev up : World
up = record {
  broker = record { connects = true; jet_stream = true; has_stream = true; subscribes = true };
  machine = record {
    inserts = λ rows. true;
    creates = true;
    writes = true;
    opens = true;
    removes = true;
    pings = true;
    connecting = answers;
  };
  contents = [];
  saves = true;
}

abbrev written_by : ℕ → Writer
written_by id = record {
  description = [];
  name = b'w' ∷ [];
  id_writer = id;
  db_ip = [];
  db_port = 5432;
  db_name = [];
  db_user = [];
  db_pass = [];
  db_table = [];
}

abbrev asked : ℕ → WriteService
asked id = record {
  id_writer = id;
  id_sm = 0;
  ip_db = [];
  port_db = 5432;
  name = b'n' ∷ [];
  db_name = [];
  db_table = [];
  login = [];
  passw = [];
  status = [];
  active = true;
  description = [];
}

abbrev fresh : GrpcServer
fresh = record {
  ip_broker = [];
  port_broker = 4222;
  topic_broker = [];
  size_buf = 2;
  is_jet_stream = true;
  id_sm = 1;
  wr_nats_map = [];
  deleted = [];
  writers = written_by 1 ∷ written_by 4 ∷ [];
  saved = written_by 1 ∷ written_by 4 ∷ [];
}

abbrev running : GrpcServer
running = start_grpc_server (λ n. up) fresh

-- The identifier that a new writer gets is not the one that was asked for.
following : following_id running ≡ 5
unfolding following_id max_id keys start_grpc_server start_writers set_writer put lt32
following = refl

running-HasRoom : HasRoom running
unfolding HasRoom max_id keys start_grpc_server start_writers set_writer put lt32
running-HasRoom = λ e. absurd (omega (arith, e))

Reach-changed : Reach (delete_write up (asked 1) (add_write up (asked 9) running).1).1
unfolding IsDistinct ids member
Reach-changed =
    next
      (next (starts (λ n. up) fresh refl (refl, (refl, tt)))
        (adds up (asked 9) running running-HasRoom))
      (deletes up (asked 1) _)

Reach-IsInStep_example : IsInStep (delete_write up (asked 1) (add_write up (asked 9) running).1).1
Reach-IsInStep_example = Reach-IsInStep Reach-changed

-- The writer 1 as it runs.
abbrev first : Writing
first = (start_writer up.broker up.machine (configured up fresh (written_by 1))).1

first-there : find 1 running.wr_nats_map ≡ some first
unfolding find start_grpc_server start_writers set_writer put configured
first-there = refl

first-linked : first.link ≢ no_link
unfolding start_writer and_monitor start_subscription init connect_to_nats configured
first-linked = λ e. cc

first-runs : 0 < first.monitors
unfolding start_writer and_monitor start_subscription init connect_to_nats configured
first-runs = omega arith

delete_write-resumes_example :
    (back : Writing) × ((tick_deleted up (delete_write up (asked 1) running).1).deleted
      ≡ tick_all up running.deleted ++ (back ∷ []))
    × (find 1 (tick_deleted up (delete_write up (asked 1) running).1).wr_nats_map ≡ none)
    × (back.subscribed ≡ true)
    × (back.link ≡ open_link)
delete_write-resumes_example =
    delete_write-resumes up up (asked 1) running first first-there first-linked first-runs
      (record { connects = refl; jet_stream = refl; has_stream = refl; subscribes = refl })
