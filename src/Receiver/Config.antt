-- ===== src/Receiver/Config.antt =====
-- manager.go: the ports in the configuration, and how a change is saved.
use nav_control.Base.{
  ◌+◌, ◌-◌, ◌%◌, ◌^◌, ◌&&◌, ℕ, zero, suc, List, [], ◌∷◌, ◌++◌, Option, none, some, Bool,
  if◌then◌else◌, ◌==◌, ltb,
}
use nav_control.Go.Text.{Text}
use nav_control.Receiver.Manager.{PortDefinition}

-- `config.Receiver`: the identifier is an int, by its 64 bits.
pub record Receiver : Type 0 where
  pub id_receiver : ℕ
  pub active : Bool
  pub name : Text
  pub port_receiver : ℕ
  pub protocol : Text
  pub status : Text
  pub description : Text

-- `cfgToProto`
unfoldable pub cfg_to_proto : Receiver → PortDefinition
cfg_to_proto cfg = record {
  id_sm = 0;
  id_receiver = cfg.id_receiver % 2 ^ 32;
  port_receiver = cfg.port_receiver;
  protocol = cfg.protocol;
  active = cfg.active;
  name = cfg.name;
  description = cfg.description;
  status = cfg.status;
  connections_count = 0;
}

-- `findPort`, with `none` for -1.
unfoldable pub find_port : ℕ → List Receiver → Option ℕ
find_port port [] = none
find_port port (r ∷ rs) =
    let later = find_port port rs in
    if r.port_receiver == port
    then some zero
    else elim later [ none ↦ none | some i ↦ some (suc i) ]

-- `r.IdReceiver > id`, where id is not negative.
unfoldable pub is_larger : (id : ℕ) → Receiver → Bool
is_larger id r = ltb id r.id_receiver && ltb r.id_receiver (2 ^ 63)

-- The loop of `NewId`.
unfoldable pub largest_id : ℕ → List Receiver → ℕ
largest_id id [] = id
largest_id id (r ∷ rs) = largest_id (if is_larger id r then r.id_receiver else id) rs

-- `NewId`: the largest identifier.
unfoldable pub new_id : List Receiver → ℕ
new_id rs = largest_id 0 rs

pub data Change : Type 0 where
  add edit delete : Change

-- `int(x)` of an int32, by its bits.
unfoldable pub to_int : ℕ → ℕ
to_int x = if ltb x (2 ^ 31) then x else x + (2 ^ 64 - 2 ^ 32)

unfoldable pub cfg_record : PortDefinition → Receiver
cfg_record req = record {
  id_receiver = to_int req.id_receiver;
  active = req.active;
  name = req.name;
  port_receiver = req.port_receiver;
  protocol = req.protocol;
  status = req.status;
  description = req.description;
}

-- `Receivers[index] = cfgrec`
unfoldable pub set_at : ℕ → Receiver → List Receiver → List Receiver
set_at i r [] = []
set_at zero r (q ∷ rs) = r ∷ rs
set_at (suc i) r (q ∷ rs) = q ∷ set_at i r rs

-- `append(Receivers[:index], Receivers[index+1:]...)`
unfoldable pub delete_at : ℕ → List Receiver → List Receiver
delete_at i [] = []
delete_at zero (q ∷ rs) = rs
delete_at (suc i) (q ∷ rs) = q ∷ delete_at i rs

-- `SaveConfigPort` as far as the list goes; then the file is written.
unfoldable pub save_config_port : Change → PortDefinition → List Receiver → List Receiver
save_config_port add req rs = rs ++ (cfg_record req ∷ [])
save_config_port edit req rs = elim (find_port req.port_receiver rs) [
  | none ↦ rs
  | some i ↦ set_at i (cfg_record req) rs
]
save_config_port delete req rs = elim (find_port req.port_receiver rs) [
  | none ↦ rs
  | some i ↦ delete_at i rs
]
