-- ===== src/Receiver/Manager.antt =====
-- manager.go: the map of ports and the operations on it. Port numbers and identifiers are natural
-- numbers, below 2^31.
use nav_control.Base.{
  ℕ, List, Option, none, some, Bool, true, false, if◌then◌else◌, Map, find, put, remove,
}
use nav_control.Go.Text.{Text}
use nav_control.Receiver.Instance.{
  Kind, Instance, PortError, in_use, unsupported, not_found, already_active, already_inactive,
  Environment, kind_of_name, new_instance, start, stop,
}

-- `PortReceiver` and `PortNumber` hold the same number.
pub record PortInfo : Type 0 where
  pub id_receiver : ℕ
  pub id_sm : ℕ
  pub port_number : ℕ
  pub status : Text
  pub description : Text
  pub protocol : Text
  pub active : Bool
  pub name : Text
  pub instance : Instance

-- `proto.PortDefinition`: a request, and the answer to one.
pub record PortDefinition : Type 0 where
  pub id_sm : ℕ
  pub id_receiver : ℕ
  pub port_receiver : ℕ
  pub protocol : Text
  pub active : Bool
  pub name : Text
  pub description : Text
  pub status : Text
  pub connections_count : ℕ

-- The ports, and the ports of the machine that this process has bound.
pub record Ports : Type 0 where
  pub ports : Map PortInfo
  pub bound : List ℕ
  pub is_jet_stream : Bool

pub data Reply {ℓ} (A : Type ℓ) : Type ℓ where
  done : A → Reply A
  failed : PortError → Reply A
  crashed : Reply A

abbrev pub Action {ℓ} : Type ℓ → Type ℓ
Action A = Ports → Reply A × Ports

abbrev pub reply_of : Option PortError → Reply (Unit {0})
reply_of none = done tt
reply_of (some e) = failed e

-- The entry that `AddPort` makes.
unfoldable pub new_info : PortDefinition → Kind → PortInfo
new_info req k = record {
  id_receiver = req.id_receiver;
  id_sm = req.id_sm;
  port_number = req.port_receiver;
  status = req.status;
  description = req.description;
  protocol = req.protocol;
  active = req.active;
  name = req.name;
  instance = new_instance k;
}

-- The end of `StartPort`: a new instance takes the place of the old one if it has started.
unfoldable pub started :
    PortInfo → ℕ → Ports → Option PortError × Instance × List ℕ → Reply (Unit {0}) × Ports
started info port s (none, instance, bound) = (
  done tt,
  record s {
    ports = put port (record info { instance = instance; active = true }) s.ports;
    bound = bound;
  },
)
started info port s (some x, instance, bound) = (failed x, record s { bound = bound })

-- The end of `AddPort`: the entry is in the map, and stays there when `Start` fails.
unfoldable pub added :
    PortInfo → ℕ → Ports → Option PortError × Instance × List ℕ → Reply (Unit {0}) × Ports
added info port s (e, instance, bound) = (
  reply_of e,
  record s { ports = put port (record info { instance = instance }) s.ports; bound = bound },
)

-- The end of `StopPort`: `Active` is cleared only if `Stop` succeeds.
unfoldable pub stopped :
    PortInfo → ℕ → Ports → Option PortError × Instance × List ℕ → Reply (Unit {0}) × Ports
stopped info port s (none, instance, bound) = (
  done tt,
  record s {
    ports = put port (record info { instance = instance; active = false }) s.ports;
    bound = bound;
  },
)
stopped info port s (some x, instance, bound) = (
  failed x,
  record s { ports = put port (record info { instance = instance }) s.ports; bound = bound },
)

-- The end of `DeletePort`: the entry goes only if `Stop` succeeds.
unfoldable pub deleted :
    PortInfo → ℕ → Ports → Option PortError × Instance × List ℕ → Reply (Unit {0}) × Ports
deleted info port s (none, instance, bound) =
    (done tt, record s { ports = remove port s.ports; bound = bound })
deleted info port s (some x, instance, bound) = (
  failed x,
  record s { ports = put port (record info { instance = instance }) s.ports; bound = bound },
)

module _ (env : Environment) where
  -- `AddPort`
  unfoldable pub add_port : PortDefinition → Action (Unit {0})
  add_port req s = elim (find req.port_receiver s.ports) [
    | some info ↦ (failed in_use, s)
    | none ↦ elim (kind_of_name req.protocol) [
      | none ↦ (failed unsupported, s)
      | some k ↦
          let info = new_info req k in
          if req.active
          then (added info req.port_receiver s
              (start env s.is_jet_stream req.port_receiver info.instance s.bound))
          else (done tt, record s { ports = put req.port_receiver info s.ports })
    ]
  ]

  -- `StartPort`
  unfoldable pub start_port : ℕ → Action (Unit {0})
  start_port port s = elim (find port s.ports) [
    | none ↦ (failed not_found, s)
    | some info ↦ elim (kind_of_name info.protocol) [
      | none ↦ (failed unsupported, s)
      | some k ↦
          if info.active
          then (failed already_active, s)
          else started info port s (start env s.is_jet_stream port (new_instance k) s.bound)
    ]
  ]

-- `StopPort`
unfoldable pub stop_port : ℕ → Action (Unit {0})
stop_port port s = elim (find port s.ports) [
  | none ↦ (failed not_found, s)
  | some info ↦
      if info.active
      then stopped info port s (stop info.instance s.bound)
      else (failed already_inactive, s)
]

-- `DeletePort`
unfoldable pub delete_port : ℕ → Action (Unit {0})
delete_port port s = elim (find port s.ports) [
  | none ↦ (failed not_found, s)
  | some info ↦
      if info.active
      then deleted info port s (stop info.instance s.bound)
      else (done tt, record s { ports = remove port s.ports })
]

-- `portInfoToProto`
unfoldable pub to_proto : PortInfo → PortDefinition
to_proto info = record {
  id_sm = info.id_sm;
  id_receiver = info.id_receiver;
  port_receiver = info.port_number;
  protocol = info.protocol;
  active = info.active;
  name = info.name;
  description = info.description;
  status = info.status;
  connections_count = 0;
}

-- `ChangePortDescription`: for an unknown port the map gives a nil pointer.
unfoldable pub change_port_description : PortDefinition → Action PortDefinition
change_port_description req s = elim (find req.port_receiver s.ports) [
  | none ↦ (crashed, s)
  | some info ↦
      let changed = record info { description = req.description; name = req.name } in
      (done (to_proto changed), record s { ports = put req.port_receiver changed s.ports })
]

-- `GetPortStatus`
unfoldable pub get_port_status : ℕ → Action PortDefinition
get_port_status port s = elim (find port s.ports) [
  | none ↦ (failed not_found, s)
  | some info ↦ (done (to_proto info), s)
]
