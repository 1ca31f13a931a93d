-- ===== src/Receiver/Control.antt =====
-- grpcserver.go: the calls that change the ports and save the change in the configuration.
use nav_control.Base.{◌%◌, ◌^◌, ℕ, ◌+◌, List, [], ◌∷◌, Bool, true, false, if◌then◌else◌}
use nav_control.Receiver.Instance.{Environment, save_failed}
use nav_control.Receiver.Manager.{
  PortDefinition, Ports, Reply, done, failed, crashed, add_port, start_port, stop_port, delete_port,
  get_port_status, change_port_description,
}
use nav_control.Receiver.Config.{
  Receiver, Change, add, edit, delete, save_config_port, new_id, cfg_to_proto,
}

-- The manager's ports and the list in its configuration.
pub record Server : Type 0 where
  pub manager : Ports
  pub receivers : List Receiver

module _ (env : Environment) where
  -- `SaveConfigPort`: the list is changed also when the file cannot be written.
  unfoldable pub saved : Change → PortDefinition → Server → Reply (Unit {0}) × Server
  saved change req s = (
    if env.saves then done tt else failed save_failed,
    record s { receivers = save_config_port change req s.receivers },
  )

  -- A change of the ports, and if it succeeds that of the configuration.
  unfoldable pub and_save :
      Change → PortDefinition → Server → Reply (Unit {0}) × Ports → Reply (Unit {0}) × Server
  and_save change req s (done u, p) = saved change req (record s { manager = p })
  and_save change req s (failed e, p) = (failed e, record s { manager = p })
  and_save change req s (crashed, p) = (crashed, record s { manager = p })

  -- `OpenPort`
  unfoldable pub open_port : PortDefinition → Server → Reply (Unit {0}) × Server
  open_port req s =
      and_save edit (record req { active = true }) s (start_port env req.port_receiver s.manager)

  -- `ClosePort`
  unfoldable pub close_port : PortDefinition → Server → Reply (Unit {0}) × Server
  close_port req s =
      and_save edit (record req { active = false }) s (stop_port req.port_receiver s.manager)

  -- `AddPort`
  unfoldable pub add_new_port : PortDefinition → Server → Reply (Unit {0}) × Server
  add_new_port req s =
      let numbered = record req { id_receiver = (new_id s.receivers + 1) % 2 ^ 32 } in
      and_save add numbered s (add_port env numbered s.manager)

  -- `DeletePort`
  unfoldable pub delete_old_port : PortDefinition → Server → Reply (Unit {0}) × Server
  delete_old_port req s = and_save delete req s (delete_port req.port_receiver s.manager)

  -- `ChangePortDescription` saves the whole request, whatever its other fields.
  unfoldable pub change_description : PortDefinition → Server → Reply (Unit {0}) × Server
  change_description req s = changed (change_port_description req s.manager)
    where
      changed : Reply PortDefinition × Ports → Reply (Unit {0}) × Server
      changed (crashed, p) = (crashed, record s { manager = p })
      changed (done d, p) = saved edit req (record s { manager = p })
      changed (failed e, p) = saved edit req (record s { manager = p })

-- `GetPortStatus` asks the manager twice, the second time with the number of the answer.
unfoldable pub port_status : ℕ → Server → Reply PortDefinition
port_status port s = again (get_port_status port s.manager).0
  where
    again : Reply PortDefinition → Reply PortDefinition
    again (done d) = (get_port_status d.port_receiver s.manager).0
    again (failed e) = failed e
    again crashed = crashed

-- The loop of `PortManager.Start` over the configuration, which passes over the errors.
unfoldable pub init_ports : Environment → List Receiver → Ports → Ports
init_ports env [] m = m
init_ports env (r ∷ rs) m = init_ports env rs (add_port env (cfg_to_proto r) m).1

-- `NewPortManager` and `Start`
unfoldable pub start_manager : Environment → (is_jet_stream : Bool) → List Receiver → Server
start_manager env is_jet_stream rs =
    let empty : Ports = record { ports = []; bound = []; is_jet_stream = is_jet_stream } in
    record { manager = init_ports env rs empty; receivers = rs }
