-- ===== src/Receiver/Tests.antt =====
-- Two configured ports, one of them active, and the theorems on calls to them.
use nav_control.Base.{IsDistinct, ◌≡◌, refl, List, [], ◌∷◌, some, true, false, member, find, put}
use nav_control.Go.Text.{Text}
use nav_control.Receiver.Instance.{
  has_address, Environment, ClientInfo, egts, egts_name, arnavi_name, new_instance, kind_of_name,
}
use nav_control.Receiver.Manager.{PortInfo, Ports, add_port, added, new_info, start_port}
use nav_control.Receiver.Config.{Receiver, cfg_to_proto}
use nav_control.Receiver.Control.{Server, start_manager, init_ports, open_port, and_save}
use nav_control.Receiver.Sound.{HasStream}
use nav_control.Receiver.View.{starting, run, is_done, has_no_kind, Refines}
use nav_control.Receiver.Refine.{CanRun, run-Refines}
use nav_control.Receiver.Connections
use nav_control.Receiver.Connections.{
  Process, add_listener, process_of, listening_of, Serving, accept, check_inactive_clients,
}
use nav_control.Receiver.Connections.Ids.{handler_ids}
use nav_control.Receiver.Connections.Counted.{AreCounted, Reach-AreCounted}
use nav_control.Receiver.Numbers.{numbers}
use nav_control.Receiver.Synced.{IsSynced}
use nav_control.Receiver.Invariant.{Request, opening, handle, Serves}
use nav_control.Receiver.Reach.{
  Configured, here, next_call, call, start_manager-IsSynced, start_manager-Reach-IsSynced,
}
use nav_control.Receiver.Outcome.{handle-refused}
use nav_control.Receiver.Clients.{
  counted, get_connected_clients, get_active_connections_count, get_connected_clients-count,
}
use nav_control.Receiver.Shutdown.{stop_manager, stop_manager-frees, reconnect}
use nav_control.Receiver.Reconnect.{reconnect-IsSynced}

abbrev machine : Environment
machine = record { listens = λ p. true; streams = true; saves = true }

abbrev egts_port : Receiver
egts_port = record {
  id_receiver = 1;
  active = true;
  name = b'a' ∷ [];
  port_receiver = 5000;
  protocol = egts_name;
  status = [];
  description = [];
}

abbrev arnavi_port : Receiver
arnavi_port = record egts_port {
  id_receiver = 2;
  active = false;
  port_receiver = 5001;
  protocol = arnavi_name;
}

abbrev two_ports : List Receiver
two_ports = egts_port ∷ arnavi_port ∷ []

abbrev server : Server
server = start_manager machine true two_ports

abbrev open_second : Request
open_second = opening (cfg_to_proto arnavi_port)

abbrev open_first : Request
open_first = opening (cfg_to_proto egts_port)

two_ports-Configured : Configured machine two_ports
unfolding Configured has_no_kind kind_of_name
two_ports-Configured = (refl, λ a. refl, (refl, λ a. refl, tt))

two_ports-IsDistinct : IsDistinct (numbers two_ports)
unfolding IsDistinct numbers member
two_ports-IsDistinct = (refl, (refl, tt))

server-IsSynced : IsSynced server
server-IsSynced =
    start_manager-IsSynced machine true two_ports refl two_ports-Configured two_ports-IsDistinct

start_manager-Reach_example : IsSynced (handle machine open_second server).1
unfolding Serves
start_manager-Reach_example =
    start_manager-Reach-IsSynced machine true two_ports (handle machine open_second server).1 refl
      two_ports-Configured two_ports-IsDistinct
      (next_call here (call machine open_second server refl))

run-Refines_example :
    Refines machine (starting 5001) server.manager (run machine (starting 5001) server.manager)
unfolding CanRun HasStream
run-Refines_example =
    run-Refines machine (starting 5001) server.manager (λ jet. refl) server-IsSynced.sound

open_first-refused : is_done (handle machine open_first server).0 ≡ false
unfolding is_done handle open_port and_save start_port start_manager init_ports add_port find
    cfg_to_proto kind_of_name new_instance added put new_info
open_first-refused = refl

handle-refused_example : (handle machine open_first server).1 ≡ server
unfolding Serves
handle-refused_example =
    handle-refused machine open_first server refl refl server-IsSynced.sound open_first-refused

stop_manager-frees_example : member 5000 (stop_manager server.manager).bound ≡ false
stop_manager-frees_example = stop_manager-frees server.manager server-IsSynced.sound 5000

reconnect-IsSynced_example : IsSynced (reconnect machine server)
reconnect-IsSynced_example = reconnect-IsSynced machine server refl server-IsSynced

abbrev truck : ClientInfo
truck = record {
  id = b't' ∷ [];
  remote_addr = b'r' ∷ [];
  connect_time = 0;
  protocol = egts_name;
  last_time = 0;
  imei = [];
  tid = 7;
  count_packets = 0;
  multiple = false;
}

abbrev busy : PortInfo
busy = record {
  id_receiver = 1;
  id_sm = 0;
  port_number = 5000;
  status = [];
  description = [];
  protocol = egts_name;
  active = true;
  name = [];
  instance = record (new_instance egts) { listener = some 5000; clients = truck ∷ [] };
}

abbrev busy_ports : Ports
busy_ports = record { ports = (5000, busy) ∷ []; bound = 5000 ∷ []; is_jet_stream = false }

get_connected_clients-count_example :
    counted (get_connected_clients 5000 busy_ports) ≡ get_active_connections_count 5000 busy_ports
get_connected_clients-count_example = get_connected_clients-count 5000 busy_ports

abbrev bus_address : Text
bus_address = b'1' ∷ b':' ∷ b'9' ∷ []

abbrev bus_id : Text
bus_id = b'1' ∷ b'-' ∷ b'7' ∷ []

abbrev serving : Serving
serving = record { instance = new_instance egts; handlers = []; connected_devices = 0 }

-- The first instance with its client, and a second one that has the same terminal.
abbrev one : Serving
one = accept bus_id bus_address 7 serving

abbrev two : Serving
two = accept bus_id bus_address 9 (record serving { connected_devices = one.connected_devices })

-- A terminal connects to two ports, falls silent on the second and is closed there.
abbrev silent : Process
silent = process_of (listening_of one ∷ []) (check_inactive_clients 1000 two) []

Reach-silent : Connections.Counted.Reach silent
unfolding new_instance handler_ids has_address add_listener process_of listening_of accept
Reach-silent =
    Connections.Counted.next
      (Connections.Counted.next
        (Connections.Counted.next
          (Connections.Counted.next
            (Connections.Counted.next Connections.Counted.starts (Connections.Counted.opens _))
            (Connections.Counted.serves [] []
              (Connections.Counted.accepts bus_id bus_address 7 serving refl)))
          (Connections.Counted.opens _))
        (Connections.Counted.serves (listening_of one ∷ []) [] (
          Connections.Counted.accepts bus_id bus_address 9
            (record serving { connected_devices = one.connected_devices }) refl)))
      (Connections.Counted.serves (listening_of one ∷ []) [] (Connections.Counted.ticks 1000 two))

Reach-AreCounted_example : AreCounted silent
Reach-AreCounted_example = Reach-AreCounted Reach-silent
