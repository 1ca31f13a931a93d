-- ===== src/Receiver/Connections.antt =====
-- hangle.go: the connections of a listener, from the accept to the end of their goroutine.
pub mod Ids
pub mod Counted
use nav_control.Base.{
  ℕ, ◌+◌, ◌-◌, ◌%◌, ◌^◌, List, [], ◌∷◌, ◌++◌, Option, none, some, Bool, true, false, if◌then◌else◌,
  ltb,
}
use nav_control.Go.Text.{Text, text_eq}
use nav_control.Receiver.Instance.{
  Instance, ClientInfo, Kind, egts, new_instance, egts_name, find_client, has_address, disconnect,
  close_listener,
}

-- The goroutine of a connection, and whether the connection is still open.
pub record Handler : Type 0 where
  pub address : Text
  pub client_id : Text
  pub is_open : Bool

-- An instance with its goroutines, and the gauge of connected devices, which all instances of the process share.
pub record Serving : Type 0 where
  pub instance : Instance
  pub handlers : List Handler
  pub connected_devices : ℕ

-- An instance with its goroutines.
pub record Listening : Type 0 where
  pub instance : Instance
  pub handlers : List Handler

-- All instances that the process has made, those that are stopped too, and `connectedDevices1`.
pub record Process : Type 0 where
  pub listeners : List Listening
  pub connected_devices : ℕ

-- `NewEgtsProtocol`, for a port that is added or started again.
unfoldable pub add_listener : Process → Process
add_listener p = record p {
  listeners = p.listeners ++ (record { instance = new_instance egts; handlers = [] } ∷ []);
}

unfoldable pub listening_of : Serving → Listening
listening_of s = record { instance = s.instance; handlers = s.handlers }

-- One of the instances, between others, with the gauge.
unfoldable pub process_of : (before : List Listening) → Serving → (later : List Listening) → Process
process_of before s later = record {
  listeners = before ++ (listening_of s ∷ later);
  connected_devices = s.connected_devices;
}

-- `a.clients[clientID] = clientInfo`
unfoldable pub put_client : ClientInfo → List ClientInfo → List ClientInfo
put_client c [] = c ∷ []
put_client c (d ∷ ds) =
    let later = put_client c ds in if text_eq d.id c.id then c ∷ ds else d ∷ later

-- `delete(a.clients, clientID)`
unfoldable pub delete_client : Text → List ClientInfo → List ClientInfo
delete_client id [] = []
delete_client id (c ∷ cs) =
    let later = delete_client id cs in if text_eq c.id id then later else c ∷ later

-- `delete(a.connections, conn)`, by the address of its peer.
unfoldable pub delete_connection : Text → List Text → List Text
delete_connection address [] = []
delete_connection address (a ∷ more) =
    let later = delete_connection address more in if text_eq a address then later else a ∷ later

unfoldable pub new_client : (id address : Text) (now : ℕ) → ClientInfo
new_client id address now = record {
  id = id;
  remote_addr = address;
  connect_time = now % 2 ^ 32;
  protocol = egts_name;
  last_time = now % 2 ^ 32;
  imei = [];
  tid = 0;
  count_packets = 0;
  multiple = false;
}

-- A round of `handleConnections`: `id` is what Sprintf makes of the address and the time.
unfoldable pub accept : (id address : Text) (now : ℕ) → Serving → Serving
accept id address now s = if s.instance.cancelled then s else record {
  instance = record s.instance {
    connections = s.instance.connections ++ (address ∷ []);
    clients = put_client (new_client id address now) s.instance.clients;
  };
  handlers = s.handlers ++ (record { address = address; client_id = id; is_open = true } ∷ []);
  connected_devices = s.connected_devices + 1;
}

unfoldable pub close_at : Text → List Handler → List Handler
close_at address [] = []
close_at address (h ∷ hs) =
    (if text_eq h.address address then record h { is_open = false } else h) ∷ close_at address hs

-- `conn.Close()`, here or by the peer.
unfoldable pub close_connection : Text → Serving → Serving
close_connection address s = record s { handlers = close_at address s.handlers }

-- `DisconnectClient`, with the effect on the connection: an error leaves all as it is.
unfoldable pub disconnect_client : Text → Serving → Serving
disconnect_client id s = elim (find_client id s.instance.clients) [
  | none ↦ s
  | some c ↦
      if has_address c.remote_addr s.instance.connections
      then close_connection c.remote_addr s
      else s
]

unfoldable pub without_handler : Text → List Handler → List Handler
without_handler id [] = []
without_handler id (h ∷ hs) =
    let later = without_handler id hs in if text_eq h.client_id id then later else h ∷ later

-- The deferred function of `handleConnection`.
unfoldable pub finish : (id address : Text) → Serving → Serving
finish id address s = record {
  instance = record s.instance {
    connections = delete_connection address s.instance.connections;
    clients = delete_client id s.instance.clients;
  };
  handlers = without_handler id s.handlers;
  connected_devices = s.connected_devices - 1;
}

-- The clients that have been silent for more than three minutes.
unfoldable pub inactive_clients : (now : ℕ) → List ClientInfo → List Text
inactive_clients now [] = []
inactive_clients now (c ∷ cs) =
    if ltb (180 + c.last_time) now then c.id ∷ inactive_clients now cs else inactive_clients now cs

unfoldable pub disconnect_all : List Text → Serving → Serving
disconnect_all [] s = s
disconnect_all (id ∷ ids) s = disconnect_all ids (disconnect_client id s)

-- A tick of `checkInactiveClients`.
unfoldable pub check_inactive_clients : (now : ℕ) → Serving → Serving
check_inactive_clients now s =
    if s.instance.cancelled then s else disconnect_all (inactive_clients now s.instance.clients) s

unfoldable pub close_all : List Text → Serving → Serving
close_all [] s = s
close_all (a ∷ more) s = close_all more (close_connection a s)

-- `Stop`, with the effect on the connections; the listener is closed as in `Instance.stop`.
unfoldable pub stop_serving : Serving → Serving
stop_serving s =
    let closed = close_all s.instance.connections s in
    record closed { instance = record closed.instance { cancelled = true; connections = [] } }

-- `GetClients`
unfoldable pub get_clients : Serving → List ClientInfo
get_clients s = s.instance.clients
