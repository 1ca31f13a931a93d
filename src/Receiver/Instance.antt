-- ===== src/Receiver/Instance.antt =====
-- protocol/handler.go and the server side of egts/hangle.go and arnavi/handler.go: what a protocol
-- instance does with its listener. The two handlers have the same code here.
use nav_control.Base.{
  ℕ, List, [], ◌∷◌, Option, none, some, Bool, true, false, not, ◌&&◌, ◌||◌, if◌then◌else◌, member,
  without,
}
use nav_control.Go.Text.{Text, text_eq}

-- Which of the two structs behind the interface NavigationProtocol an instance is.
pub data Kind : Type 0 where
  arnavi egts : Kind

-- A client's entry, with the name of the device as `Device.Imei` and `Device.Tid`.
pub record ClientInfo : Type 0 where
  pub id : Text
  pub remote_addr : Text
  pub connect_time : ℕ
  pub protocol : Text
  pub last_time : ℕ
  pub imei : Text
  pub tid : ℕ
  pub count_packets : ℕ
  pub multiple : Bool

-- `connections` holds the remote addresses of the open connections; `cancelled` tells that the
-- instance's context is.
pub record Instance : Type 0 where
  pub kind : Kind
  pub listener : Option ℕ
  pub cancelled : Bool
  pub clients : List ClientInfo
  pub connections : List Text

pub data PortError : Type 0 where
  in_use unsupported not_found already_active already_inactive : PortError
  listen_failed stream_failed close_failed save_failed no_client : PortError

-- What the machine answers: whether a port that this process has not bound can be bound, whether
-- JetStream comes up, and whether the configuration file can be written.
pub record Environment : Type 0 where
  pub listens : ℕ → Bool
  pub streams : Bool
  pub saves : Bool

-- "Arnavi" and "EGTS"
abbrev pub arnavi_name : Text
arnavi_name = b'A' ∷ b'r' ∷ b'n' ∷ b'a' ∷ b'v' ∷ b'i' ∷ []

abbrev pub egts_name : Text
egts_name = b'E' ∷ b'G' ∷ b'T' ∷ b'S' ∷ []

-- The switch on the protocol's name.
unfoldable pub kind_of_name : Text → Option Kind
kind_of_name name =
    if text_eq name arnavi_name
    then some arnavi
    else (if text_eq name egts_name then some egts else none)

-- `NewArnaviProtocol` and `NewEgtsProtocol`
unfoldable pub new_instance : Kind → Instance
new_instance k = record {
  kind = k;
  listener = none;
  cancelled = false;
  clients = [];
  connections = [];
}

-- How `Start` ends: an error or none, the instance, and the ports that the process has bound. When
-- JetStream does not come up the listener stays open.
unfoldable pub start :
    Environment
    → (is_jet_stream : Bool) → ℕ
    → Instance
    → List ℕ
    → Option PortError × Instance × List ℕ
start env is_jet_stream port instance bound =
    if member port bound || not (env.listens port)
    then (some listen_failed, record instance { listener = none }, bound)
    else (if is_jet_stream && not env.streams
        then (some stream_failed, record instance { listener = some port }, port ∷ bound)
        else (none, record instance { listener = some port }, port ∷ bound))

-- `a.listener.Close()`, which fails on a listener that is closed.
unfoldable pub close_listener : Option ℕ → List ℕ → Option PortError × List ℕ
close_listener none bound = (none, bound)
close_listener (some port) bound =
    if member port bound then (none, without port bound) else (some close_failed, bound)

-- `Stop`: the clients are taken out of the map by the goroutines of their connections, later.
unfoldable pub stop : Instance → List ℕ → Option PortError × Instance × List ℕ
stop instance bound =
    let closed = close_listener instance.listener bound in
    (closed.0, record instance { cancelled = true; connections = [] }, closed.1)

unfoldable pub has_address : Text → List Text → Bool
has_address address [] = false
has_address address (a ∷ more) = text_eq a address || has_address address more

unfoldable pub find_client : Text → List ClientInfo → Option ClientInfo
find_client id [] = none
find_client id (c ∷ cs) = let later = find_client id cs in if text_eq c.id id then some c else later

-- `DisconnectClient` closes the connection and leaves both maps to the connection's goroutine.
unfoldable pub disconnect : Text → Instance → Option PortError
unfolding find_client has_address
disconnect id instance = elim (find_client id instance.clients) [
  | none ↦ some no_client
  | some c ↦ if has_address c.remote_addr instance.connections then none else some no_client
]
