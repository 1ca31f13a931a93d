-- ===== src/Receiver/Clients.antt =====
-- manager.go: the clients of the ports. GetClients of both handlers copies the map of clients; the
-- order of the list is that of the maps' iteration. Counts are of type int32.
use nav_control.Base.{
  ℕ, ◌+◌, ◌%◌, ◌^◌, ◌<◌, ◌≡◌, refl, List, [], ◌∷◌, ◌++◌, length, length-append, none, some, Bool,
  true, false, if◌then◌else◌, ◌==◌, Map, find, Bool-cases, Option-cases, arith, inl, inr,
}
use nav_control.Go.Text.{Text}
use nav_control.Receiver.Instance.{ClientInfo, not_found, no_client, disconnect}
use nav_control.Receiver.Manager.{
  PortInfo, PortDefinition, Ports, Reply, done, failed, crashed, to_proto,
}

-- `proto.ClientInfo`, which names the port of the client's listener.
pub record PortClient : Type 0 where
  pub client : ClientInfo
  pub port_receiver : ℕ
  pub id_receiver : ℕ

-- `int32`, by its bits.
unfoldable pub to_int32 : ℕ → ℕ
to_int32 n = n % 2 ^ 32

-- The number of clients of a port, as the assertions on the instance's type come to it.
unfoldable pub count_connections : PortInfo → ℕ
count_connections info = if info.active then to_int32 (length info.instance.clients) else 0

-- `ListPorts`
unfoldable pub list_ports : Map PortInfo → List PortDefinition
list_ports [] = []
list_ports ((port, info) ∷ m) =
    record (to_proto info) { connections_count = count_connections info } ∷ list_ports m

unfoldable pub total_count : ℕ → Map PortInfo → ℕ
total_count total [] = total
total_count total ((port, info) ∷ m) = total_count (to_int32 (total + count_connections info)) m

-- `GetActiveConnectionsCount`, of a port or with 0 of all.
unfoldable pub get_active_connections_count : ℕ → Ports → Reply ℕ
get_active_connections_count port s =
    if port == 0 then done (total_count 0 s.ports) else elim (find port s.ports) [
      | none ↦ failed not_found
      | some info ↦ done (count_connections info)
    ]

unfoldable pub port_clients : PortInfo → List ClientInfo → List PortClient
port_clients info [] = []
port_clients info (c ∷ cs) =
    (record { client = c; port_receiver = info.port_number; id_receiver = info.id_receiver })
    ∷ port_clients info cs

unfoldable pub active_clients : PortInfo → List PortClient
active_clients info = if info.active then port_clients info info.instance.clients else []

unfoldable pub all_clients : Map PortInfo → List PortClient
all_clients [] = []
all_clients ((port, info) ∷ m) = active_clients info ++ all_clients m

-- `GetConnectedClients`, of a port or with 0 of all.
unfoldable pub get_connected_clients : ℕ → Ports → Reply (List PortClient)
get_connected_clients port s =
    if port == 0 then done (all_clients s.ports) else elim (find port s.ports) [
      | none ↦ failed not_found
      | some info ↦ done (active_clients info)
    ]

-- The loop of `DisconnectClient` over the active ports, up to the first that has the client.
unfoldable pub disconnect_from : Text → Map PortInfo → Reply (Unit {0})
disconnect_from id [] = failed no_client
disconnect_from id ((port, info) ∷ m) =
    let later = disconnect_from id m in
    if info.active
    then elim (disconnect id info.instance) [ none ↦ done tt | some e ↦ later ]
    else later

unfoldable pub disconnect_client : Text → Ports → Reply (Unit {0})
disconnect_client id s = disconnect_from id s.ports

-- `IsEmpty` of the gRPC server
unfoldable pub is_empty : Ports → Bool
is_empty s = elim (list_ports s.ports) [ [] ↦ true | d ∷ ds ↦ false ]

length-port_clients :
    (info : PortInfo) (cs : List ClientInfo) → length (port_clients info cs) ≡ length cs
unfolding port_clients
length-port_clients info [] = refl
length-port_clients info (c ∷ cs) = ground (arith, length-port_clients info cs)

length-active_clients :
    (info : PortInfo) → to_int32 (length (active_clients info)) ≡ count_connections info
unfolding active_clients count_connections to_int32
length-active_clients info = ground (arith, length-port_clients info info.instance.clients)

length-all_clients :
    (total : ℕ) (m : Map PortInfo)
    → to_int32 (total + length (all_clients m)) ≡ to_int32 (total_count total m)
unfolding all_clients total_count to_int32
length-all_clients total [] = ground arith
length-all_clients total ((port, info) ∷ m) =
    let own : length (active_clients info) % 2 ^ 32 ≡ count_connections info =
      length-active_clients info in
    let both = length-append (active_clients info) (all_clients m) in
    let later = length-all_clients (to_int32 (total + count_connections info)) m in
    rw both (omega (arith, own, later))

-- The number that an answer with clients stands for.
unfoldable pub counted : Reply (List PortClient) → Reply ℕ
counted (done cs) = done (to_int32 (length cs))
counted (failed e) = failed e
counted crashed = crashed

total_count-int32 : (total : ℕ) (m : Map PortInfo) → total < 2 ^ 32 → total_count total m < 2 ^ 32
unfolding total_count to_int32
total_count-int32 total [] small = small
total_count-int32 total ((port, info) ∷ m) small =
    total_count-int32 (to_int32 (total + count_connections info)) m (omega arith)

-- For each port, known or not, and for 0, which stands for all, the answer with the count of
-- connections is the answer with the clients, with their number as int32 in place of the list.
pub get_connected_clients-count :
    (port : ℕ) (s : Ports)
    → counted (get_connected_clients port s) ≡ get_active_connections_count port s
unfolding get_connected_clients get_active_connections_count counted to_int32
get_connected_clients-count port s = elim (Bool-cases (port == 0)) [
  | inl every ↦
      let small = total_count-int32 0 s.ports (omega arith) in
      let same = length-all_clients 0 s.ports in
      let total : to_int32 (length (all_clients s.ports)) ≡ total_count 0 s.ports =
        all_lem (length (all_clients s.ports)) (total_count 0 s.ports) small same in
      ground (arith, every, total)
  | inr one ↦ elim (Option-cases (find port s.ports)) [
    | inl unknown ↦ ground (arith, one, unknown)
    | inr (info, e) ↦ ground (arith, one, e, length-active_clients info)
  ]
]
  where
    all_lem : (n m : ℕ) → m < 2 ^ 32 → to_int32 (0 + n) ≡ to_int32 m → to_int32 n ≡ m
    all_lem n m small same = omega (arith, small, same)
