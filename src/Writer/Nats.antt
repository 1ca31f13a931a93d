-- ===== src/Writer/Nats.antt =====
-- rwnats.go: the connection to NATS, and the start and the end of a writer.
use nav_control.Base.{ℕ, ◌+◌, [], Bool, true, false, not, ◌&&◌, ◌||◌, if◌then◌else◌, ltb}
use nav_control.Go.Text.{Text}
use nav_control.Writer.Server.{
  WrNatsServer, Machine, Connecting, bad_config, no_pool, no_answer, answers, create_temp_file,
  connect_to_db, monitor_connections, close,
}

-- `nc`: nil, connected, or not connected any more.
pub data Link : Type 0 where
  no_link open_link closed_link : Link

-- `WrNatsServer`, with what belongs to NATS. `server` has what belongs to the messages, `subscribed` tells
-- that messages arrive, and `monitors` counts the goroutines of MonitorConnections.
pub record Writing : Type 0 where
  pub id_writer : ℕ
  pub id_sm : ℕ
  pub ip_db : Text
  pub port_db : ℕ
  pub db_name : Text
  pub db_table : Text
  pub login : Text
  pub passw : Text
  pub name : Text
  pub description : Text
  pub ip_broker : Text
  pub port_broker : ℕ
  pub topic_broker : Text
  pub is_jet_stream : Bool
  pub link : Link
  pub nats_connected : Bool
  pub subscribed : Bool
  pub monitors : ℕ
  pub server : WrNatsServer

-- What NATS does: it connects, gives a JetStream, has or makes the stream, and subscribes.
pub record Broker : Type 0 where
  pub connects : Bool
  pub jet_stream : Bool
  pub has_stream : Bool
  pub subscribes : Bool

-- `connectToNATS`
unfoldable pub connect_to_nats : Broker → Writing → Writing
connect_to_nats b w =
    if b.connects
    then (if w.is_jet_stream && not b.jet_stream
        then record w { link = open_link; nats_connected = false }
        else record w { link = open_link; nats_connected = true })
    else record w { link = no_link; nats_connected = false }

-- `StartSubscription`
unfoldable pub start_subscription : Broker → Writing → Bool × Writing
start_subscription b w =
    if not w.nats_connected || (w.is_jet_stream && not b.has_stream)
    then (false, w)
    else (b.subscribes, record w { subscribed = b.subscribes })

-- The end of `Init`: an error of `connectToDB` makes the file.
unfoldable pub init_db : Machine → Connecting → WrNatsServer → WrNatsServer
init_db m answers w = connect_to_db m answers w
init_db m bad_config w = create_temp_file m (connect_to_db m bad_config w)
init_db m no_pool w = create_temp_file m (connect_to_db m no_pool w)
init_db m no_answer w = create_temp_file m (connect_to_db m no_answer w)

-- `Init`
unfoldable pub init : Broker → Machine → Writing → Writing
init b m w = record (connect_to_nats b w) {
  server = init_db m m.connecting (record w.server { data_buffer = [] });
}

unfoldable pub and_monitor : Bool × Writing → Bool × Writing
and_monitor (false, w) = (false, w)
and_monitor (true, w) = (true, record w { monitors = w.monitors + 1 })

-- `Start`: whether it returns no error.
unfoldable pub start_writer : Broker → Machine → Writing → Bool × Writing
start_writer b m w = and_monitor (start_subscription b (init b m w))

unfoldable pub drop_link : Link → Link
drop_link no_link = no_link
drop_link open_link = closed_link
drop_link closed_link = closed_link

-- `Close`
unfoldable pub close_writer : Machine → Writing → Writing
close_writer m w = record w {
  server = close m w.server;
  link = drop_link w.link;
  subscribed = false;
}

unfoldable pub resubscribe : Broker → Writing → Writing
resubscribe b w = if w.nats_connected then (start_subscription b w).1 else w

-- The first part of a tick of `MonitorConnections`.
unfoldable pub check_nats : Broker → Link → Writing → Writing
check_nats b no_link w = w
check_nats b open_link w = w
check_nats b closed_link w = resubscribe b (connect_to_nats b (record w { nats_connected = false }))

-- A tick of `MonitorConnections`.
unfoldable pub tick : Broker → Machine → Writing → Writing
tick b m w =
    let checked = check_nats b w.link w in
    if ltb 0 w.monitors then record checked { server = monitor_connections m checked.server } else w
