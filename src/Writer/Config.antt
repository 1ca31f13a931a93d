-- ===== src/Writer/Config.antt =====
-- The records of a writer: in pkg/config/writer.go, in a call, and in grpcserver.go.
use nav_control.Base.{ℕ, ◌%◌, ◌^◌, List, [], ◌∷◌, Bool, false, if◌then◌else◌, ◌==◌, Map}
use nav_control.Go.Text.{Text}
use nav_control.Writer.Server.{WrNatsServer, Machine, no_file}
use nav_control.Writer.Nats.{Writing, Broker, no_link}

-- `config.Writer`
pub record Writer : Type 0 where
  pub description : Text
  pub name : Text
  pub id_writer : ℕ
  pub db_ip : Text
  pub db_port : ℕ
  pub db_name : Text
  pub db_user : Text
  pub db_pass : Text
  pub db_table : Text

-- `ControlWriter.DeleteWriter`, where an error changes nothing.
unfoldable pub delete_writer : ℕ → List Writer → List Writer
delete_writer id [] = []
delete_writer id (v ∷ vs) =
    let later = delete_writer id vs in if v.id_writer == id then vs else v ∷ later

-- `proto.WriteService`
pub record WriteService : Type 0 where
  pub id_writer : ℕ
  pub id_sm : ℕ
  pub ip_db : Text
  pub port_db : ℕ
  pub name : Text
  pub db_name : Text
  pub db_table : Text
  pub login : Text
  pub passw : Text
  pub status : Text
  pub active : Bool
  pub description : Text

-- `GRPCServer`, with the writers that were deleted, whose goroutines run on, and the list of writers in the
-- file of the configuration. Numbers of 32 bits are kept by their bits.
pub record GrpcServer : Type 0 where
  pub ip_broker : Text
  pub port_broker : ℕ
  pub topic_broker : Text
  pub size_buf : ℕ
  pub is_jet_stream : Bool
  pub id_sm : ℕ
  pub wr_nats_map : Map Writing
  pub deleted : List Writing
  pub writers : List Writer
  pub saved : List Writer

-- What the network, the machine and the disk do in a call. `contents` is what the file of the writer's
-- name has in it, `saves` whether the configuration can be written.
pub record World : Type 0 where
  pub broker : Broker
  pub machine : Machine
  pub contents : Text
  pub saves : Bool

-- The fields of a `WrNatsServer` that was just made.
unfoldable pub fresh_server : (size_buf : ℕ) (contents : Text) → WrNatsServer
fresh_server size_buf contents = record {
  size_buf = size_buf;
  data_buffer = [];
  has_db = false;
  db_connected = false;
  temp_file = no_file;
  contents = contents;
  table = [];
  batches = [];
}

-- The writer of a record of the configuration.
unfoldable pub configured : World → GrpcServer → Writer → Writing
configured world s r = record {
  id_writer = r.id_writer;
  id_sm = s.id_sm % 2 ^ 32;
  ip_db = r.db_ip;
  port_db = r.db_port;
  db_name = r.db_name;
  db_table = r.db_table;
  login = r.db_user;
  passw = r.db_pass;
  name = r.name;
  description = r.description;
  ip_broker = s.ip_broker;
  port_broker = s.port_broker;
  topic_broker = s.topic_broker;
  is_jet_stream = s.is_jet_stream;
  link = no_link;
  nats_connected = false;
  subscribed = false;
  monitors = 0;
  server = fresh_server s.size_buf world.contents;
}

-- The writer of a call, which has no JetStream.
unfoldable pub requested : World → GrpcServer → WriteService → Writing
requested world s req = record {
  id_writer = req.id_writer;
  id_sm = req.id_sm;
  ip_db = req.ip_db;
  port_db = req.port_db;
  db_name = req.db_name;
  db_table = req.db_table;
  login = req.login;
  passw = req.passw;
  name = req.name;
  description = req.description;
  ip_broker = s.ip_broker;
  port_broker = s.port_broker;
  topic_broker = s.topic_broker;
  is_jet_stream = false;
  link = no_link;
  nats_connected = false;
  subscribed = false;
  monitors = 0;
  server = fresh_server s.size_buf world.contents;
}

-- What `AddWrite` puts into the configuration.
unfoldable pub written_writer : ℕ → WriteService → Writer
written_writer id req = record {
  description = req.description;
  name = req.name;
  id_writer = id;
  db_ip = req.ip_db;
  db_port = req.port_db;
  db_name = req.db_name;
  db_user = req.login;
  db_pass = req.name;
  db_table = req.db_table;
}
