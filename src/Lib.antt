-- ===== src/Lib.antt =====
-- NavControl, a verification library.
--
-- NavControl takes navigation telemetry in from vehicle terminals (services/receiver), stores it
-- (services/writer), sends it on to other systems (services/retranslator) and is controlled over
-- HTTP (services/rest-api). The terminals and the systems it is sent on to speak EGTS, a binary
-- protocol in layers: a packet holds service data records, a record holds subrecords, a subrecord
-- is a struct. This library is about that codec and the sessions of the terminals,
-- services/receiver/handler/egts, and about the ports on which the receiver listens,
-- services/receiver/internal/portmanager; about the Arnavi protocol,
-- services/receiver/handler/arnavi; about the sending of records,
-- services/retranslator/internal/sendegts; about the batches of the writer,
-- services/writer/internal/rwnats; and about the reading of the log, pkg/logger.
--
-- Which file models what:
-- - Base: Boolean tests on the native numbers, lists over them, library names passed on.
-- - Go: what the source uses of Go. Go/Result is a call's outcome (a value, an error, a panic, or
--   `stuck` for fuel that ran out, which is no outcome of the program). Go/Reader is bytes.Reader
--   and bytes.Buffer: a state of unread bytes, where `Read` at the end fails and a short read
--   leaves the tail of the buffer as it was. Go/Words is encoding/binary, Go/Text is
--   `fmt.Sprintf("%08b", b)` and `strconv.ParseUint(s, 2, 8)`, in which the source keeps its
--   flags. Go/Float is float64, as a parameter: the accuracy of its two formulas is a hypothesis,
--   which exact fractions meet. Go/Lines is strings.Split on a line break, and the contents of a
--   file of lines.
-- - Egts/Fields: fields that are there only if a flag says so.
-- - Egts/StateData, Egts/ExtPosData, Egts/LiquidLevelSensor, Egts/AbsAnSensData,
--   Egts/AbsCntrData, Egts/AbsDigSensData, Egts/ResultCode, Egts/DispatcherIdentity,
--   Egts/AuthInfo, Egts/ModuleData, Egts/CountersData, Egts/AdSensorsData, Egts/TermIdentity,
--   Egts/PassengersCounters, Egts/PosData, Egts/Response: a subrecord each, with the source's
--   struct, `decode` for its method Decode and `encode` for Encode. An encoder that cannot fail
--   gives the bytes themselves.
-- - Egts/Data: the interface BinaryData as a sum of the structs, and the two switches on it.
-- - Egts/Records: RecordDataSet (service_data_set.go). Egts/Service: ServiceDataSet
--   (service_data_rec.go).
-- - Egts/Crc: crc8 and crc16. Egts/PtResponse: egts_pt_response.go. Egts/Package:
--   egts_package.go, with `decode` in two parts, up to the header's checksum and from there on.
--   Its slices of the content reach into the memory behind it, as Go's do, so `decode` takes
--   those spare bytes.
-- - Egts/Reply: createPtResponse of hangle.go, with the confirmations that the handler gives it.
-- - Egts/NavRecord: pkg/models/navrecord.go. Egts/Export: the switch on subrecords in
--   process_connection of hangle.go, which builds these records; Egts/Export/Counts,
--   Egts/Export/Identity: how many, and for whom. Egts/ResultReply: createSrResultCode.
--   Egts/Session: process_connection from the bytes of a connection to events, which are answers
--   and published records, with the clock and NATS as a parameter; Egts/Session/Framing,
--   Egts/Session/Records, Egts/Session/Answered: its packets, records and answers.
-- - Egts/Tests: concrete runs.
-- - Receiver/Instance: a protocol's listener, started and stopped (hangle.go, with the same code
--   in handler/arnavi/handler.go). Receiver/Manager: the operations of PortManager on its map of
--   ports (manager.go). Receiver/Config: the list in its configuration. Receiver/Control: the
--   gRPC calls, which change the one and then the other (grpcserver.go), and the start.
--   Receiver/Clients: the questions about clients. Receiver/Shutdown: Stop and reconnect.
-- - Receiver/Sound, Receiver/Runs, Receiver/Numbers, Receiver/Synced, Receiver/Invariant,
--   Receiver/Reach, Receiver/Reconnect: what stays true of the ports. Receiver/View,
--   Receiver/Refine, Receiver/Outcome: the machine of a single port, and calls that are refused.
--   Receiver/Tests: runs.
-- - Receiver/Connections: handleConnections, the deferred function of handleConnection,
--   DisconnectClient, checkInactiveClients and Stop of hangle.go, each one step on the instance,
--   its goroutines and the gauge, which is one variable for all instances of the process,
--   `Process`; Receiver/Connections/Ids, Receiver/Connections/Counted: the map
--   of clients.
-- - Egts/Lengths: the lengths that the encoders fill in.
-- - Retranslator/Ack: processExistingData of services/retranslator/internal/sendegts/client.go,
--   the search for an answer. Retranslator/Sender: the packet of a record, `received` and
--   `sendRec`, with what the connection does as an argument. Retranslator/Packed,
--   Retranslator/Accepts, Retranslator/Delivered: the packets, and the answers of this receiver
--   to these packets. Retranslator/Saved: confirmations. Retranslator/Clients: the calls of
--   sendegts.go in the same directory that change the list of clients, with the queries as a
--   parameter; Retranslator/Deleted: the deletion of one. Retranslator/Relay, Retranslator/Relay/Stream: the
--   retranslator of one program sends to the receiver of another. Retranslator/Tests: runs.
-- - Arnavi/Crc, Arnavi/Header, Arnavi/Answer, Arnavi/Tags, Arnavi/Packet: the codecs of
--   services/receiver/handler/arnavi, with float32 as a parameter. Arnavi/Session: handler.go,
--   from the bytes of a connection to answers and records. Arnavi/Rounds, Arnavi/Framing,
--   Arnavi/Parcel: what a session does with its bytes. Arnavi/Tests: runs.
-- - Writer/Server: rwnats.go, with the database and the temporary file as a parameter, `Machine`;
--   a goroutine of a batch is a step of its own. Writer/Files: the file. Writer/Counts,
--   Writer/Held, Writer/Conserved, Writer/Reach: where a message is. Writer/Nats: its connection
--   to NATS, Start, Close and the monitor. Writer/Config, Writer/Services: the calls of
--   services/writer/internal/mgrpc/grpcserver.go, with the list of pkg/config/writer.go;
--   Writer/Services/Keys, Writer/Services/InStep, Writer/Services/Resumed: the map of writers,
--   and what becomes of one that is deleted. Writer/Tests, Writer/Services/Tests: runs.
-- - Logger/Filter: the tests of a filter in logger.go, with JSON and patterns as a parameter.
--   Logger/Read: the three readers, on the contents of the file. Logger/Selected, Logger/Newest,
--   Logger/Blocks: what they give. Logger/Tests: runs.
--
-- Numbers are natural numbers with the wrap-around of their width written out. Loops over the
-- unread bytes run on fuel, the number of bytes, of which each round takes at least one: a packet
-- of a session ten, a part of a file or a log the rest or a whole block of 1024 or 4096. A
-- response subrecord decodes a service data set of its own, so `Service.decode` has a second
-- fuel, the depth: two is enough for what `encode` writes. The machine that the receiver runs on
-- (which ports can be bound, whether JetStream comes up, whether a file can be written) is a
-- parameter, `Environment`. An operation of the manager is one step: its locks and the goroutines
-- beside it are left out. A flush of the temporary file is one step too, where the source flushes
-- without bufferMu beside the batches that run. Within a packet of a session the clock gives
-- one time. Message texts of errors, logging and JSON tags are left out.
--
-- Not modelled: the retranslator's loop and listings, the REST API, which passes calls on, the
-- reading and writing of configurations, and all network, database and file I/O.
pub mod Base
pub mod Go
pub mod Egts
pub mod Receiver
pub mod Retranslator
pub mod Arnavi
pub mod Writer
pub mod Logger
