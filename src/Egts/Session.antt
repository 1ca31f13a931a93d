-- ===== src/Egts/Session.antt =====
-- hangle.go, process_connection: a connection of a terminal, from its bytes to answers and records.
pub mod Framing
pub mod Records
pub mod Answered
use nav_control.Base.{
  ℕ, zero, suc, ◌+◌, ◌-◌, ◌%◌, ◌^◌, List, [], ◌∷◌, ◌++◌, length, take, drop, Option, none, some,
  Bool, true, false, if◌then◌else◌, ltb, ◌==◌, get_or,
}
use nav_control.Go.Result.{Result, ok, err, panic, stuck}
use nav_control.Go.Float.{Float64}
use nav_control.Go.Words.{le_uint}
use nav_control.Go.Text.{Text}
use nav_control.Egts.Service.{ServiceDataRecord}
use nav_control.Egts.Package
use nav_control.Egts.Package.{
  Package, FrameData, services, answer, Outcome, done, refused, unfinished, egts_pt_appdata,
}
use nav_control.Egts.Reply.{confirmations, create_pt_response}
use nav_control.Egts.ResultReply.{create_sr_result_code}
use nav_control.Egts.Export.{Building, Round, built, leaves, add_subrecords, start_record, exported}
use nav_control.Egts.NavRecord.{NavRecord, NavRecords}

-- `ClientInfo`, of what changes after the connection is accepted. Numbers of 32 bits are kept by their bits.
pub record Activity : Type 0 where
  pub last_time : ℕ
  pub tid : ℕ
  pub imei : Text
  pub count_packets : ℕ
  pub multiple : Bool

-- What goes out: bytes to the terminal, records to NATS.
pub data Event : Type 0 where
  wrote : List ℕ → Event
  published : NavRecords → Event

-- The clock while a packet is handled, and which records NATS takes.
pub record Outside : Type 0 where
  pub now : ℕ
  pub publishes : NavRecords → Bool

-- What outlives a packet: `client`, and the entry of the connection in the map of clients, if it is there.
pub record Session : Type 0 where
  pub client : ℕ
  pub entry : Option Activity

-- What is there after reading: a packet and the rest, or the connection ends: no bytes are left, too few
-- arrived, or they are not EGTS.
pub data Arrival : Type 0 where
  whole : (packet rest : List ℕ) → Arrival
  none_left : Arrival

-- `pkgLen - headerLen`, the bytes behind the first ten.
unfoldable pub tail_length : List ℕ → ℕ
tail_length header =
    let body_len = le_uint (take 2 (drop 5 header)) in
    let hl = get_or header 3 0 in
    let pkg_len = if body_len == 0 then hl else (hl + (body_len + 2)) % 2 ^ 16 in
    (pkg_len + 2 ^ 16 - 10) % 2 ^ 16

unfoldable pub read_tail : (header rest : List ℕ) → Arrival
read_tail header rest =
    if ltb (length rest) (tail_length header)
    then none_left
    else whole (header ++ take (tail_length header) rest) (drop (tail_length header) rest)

-- The two calls of `io.ReadFull`.
unfoldable pub read_packet : List ℕ → Arrival
read_packet stream =
    if ltb (length stream) 10
    then none_left
    else if get_or stream 0 0 == 1
    then read_tail (take 10 stream) (drop 10 stream)
    else none_left

-- `if client, exists := eg.clients[clientID]; exists { … }` after a record.
unfoldable pub note_device : List NavRecord → Activity → Activity
note_device (r ∷ []) a = record a { tid = r.client; imei = r.imei; multiple = false }
note_device [] a = record a { multiple = true }
note_device (r ∷ s ∷ rs) a = record a { multiple = true }

unfoldable pub note_record : (now : ℕ) → NavRecords → Activity → Activity
note_record now n a = record (note_device n.rec_nav a) {
  last_time = now % 2 ^ 32;
  count_packets = a.count_packets + 1;
}

unfoldable pub note : (Activity → Activity) → Option Activity → Option Activity
note change none = none
note change (some a) = some (change a)

-- How the loop over the records goes on: all are done, `goto Received`, the connection ends, or a panic.
-- `sr_responses` are the numbers to be confirmed.
pub record Handling : Type 0 where
  pub session : Session
  pub service_type : ℕ
  pub sr_responses : List ℕ
  pub sr_result_code : List ℕ
  pub events : List Event

pub data Handled : Type 0 where
  finished : Handling → Handled
  left : Handling → Handled
  ended : Handling → Handled
  crashed : Handled

-- How a packet is handled, with the session and what went out.
pub data Turn : Type 0 where
  goes_on : Session → List Event → Turn
  closes : Session → List Event → Turn
  panics : Turn
  too_deep : Turn

module _ (out : Outside) where
  -- From `isPkgSave` on.
  unfoldable pub publish : Handling → ServiceDataRecord → Building → Handled
  publish h rec b =
      let n = exported rec b in
      let s = record h.session { client = b.client } in
      if out.publishes n
      then finished (record h {
        session = record s { entry = note (note_record out.now n) h.session.entry };
        sr_result_code = b.sr_result_code;
        events = h.events ++ (published n ∷ []);
      })
      else ended (record h { session = s })

  unfoldable pub after_subrecords : Handling → ServiceDataRecord → Round → Handled
  after_subrecords h rec (built b) = publish h rec b
  after_subrecords h rec (leaves b) =
      left (record h { session = record h.session { client = b.client } })
  after_subrecords h rec Round.crashed = crashed

  -- A round of the loop over `pkg.ServicesFrameData`.
  unfoldable pub handle_record :
      (result_code_reply : Result (List ℕ)) → Handling → ServiceDataRecord → Handled
  handle_record result_code_reply h rec =
      after_subrecords
        (record h {
          sr_responses = h.sr_responses ++ (rec.record_number ∷ []);
          service_type = rec.source_service_type;
        })
        rec
        (add_subrecords (out.now % 2 ^ 32) result_code_reply rec.record_data_set
          (start_record h.session.client h.sr_result_code rec))

  unfoldable pub and_handle : (Handling → Handled) → Handled → Handled
  and_handle next (finished h) = next h
  and_handle next (left h) = left h
  and_handle next (ended h) = ended h
  and_handle next crashed = crashed

  unfoldable pub handle_records :
      (result_code_reply : Result (List ℕ)) → List ServiceDataRecord → Handling → Handled
  handle_records reply [] h = finished h
  handle_records reply (rec ∷ recs) h =
      and_handle (handle_records reply recs) (handle_record reply h rec)

  -- The end of a round of `process_connection`: the time of the last activity.
  unfoldable pub note_time : Session → Session
  note_time s = record s { entry = note (λ a. record a { last_time = out.now % 2 ^ 32 }) s.entry }

  -- What is written for a packet of data.
  unfoldable pub answers : Handling → (reply : List ℕ) → List Event
  answers h reply = elim h.sr_result_code [
    | [] ↦ h.events ++ (wrote reply ∷ [])
    | b ∷ bytes ↦ h.events ++ (wrote reply ∷ wrote (b ∷ bytes) ∷ [])
  ]

  unfoldable pub reply_to : Handling → Result (List ℕ) → Turn
  reply_to h (ok reply) = goes_on (note_time h.session) (answers h reply)
  reply_to h (err e) = goes_on h.session h.events
  reply_to h panic = panics
  reply_to h stuck = panics

  unfoldable pub after_records : (reply : Handling → Result (List ℕ)) → Handled → Turn
  after_records reply (finished h) = reply_to h (reply h)
  after_records reply (left h) = goes_on h.session h.events
  after_records reply (ended h) = closes h.session h.events
  after_records reply crashed = panics

  -- The answer to a packet that is refused.
  unfoldable pub refuse : Session → Result (List ℕ) → Turn
  refuse s (ok reply) = goes_on s (wrote reply ∷ [])
  refuse s (err e) = goes_on s []
  refuse s panic = panics
  refuse s stuck = panics

  module _ (f : Float64) where
    -- The case EGTS_PT_APPDATA: `pkg.ServicesFrameData.(*ServiceDataSet)` panics on another value.
    unfoldable pub handle_data : Session → (pid : ℕ) → Option FrameData → Turn
    handle_data s pid none = panics
    handle_data s pid (some (answer r)) = panics
    handle_data s pid (some (services recs)) =
        after_records
          (λ h. create_pt_response f pid 0 h.service_type (confirmations h.sr_responses))
          (handle_records (create_sr_result_code f pid 0) recs (record {
            session = s;
            service_type = 0;
            sr_responses = [];
            sr_result_code = [];
            events = [];
          }))

    unfoldable pub handle_package : Session → Outcome Package → Turn
    handle_package s (done p) =
        if p.packet_type == egts_pt_appdata
        then handle_data s p.packet_identifier p.services_frame_data
        else goes_on (note_time s) []
    handle_package s (refused identifier code e) =
        refuse s (create_pt_response f identifier code 0 [])
    handle_package s Outcome.crashed = panics
    handle_package s unfinished = too_deep

-- How a connection ends. `endless` stands for fuel that ran out.
pub data Connection : Type 0 where
  closed : Session → List Event → Connection
  broken : Connection
  deeper : Connection
  endless : Connection

unfoldable pub add_events : List Event → Connection → Connection
add_events before (closed s after) = closed s (before ++ after)
add_events before broken = broken
add_events before deeper = deeper
add_events before endless = endless

unfoldable pub and_receive : (Session → Connection) → Turn → Connection
and_receive more (goes_on s events) = add_events events (more s)
and_receive more (closes s events) = closed s events
and_receive more panics = broken
and_receive more too_deep = deeper

module _ (f : Float64) (depth : ℕ) (spare : ℕ → List ℕ) (outside : ℕ → Outside) where
  unfoldable pub with_arrival :
      (n : ℕ) → (Session → List ℕ → Connection) → Session → Arrival → Connection
  with_arrival n more s none_left = closed s []
  with_arrival n more s (whole packet rest) =
      and_receive (λ t. more t rest)
        (handle_package (outside n) f s (Package.decode f none depth packet (spare n)))

  -- The loop of `process_connection` over the bytes that the terminal sends before it closes.
  unfoldable pub receive : (fuel n : ℕ) → Session → List ℕ → Connection
  receive zero n s stream = endless
  receive (suc fuel) n s stream =
      with_arrival n (λ t rest. receive fuel (n + 1) t rest) s (read_packet stream)

  -- `process_connection`
  unfoldable pub process_connection : Session → List ℕ → Connection
  process_connection s stream = receive (suc (length stream)) 0 s stream
