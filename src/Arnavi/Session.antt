-- ===== src/Arnavi/Session.antt =====
-- handler.go: a connection of a terminal, from the bytes that arrive to the answers and the records.
use nav_control.Base.{
  ℕ, zero, suc, ◌+◌, ◌%◌, ◌^◌, List, [], ◌∷◌, ◌++◌, length, drop, Option, none, some, Bool, true,
  if◌then◌else◌, ltb, ◌==◌,
}
use nav_control.Go.Result.{Result, ok, err, panic, stuck}
use nav_control.Go.Reader.{run}
use nav_control.Arnavi.Crc.{sig_pack_end, size_auth, size_scan}
use nav_control.Arnavi.Header.{HeadOne, decode, scan_packed, ScanPacket, scan_packet}
use nav_control.Arnavi.Answer.{answer_header, answer_packed}
use nav_control.Arnavi.Tags.{Float32}
use nav_control.Arnavi.Packet.{PacketS, decode_packet}

-- `ClientArnavi`, of what the loop reads and changes.
pub record ClientArnavi : Type 0 where
  pub authorization : Bool
  pub id : ℕ
  pub imei_id : ℕ

-- The navigation record that a packet becomes, with its number; the identifier is not yet in decimal.
pub record NavRecord : Type 0 where
  pub packet_id : ℕ
  pub imei : ℕ
  pub navigation_timestamp : ℕ
  pub latitude : ℕ
  pub longitude : ℕ
  pub flag_pos : ℕ
  pub course : ℕ
  pub received_timestamp : ℕ
  pub flag_liq_num : ℕ
  pub value : List ℕ

-- What goes out: bytes to the terminal, records to NATS.
pub data Event : Type 0 where
  wrote : List ℕ → Event
  published : NavRecord → Event

-- The clock, whether the connection takes bytes, and whether NATS takes records.
pub record Outside : Type 0 where
  pub now : ℕ
  pub writes : Bool
  pub publishes : Bool

-- A round of the loop: it waits for bytes, uses some, or ends the connection.
pub data Round : Type 0 where
  waits : Round
  uses : ClientArnavi → ℕ → List Event → Round
  ends : Round

-- How `processExistingData` ends: the client, the bytes left and what went out, or the connection ends
-- with what went out. `endless` stands for fuel that ran out.
pub data Turn : Type 0 where
  ready : ClientArnavi → List ℕ → List Event → Turn
  closed : List Event → Turn
  endless : Turn

module _ (f : Float32) where
  unfoldable pub nav_record : (now : ℕ) → ClientArnavi → PacketS f → NavRecord
  nav_record now c p = record {
    packet_id = c.id % 2 ^ 32;
    imei = c.imei_id;
    navigation_timestamp = p.time_packet;
    latitude = p.tags.latitude;
    longitude = p.tags.longitude;
    flag_pos = 129;
    course = p.tags.course % 2 ^ 8;
    received_timestamp = now % 2 ^ 32;
    flag_liq_num = 255;
    value = p.tags.ll;
  }

  module _ (out : Outside) where
    -- `savePacket`, and the bytes that the packet takes. A panic ends the process, and so the connection.
    unfoldable pub save_packet : ClientArnavi → (size : ℕ) → Result (PacketS f) → Round
    save_packet c size (ok p) =
        if out.publishes then uses c size (published (nav_record out.now c p) ∷ []) else ends
    save_packet c size (err e) = ends
    save_packet c size panic = ends
    save_packet c size stuck = ends

    -- The scan of a parcel's start.
    unfoldable pub start_parcel : ClientArnavi → Result ℕ → Round
    start_parcel c (ok id) = uses (record c { id = id }) size_scan []
    start_parcel c (err e) = ends
    start_parcel c panic = ends
    start_parcel c stuck = ends

    unfoldable pub whole_packet : ClientArnavi → List ℕ → Option ScanPacket → Round
    whole_packet c buf none = waits
    whole_packet c buf (some scp) =
        if ltb (length buf) (scp.length_packet + 8)
        then waits
        else save_packet c (scp.length_packet + 8) (decode_packet f buf)

    -- `finishpacked`, and the next parcel
    unfoldable pub finish_parcel : ClientArnavi → Round
    finish_parcel c =
        if out.writes then uses (record c { id = 0 }) 1 (wrote (answer_packed c.id) ∷ []) else ends

    -- A round of the loop in `processExistingData`.
    unfoldable pub step : ClientArnavi → List ℕ → Round
    step c [] = waits
    step c (b ∷ buf) =
        if c.id == 0
        then (if length (b ∷ buf) == 1 then waits else start_parcel c (scan_packed (b ∷ buf)))
        else (if b == sig_pack_end
            then finish_parcel c
            else whole_packet c (b ∷ buf) (scan_packet (b ∷ buf)))

    unfoldable pub add_events : List Event → Turn → Turn
    add_events before (ready c rest after) = ready c rest (before ++ after)
    add_events before (closed after) = closed (before ++ after)
    add_events before endless = endless

    unfoldable pub after_round :
        (ClientArnavi → List ℕ → Turn) → ClientArnavi → List ℕ → Round → Turn
    after_round more c buf waits = ready c buf []
    after_round more c buf (uses d size events) = add_events events (more d (drop size buf))
    after_round more c buf ends = closed []

    unfoldable pub rounds : (fuel : ℕ) → ClientArnavi → List ℕ → Turn
    rounds zero c buf = endless
    rounds (suc fuel) c buf = after_round (λ d rest. rounds fuel d rest) c buf (step c buf)

    -- `Authorization`: of the longer header neither the identifier is kept nor an answer sent.
    unfoldable pub authorize : ClientArnavi → List ℕ → Result HeadOne → Turn
    authorize c buf (ok head) =
        if head.version == 0x24
        then (if ltb (length buf) (size_auth + 8)
            then ready c buf []
            else ready (record c { authorization = true }) (drop (size_auth + 8) buf) [])
        else (if out.writes
            then ready (record c { authorization = true; imei_id = head.id_imei })
                (drop size_auth buf) (wrote (answer_header out.now) ∷ [])
            else closed [])
    authorize c buf (err e) = closed []
    authorize c buf panic = closed []
    authorize c buf stuck = closed []

    -- `processExistingData`
    unfoldable pub process_existing_data : ClientArnavi → List ℕ → Turn
    process_existing_data c buf =
        if c.authorization
        then rounds (suc (length buf)) c buf
        else (if ltb (length buf) size_auth
            then ready c buf []
            else authorize c buf (run decode buf))
