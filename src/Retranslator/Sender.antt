-- ===== src/Retranslator/Sender.antt =====
-- client.go: a record from the database is packed, sent, and marked as sent if it is answered.
use nav_control.Base.{
  ℕ, ◌+◌, ◌%◌, ◌^◌, List, [], ◌∷◌, ◌++◌, replicate, none, some, Bool, true, false, if◌then◌else◌,
  ltb, leb, ◌==◌,
}
use nav_control.Go.Result.{Result, ok, err, panic, stuck}
use nav_control.Go.Text.{Text, zero_text, one_text}
use nav_control.Go.Float.{Float64}
use nav_control.Egts.Data.{pos, ad_sensors, egts_sr_pos_data, egts_sr_ad_sensors_data}
use nav_control.Egts.Records.{RecordData}
use nav_control.Egts.Service.{ServiceDataRecord}
use nav_control.Egts.Package
use nav_control.Egts.Package.{Package, services}
use nav_control.Retranslator.Ack.{Search, settled, broken, endless, process_existing_data}

-- `SendPkg`: integers are those of a machine word, by their bits. `Ansi` has eight elements.
pub record SendPkg : Type 0 where
  pub id_gl : ℕ
  pub tid : ℕ
  pub imei : Text
  pub nav_time : ℕ
  pub lat : ℕ
  pub lng : ℕ
  pub speed : ℕ
  pub course : ℕ
  pub flag : ℕ
  pub din : ℕ
  pub asfe : ℕ
  pub ansi : List ℕ
  pub fl_ln : ℕ
  pub val_l : List ℕ

unfoldable pub position_record : SendPkg → RecordData
position_record p = record {
  subrecord_type = egts_sr_pos_data;
  subrecord_length = 0;
  subrecord_data = pos (record {
    navigation_time = p.nav_time % 2 ^ 32;
    latitude = p.lat % 2 ^ 32;
    longitude = p.lng % 2 ^ 32;
    flag_pos = p.flag % 2 ^ 8;
    direction_highest_bit = 0;
    altitude_sign = 0;
    speed = p.speed % 2 ^ 16;
    direction = p.course % 2 ^ 8;
    odometer = 0;
    digital_inputs = p.din % 2 ^ 8;
    source = 0;
    altitude = 0;
    source_data = 0;
  });
}

unfoldable pub sensors_record : SendPkg → RecordData
sensors_record p = record {
  subrecord_type = egts_sr_ad_sensors_data;
  subrecord_length = 0;
  subrecord_data = ad_sensors (record {
    digital_inputs_octet_exists = 0;
    digital_outputs = 0;
    analog_sensor_field_exists = p.asfe % 2 ^ 8;
    additional_digital_inputs_octet = replicate 8 0;
    analog_sensors = p.ansi;
  });
}

-- `Asfe > 0`, of an int by its bits
unfoldable pub has_sensors : SendPkg → Bool
has_sensors p = if p.asfe == 0 then false else ltb p.asfe (2 ^ 63)

unfoldable pub records_of : SendPkg → List RecordData
records_of p = position_record p ∷ (if has_sensors p then sensors_record p ∷ [] else [])

unfoldable pub service_record : (id_rec : ℕ) → SendPkg → ServiceDataRecord
service_record id_rec p = record {
  record_length = 0;
  record_number = id_rec % 2 ^ 16;
  source_service_on_device = zero_text;
  recipient_service_on_device = zero_text;
  group = zero_text;
  record_processing_priority = b'1' ∷ b'0' ∷ [];
  time_field_exists = zero_text;
  event_id_field_exists = zero_text;
  object_id_field_exists = one_text;
  object_identifier = p.tid % 2 ^ 32;
  event_identifier = 0;
  time = none;
  source_service_type = 2;
  recipient_service_type = 2;
  record_data_set = records_of p;
}

-- The packet that `received` makes.
unfoldable pub packet_of : (id_rec : ℕ) → SendPkg → Package
packet_of id_rec p = record {
  protocol_version = 1;
  security_key_id = 0;
  prefix = b'0' ∷ b'0' ∷ [];
  route = zero_text;
  encryption_alg = b'0' ∷ b'0' ∷ [];
  compression = zero_text;
  priority = b'1' ∷ b'0' ∷ [];
  header_length = 11;
  header_encoding = 0;
  frame_data_length = 0;
  packet_identifier = id_rec % 2 ^ 16;
  packet_type = 1;
  peer_address = 0;
  recipient_address = 0;
  time_to_live = 0;
  header_check_sum = 0;
  services_frame_data = some (services (service_record id_rec p ∷ []));
  services_frame_data_check_sum = 0;
}

-- The end of `received`: the counter goes up to 65536, and from there to 0.
unfoldable pub next_id : ℕ → ℕ
next_id id_rec = if leb id_rec 65535 then id_rec + 1 else 0

-- What the connection does with one packet: whether the deadline can be set and the bytes are
-- written, and what its reads give until it breaks off.
pub record Link : Type 0 where
  pub writes : Bool
  pub chunks : List (List ℕ)

-- How `received` ends: an answer or none, an error, or not at all.
pub data Sent : Type 0 where
  sent : (ifequal : Bool) → Sent
  send_failed : Sent
  send_crashed : Sent

unfoldable pub heard : (more : List ℕ → Sent) → Search → Sent
heard more (settled true ifequal rest) = sent ifequal
heard more (settled false ifequal rest) = more rest
heard more broken = send_crashed
heard more endless = send_crashed

module _ (f : Float64) (depth : ℕ) (spare : List ℕ) where
  -- The loop over the reads; a broken connection is no error.
  unfoldable pub await : (pack_id : ℕ) → (buffer : List ℕ) → List (List ℕ) → Sent
  await pack_id buffer [] = sent false
  await pack_id buffer ([] ∷ chunks) = sent false
  await pack_id buffer ((b ∷ bs) ∷ chunks) =
      heard (λ rest. await pack_id rest chunks)
        (process_existing_data f depth spare pack_id (buffer ++ (b ∷ bs)))

  -- The end of `received`, from the encoded packet on, with the counter that it leaves.
  unfoldable pub send_packet : Link → (id_rec : ℕ) → Result (Package × List ℕ) → Sent × ℕ
  send_packet link id_rec (ok done) =
      if link.writes
      then (await (id_rec % 2 ^ 16) [] link.chunks, next_id id_rec)
      else (send_failed, id_rec)
  send_packet link id_rec (err e) = (send_failed, id_rec)
  send_packet link id_rec panic = (send_crashed, id_rec)
  send_packet link id_rec stuck = (send_crashed, id_rec)

  -- `received`
  unfoldable pub received : Link → SendPkg → (id_rec : ℕ) → Sent × ℕ
  received link p id_rec = send_packet link id_rec (Package.encode f none (packet_of id_rec p))

-- A connection to another system. `marked` holds the arguments of the calls of `save`, in order.
pub record Sender : Type 0 where
  pub is_open : Bool
  pub id_rec : ℕ
  pub marked : List (List ℕ)

module _ (f : Float64) (depth : ℕ) (spare : List ℕ) where
  -- A round of the loop of `sendRec`, with what follows it, after the packet was sent. A panic ends
  -- the process.
  unfoldable pub after_send :
      (more : List ℕ → Sender → Sender) → (send : List ℕ) → SendPkg → Sent × ℕ → Sender → Sender
  after_send more send p (sent true, id_rec) s =
      let confirmed = send ++ (p.id_gl ∷ []) in
      more confirmed (record s { id_rec = id_rec; marked = s.marked ++ (confirmed ∷ []) })
  after_send more [] p (sent false, id_rec) s = record s { id_rec = id_rec }
  after_send more (i ∷ send) p (sent false, id_rec) s =
      more (i ∷ send) (record s { id_rec = id_rec; marked = s.marked ++ ((i ∷ send) ∷ []) })
  after_send more send p (send_failed, id_rec) s = record s { is_open = false; id_rec = id_rec }
  after_send more send p (send_crashed, id_rec) s = s

  -- The loop over the records, each with what the connection does with it. `send` is declared once.
  unfoldable pub send_all : (send : List ℕ) → List (SendPkg × Link) → Sender → Sender
  send_all send [] s = s
  send_all send ((p, link) ∷ packages) s =
      after_send (λ confirmed t. send_all confirmed packages t) send p
        (received f depth spare link p s.id_rec) s

  -- `sendRec`
  unfoldable pub send_rec : (dials : Bool) → List (SendPkg × Link) → Sender → Sender
  send_rec dials packages s =
      if s.is_open
      then send_all [] packages s
      else (if dials then send_all [] packages (record s { is_open = true }) else s)
