-- ===== src/Retranslator/Relay.antt =====
-- client.go and hangle.go together: what one program sends, another one of its kind receives and answers.
pub mod Stream
use nav_control.Base.{
  ℕ, suc, ◌+◌, ◌*◌, ◌%◌, ◌^◌, ◌≤◌, ◌<◌, ◌≡◌, refl, sym, ap, subst, ◌∙◌, List, [], ◌∷◌, ◌++◌, length,
  replicate, none, some, true, Bool, if◌then◌else◌, ◌==◌, arith, All, length-append, Bool-cases,
  inl, inr, append-nil, append_assoc,
}
use nav_control.Go.Result.{Result, ok}
use nav_control.Go.Words.{put_le}
use nav_control.Go.Float.{Float64, IsAccurate}
use nav_control.Egts.Service.{ServiceDataRecord}
use nav_control.Egts.Package
use nav_control.Egts.Package.{Package, services, done, egts_pt_appdata, header_of, header_size}
use nav_control.Egts.Package.Whole.{encode-body}
use nav_control.Egts.Reply.{confirmations, create_pt_response}
use nav_control.Egts.ResultReply.{create_sr_result_code}
use nav_control.Egts.Crc.{crc8, crc16}
use nav_control.Egts.Lengths.{with_size, with_length, with_lengths}
use nav_control.Egts.Export.{
  blank, Building, Round, built, add_subrecords, add_subrecord, start_record, exported, and_next,
  add_position, counted, with_records, change_at, position_of, change_last, make_room, last_index,
  sensors_of,
}
use nav_control.Egts.NavRecord.{NavRecord, NavRecords}
use nav_control.Go.Text.{parse_flags}
use nav_control.Egts.Session.{
  read_packet, whole, Outside, Session, Activity, Event, published, wrote, handle_package,
  handle_data, handle_records, handle_record, after_subrecords, publish, and_handle, after_records,
  reply_to, answers, note, note_record, note_time, goes_on, Turn,
}
use nav_control.Egts.Session.Records.{
  counted_in, note-packets_of, is_there, packets_of, record_numbers,
}
use nav_control.Egts.Session.Framing.{read_packet-header_of}
use nav_control.Retranslator.Sender.{
  SendPkg, position_record, sensors_record, has_sensors, records_of, service_record, packet_of,
}
use nav_control.Retranslator.Packed.{IsValidSend, body_of}

-- The record that arrives for a record that is sent: what EGTS carries of it.
unfoldable pub place : (now : ℕ) → SendPkg → NavRecord
place now p = record blank {
  client = p.tid % 2 ^ 32;
  packet_id = 1;
  navigation_timestamp = p.nav_time % 2 ^ 32;
  received_timestamp = now % 2 ^ 32;
  latitude = p.lat % 2 ^ 32;
  longitude = p.lng % 2 ^ 32;
  speed = p.speed % 2 ^ 16;
  flag_pos = p.flag % 2 ^ 8;
  dig_input = p.din % 2 ^ 8;
  course = p.course % 2 ^ 8;
}

unfoldable pub nav_of : (now : ℕ) → SendPkg → NavRecord
nav_of now p =
    if has_sensors p
    then record (place now p) {
      an_sensors = record { asfe = p.asfe % 2 ^ 8; ansi = p.ansi } ∷ [];
      dig_senonrs = record { dioe = 0; adio = replicate 8 0 } ∷ [];
      dig_sen_outs = 0 ∷ [];
    }
    else place now p

unfoldable pub relayed : (now id_rec : ℕ) → SendPkg → NavRecords
relayed now id_rec p = record {
  packet_type = 1;
  packet_id = id_rec % 2 ^ 16 % 2 ^ 32;
  rec_nav = nav_of now p ∷ [];
}

module _ (f : Float64) (id_rec : ℕ) (p : SendPkg) where
  -- The loop over the subrecords of a packet that was sent.
  add_subrecords-packet :
      (now client : ℕ) (reply : Result (List ℕ))
      → add_subrecords
          (now % 2 ^ 32)
          reply
          (with_size f (service_record id_rec p)).record_data_set
          (start_record client [] (with_size f (service_record id_rec p)))
        ≡ built (record {
          rec_nav = nav_of now p ∷ [];
          i = 1;
          imei = [];
          imsi = [];
          client = p.tid % 2 ^ 32;
          packet_id_bytes = replicate 4 0;
          sr_result_code = [];
        })
  unfolding add_subrecords with_size service_record records_of with_lengths with_length nav_of
  add_subrecords-packet now client reply = elim (Bool-cases (has_sensors p)) [
    | inl there ↦
        rw (records_of, nav_of, there)
          unfold and_next add_subrecord start_record position_record sensors_record add_position
              counted with_records change_at position_of change_last make_room last_index sensors_of
              place in
            refl
    | inr absent ↦
        rw (records_of, nav_of, absent)
          unfold and_next add_subrecord start_record position_record sensors_record add_position
              counted with_records change_at position_of change_last make_room last_index sensors_of
              place in
            refl
  ]

  -- Its bytes are taken as one packet.
  pub read_packet-packet_of :
      IsValidSend p
      → (bytes rest : List ℕ) (q : Package)
      → Package.encode f none (packet_of id_rec p) ≡ ok (q, bytes)
      → read_packet (bytes ++ rest) ≡ whole bytes rest
  unfolding packet_of header_size parse_flags Package.flag_bits
  read_packet-packet_of v bytes rest q encoded =
      let (body, plain, sealed, some_bytes, most) = body_of f id_rec p v in
      let sent =
        encode-body f none 2 (packet_of id_rec p) 2 body refl plain some_bytes
          (omega (arith, most)) in
      let header = header_of (packet_of id_rec p) 2 (length body) in
      let same : bytes ≡ header ++ (crc8 header ∷ (body ++ put_le 2 (crc16 body))) =
        cc (encoded, sent) in
      subst (λ b. read_packet (b ++ rest) ≡ whole b rest) (sym same)
        (read_packet-header_of (packet_of id_rec p) 2 (crc8 header) body rest refl (inr refl)
          some_bytes (omega (arith, most)))

  -- The session after a packet that was sent.
  unfoldable pub after_relay : Outside → Session → Session
  after_relay out s = note_time out (record {
    client = p.tid % 2 ^ 32;
    entry = note (note_record out.now (relayed out.now id_rec p)) s.entry;
  })

  pub handle_data-packet :
      (out : Outside) (s : Session) (reply : List ℕ)
      → ((n : NavRecords) → out.publishes n ≡ true)
      → create_pt_response f (id_rec % 2 ^ 16) 0 2 (confirmations (id_rec % 2 ^ 16 ∷ [])) ≡ ok reply
      → handle_data out f s
          (id_rec % 2 ^ 16)
          (some (services (with_size f (service_record id_rec p) ∷ [])))
        ≡ goes_on (after_relay out s) (published (relayed out.now id_rec p) ∷ wrote reply ∷ [])
  unfolding handle_data handle_records handle_record and_handle after_records relayed after_relay
      after_subrecords publish reply_to answers service_record with_size exported
  handle_data-packet out s reply takes made =
      rw
        (
          add_subrecords-packet out.now s.client (create_sr_result_code f (id_rec % 2 ^ 16) 0),
          takes _,
          made,
        )
        refl

  pub handle_package-packet :
      (out : Outside) (s : Session) (reply : List ℕ) (q : Package)
      → ((n : NavRecords) → out.publishes n ≡ true)
      → create_pt_response f (id_rec % 2 ^ 16) 0 2 (confirmations (id_rec % 2 ^ 16 ∷ [])) ≡ ok reply
      → q.packet_type ≡ egts_pt_appdata
      → q.packet_identifier ≡ id_rec % 2 ^ 16
      → q.services_frame_data ≡ some (services (with_size f (service_record id_rec p) ∷ []))
      → handle_package out f s (done q)
        ≡ goes_on (after_relay out s) (published (relayed out.now id_rec p) ∷ wrote reply ∷ [])
  unfolding handle_package
  handle_package-packet out s reply q takes made kind id payload =
      rw (kind, id, payload) (handle_data-packet out s reply takes made)
