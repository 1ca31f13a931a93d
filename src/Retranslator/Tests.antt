-- ===== src/Retranslator/Tests.antt =====
-- Runs on one record from the database.
use nav_control.Egts.Tests.Fractions.{fractions, fractions-IsAccurate-90, fractions-IsAccurate-180}
use nav_control.Base.{
  ℕ, ◌%◌, ◌^◌, ◌≡◌, ◌≢◌, refl, List, [], ◌∷◌, ◌++◌, none, some, true, false, ◌==◌, arith, inl, inr,
}
use nav_control.Go.Result.{ok}
use nav_control.Egts.Package
use nav_control.Egts.Package.{Package, services, done, egts_pt_appdata}
use nav_control.Egts.Reply.{confirmations, create_pt_response}
use nav_control.Egts.Lengths.{with_size}
use nav_control.Egts.Session.{Event, Outside, Session, closed, process_connection}
use nav_control.Egts.Session.Records.{packets_of, counted_in}
use nav_control.Retranslator.Relay.Stream.{stream, Relays, process_connection-stream}
use nav_control.Retranslator.Ack.{
  settled, endless, process_existing_data, process_existing_data-finishes,
}
use nav_control.Retranslator.Accepts.{process_existing_data-create_pt_response}
use nav_control.Retranslator.Sender.{
  send_all, after_send, SendPkg, Link, Sender, service_record, packet_of, sent, next_id, received,
  send_rec,
}
use nav_control.Retranslator.Saved.{AllConfirmed, send_rec-confirmed}
use nav_control.Retranslator.Delivered.{decode-encode-packet_of, received-answered}
use nav_control.Retranslator.Packed.{IsValidSend}
use nav_control.Retranslator.Clients.{SendConnect, Client, Database, open_signal, delete_client}
use nav_control.Retranslator.Deleted.{Deletes, delete_client-Deletes}

abbrev bus : SendPkg
bus = record {
  id_gl = 70;
  tid = 12;
  imei = [];
  nav_time = 1700000000;
  lat = 557500000;
  lng = 376200000;
  speed = 60;
  course = 90;
  flag = 1;
  din = 0;
  asfe = 2;
  ansi = 0 ∷ 515 ∷ 0 ∷ 0 ∷ 0 ∷ 0 ∷ 0 ∷ 0 ∷ [];
  fl_ln = 0;
  val_l = [];
}

bus-IsValidSend : IsValidSend bus
bus-IsValidSend = record {
  latitude = omega arith;
  longitude = omega arith;
  speed = omega arith;
  sensors = (
    inr (refl, refl),
    (
      inl (refl, omega arith),
      (
        inr (refl, refl),
        (
          inr (refl, refl),
          (inr (refl, refl), (inr (refl, refl), (inr (refl, refl), (inr (refl, refl), tt)))),
        ),
      ),
    ),
  );
  eight = refl;
}

process_existing_data-finishes_example :
    process_existing_data fractions 2 [] 5 (1 ∷ 2 ∷ 3 ∷ []) ≢ endless
process_existing_data-finishes_example =
    process_existing_data-finishes fractions 2 [] 5 (1 ∷ 2 ∷ 3 ∷ [])

process_existing_data-create_pt_response_example :
    (bytes : List ℕ) × (create_pt_response fractions 7 0 2 (confirmations (7 ∷ [])) ≡ ok bytes)
    × ((later : List ℕ)
        → process_existing_data fractions 2 [] 9 (bytes ++ later)
          ≡ settled (7 == 9) (7 == 9) (bytes ++ later))
process_existing_data-create_pt_response_example =
    process_existing_data-create_pt_response fractions 7 0 2 9 0 [] (7 ∷ []) fractions-IsAccurate-90
      fractions-IsAccurate-180 (omega arith) (omega arith) (omega arith, tt) (omega arith)

-- The answer of a receiver to the first packet.
bus-answered :
    (reply : List ℕ) × (create_pt_response fractions (1 % 2 ^ 16) 0 2 (confirmations (1 ∷ []))
      ≡ ok reply)
    × (received fractions 2 [] (record { writes = true; chunks = reply ∷ [] }) bus 1
        ≡ (sent true, next_id 1))
bus-answered =
    received-answered fractions fractions-IsAccurate-90 fractions-IsAccurate-180 0 1 0 2 [] (1 ∷ [])
      bus bus-IsValidSend (omega arith, tt) (omega arith)

abbrev answering : Link
answering = record { writes = true; chunks = bus-answered.0 ∷ [] }

abbrev idle : Sender
idle = record { is_open = false; id_rec = 1; marked = [] }

bus-saved :
    (send_rec fractions 2 [] true ((bus, answering) ∷ []) idle).marked ≡ (bus.id_gl ∷ []) ∷ []
unfolding send_rec send_all after_send
bus-saved =
    let (reply, made, accepted) = bus-answered in
    rw (send_all, accepted) (unfold send_all after_send in refl)

send_rec-confirmed_example :
    AllConfirmed fractions 2 [] 1 ((bus, answering) ∷ []) ((bus.id_gl ∷ []) ∷ [])
send_rec-confirmed_example =
    send_rec-confirmed fractions 2 [] 1 ((bus, answering) ∷ []) true idle ((bus.id_gl ∷ []) ∷ [])
      refl refl bus-saved

decode-encode-packet_of_example :
    (q : Package) × (bytes : List ℕ) × (Package.encode fractions none (packet_of 65535 bus)
      ≡ ok (q, bytes))
    × ((spare : List ℕ)
        → (read_back : Package) × (Package.decode fractions none 2 bytes spare ≡ done read_back)
          × (read_back.packet_type ≡ egts_pt_appdata)
          × (read_back.packet_identifier ≡ 65535 % 2 ^ 16)
          × (read_back.services_frame_data
              ≡ some (services (with_size fractions (service_record 65535 bus) ∷ []))))
decode-encode-packet_of_example =
    decode-encode-packet_of fractions fractions-IsAccurate-90 fractions-IsAccurate-180 0 65535 bus
      bus-IsValidSend

received-answered_example :
    (reply : List ℕ) × (create_pt_response fractions (65535 % 2 ^ 16) 0 2 (confirmations (1 ∷ []))
      ≡ ok reply)
    × (received fractions 2 [] (record { writes = true; chunks = reply ∷ [] }) bus 65535
        ≡ (sent true, next_id 65535))
received-answered_example =
    received-answered fractions fractions-IsAccurate-90 fractions-IsAccurate-180 0 65535 0 2 []
      (1 ∷ []) bus bus-IsValidSend (omega arith, tt) (omega arith)

abbrev evening : Outside
evening = record { now = 1700000003; publishes = λ n. true }

abbrev listening : Session
listening = record { client = 0; entry = none }

process_connection-stream_example :
    (bytes : List ℕ) × (s' : Session) × (es : List Event) × (stream fractions 65536 (bus ∷ bus ∷ [])
      ≡ ok bytes)
    × (process_connection fractions 2 (λ k. []) (λ k. evening) listening bytes ≡ closed s' es)
    × Relays fractions 0 (λ k. []) (λ k. evening) 0 65536 (bus ∷ bus ∷ []) es
    × (packets_of s'.entry ≡ counted_in none 2)
process_connection-stream_example =
    process_connection-stream fractions 0 (λ k. []) (λ k. evening) fractions-IsAccurate-90
      fractions-IsAccurate-180 (λ k r. refl) 65536 listening (bus ∷ bus ∷ [])
      (bus-IsValidSend, (bus-IsValidSend, tt))

abbrev client_four : SendConnect
client_four = record {
  id_client = 4;
  active = true;
  ip = [];
  port = 6000;
  protocol = [];
  field = [];
  signal = open_signal;
}

abbrev stored_four : Client
stored_four = record {
  id_retranslator = 4;
  id_sm = 0;
  ip_client = [];
  port_client = 6000;
  protocol = [];
  sensors = [];
  active = true;
}

abbrev deleting : Database
deleting = record {
  change_active = λ id active. some stored_four;
  update_cl = λ c. true;
  delete_cl = λ id. some stored_four;
  insert_cl = λ c. some 5;
}

delete_client-Deletes_example :
    Deletes deleting 4 1 (client_four ∷ []) (delete_client deleting 4 1 (client_four ∷ []))
delete_client-Deletes_example = delete_client-Deletes deleting 4 1 (client_four ∷ [])
