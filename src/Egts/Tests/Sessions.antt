-- ===== src/Egts/Tests/Sessions.antt =====
-- Runs of a session: a record with a reading before its position, then one of a terminal that logs in.
use nav_control.Egts.Tests.Fractions.{fractions, fractions-IsAccurate-90, fractions-IsAccurate-180}
use nav_control.Base.{
  ℕ, ◌≡◌, ◌≢◌, refl, List, [], ◌∷◌, ◌++◌, replicate, none, some, true, false, arith,
}
use nav_control.Go.Result.{ok}
use nav_control.Go.Text.{zero_text, one_text}
use nav_control.Egts.Data.{pos, term, liquid}
use nav_control.Egts.Records.{RecordData}
use nav_control.Egts.Service.{ServiceDataRecord}
use nav_control.Egts.Package
use nav_control.Egts.Package.{Package, services, done, egts_pt_appdata}
use nav_control.Egts.Reply.{confirmations, create_pt_response}
use nav_control.Egts.ResultReply.{result_service, create_sr_result_code}
use nav_control.Egts.ResultReply.Decoded.{decode-create_sr_result_code}
use nav_control.Egts.Export.{add_subrecords, start_record}
use nav_control.Egts.NavRecord.{NavRecords}
use nav_control.Egts.Export.Counts.{
  Counts, Returns, positions, early_readings, is_position, is_reading, add_subrecords-start_record,
}
use nav_control.Egts.Export.Identity.{is_response}
use nav_control.Egts.Session.{
  Session, Outside, wrote, goes_on, handle_data, endless, process_connection,
}
use nav_control.Egts.Session.Framing.{process_connection-ends}
use nav_control.Egts.Session.Records.{
  record_numbers, publications, Exports, last_type, last_code, packets_of, counted_in,
}
use nav_control.Egts.Session.Answered.{written_code, handle_data-answers}

abbrev tank : RecordData
tank = record {
  subrecord_type = 27;
  subrecord_length = 7;
  subrecord_data =
      liquid (record { flag_liq = 2; module_address = 1; liquid_level_sensor_data = 540 });
}

abbrev place : RecordData
place = record {
  subrecord_type = 16;
  subrecord_length = 21;
  subrecord_data = pos (record {
    navigation_time = 1600000000;
    latitude = 557512345;
    longitude = 376180000;
    flag_pos = 1;
    direction_highest_bit = 0;
    altitude_sign = 0;
    speed = 612;
    direction = 20;
    odometer = 70000;
    digital_inputs = 3;
    source = 0;
    altitude = 0;
    source_data = 0;
  });
}

abbrev login : RecordData
login = record {
  subrecord_type = 1;
  subrecord_length = 5;
  subrecord_data = term (record {
    terminal_identifier = 77;
    mne = zero_text;
    bse = zero_text;
    nide = zero_text;
    ssra = zero_text;
    lngce = zero_text;
    imsie = zero_text;
    imeie = zero_text;
    hdide = zero_text;
    home_dispatcher_identifier = 0;
    imei = [];
    imsi = [];
    language_code = [];
    network_identifier = [];
    buffer_size = 0;
    mobile_number = [];
  });
}

service_of : ℕ → List RecordData → ServiceDataRecord
service_of number rs = record {
  record_length = 0;
  record_number = number;
  source_service_on_device = zero_text;
  recipient_service_on_device = zero_text;
  group = zero_text;
  record_processing_priority = b'1' ∷ b'0' ∷ [];
  time_field_exists = zero_text;
  event_id_field_exists = zero_text;
  object_id_field_exists = one_text;
  object_identifier = 133552;
  event_identifier = 0;
  time = none;
  source_service_type = 2;
  recipient_service_type = 2;
  record_data_set = rs;
}

abbrev early_tank : ServiceDataRecord
unfolding service_of
early_tank = service_of 41 (tank ∷ place ∷ place ∷ [])

abbrev logging_in : ServiceDataRecord
unfolding service_of
logging_in = service_of 42 (login ∷ [])

abbrev noon : Outside
noon = record { now = 1600000100; publishes = λ n. true }

abbrev newcomer : Session
newcomer = record {
  client = 0;
  entry =
      some (record {
        last_time = 1600000000;
        tid = 0;
        imei = [];
        count_packets = 4;
        multiple = false;
      });
}

-- Two positions, and a blank record for the reading before them.
add_subrecords-start_record_example :
    Counts 2 3
      (add_subrecords 7 (ok (9 ∷ [])) early_tank.record_data_set (start_record 0 [] early_tank))
unfolding service_of Returns positions early_readings is_position is_reading
add_subrecords-start_record_example = add_subrecords-start_record 7 0 [] (ok (9 ∷ [])) early_tank tt

decode-create_sr_result_code_example :
    (bytes : List ℕ) × (create_sr_result_code fractions 65535 0 ≡ ok bytes)
    × ((spare : List ℕ)
        → (read_back : Package) × (Package.decode fractions none 2 bytes spare ≡ done read_back)
          × (read_back.packet_type ≡ egts_pt_appdata)
          × (read_back.packet_identifier ≡ 0)
          × (read_back.services_frame_data ≡ some (services (result_service fractions 0 ∷ []))))
decode-create_sr_result_code_example =
    decode-create_sr_result_code fractions 65535 0 fractions-IsAccurate-90 fractions-IsAccurate-180
      0

process_connection-ends_example :
    process_connection fractions 2 (λ n. []) (λ n. noon) newcomer (1 ∷ replicate 30 0) ≢ endless
process_connection-ends_example =
    process_connection-ends fractions 2 (λ n. []) (λ n. noon) newcomer (1 ∷ replicate 30 0)

handle_data-answers_example :
    (reply code : List ℕ) × (ns : List NavRecords) × (s' : Session) × (create_pt_response fractions
        8 0
        (last_type 0 (early_tank ∷ logging_in ∷ []))
        (confirmations (record_numbers (early_tank ∷ logging_in ∷ [])))
      ≡ ok reply)
    × (create_sr_result_code fractions 8 0 ≡ ok code)
    × (handle_data noon fractions newcomer 8 (some (services (early_tank ∷ logging_in ∷ [])))
        ≡ goes_on s' (
            publications ns
            ++ (wrote reply ∷ written_code (last_code code [] (early_tank ∷ logging_in ∷ [])))))
    × Exports (early_tank ∷ logging_in ∷ []) ns
    × (packets_of s'.entry ≡ counted_in newcomer.entry 2)
unfolding service_of is_response record_numbers
handle_data-answers_example =
    handle_data-answers fractions fractions-IsAccurate-90 fractions-IsAccurate-180 noon newcomer 8
      (early_tank ∷ logging_in ∷ []) (λ n. refl) (omega arith)
      ((refl, (refl, (refl, tt))), ((refl, tt), tt)) (omega arith, (omega arith, tt)) (omega arith)
