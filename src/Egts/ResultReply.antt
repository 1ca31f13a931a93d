-- ===== src/Egts/ResultReply.antt =====
-- hangle.go, createSrResultCode: the answer to a terminal that identifies itself.
pub mod Decoded
use nav_control.Base.{ℕ, ◌+◌, ◌%◌, ◌^◌, List, [], ◌∷◌, none, some}
use nav_control.Go.Result.{Result, ok, and_then}
use nav_control.Go.Text.{zero_text, one_text}
use nav_control.Go.Float.{Float64}
use nav_control.Egts.Data.{result_code, length_of, egts_sr_result_code}
use nav_control.Egts.Records
use nav_control.Egts.Records.{RecordData}
use nav_control.Egts.Service
use nav_control.Egts.Service.{ServiceDataRecord}
use nav_control.Egts.Package
use nav_control.Egts.Package.{Package, services, egts_pt_appdata}

abbrev pub service_auth : ℕ
service_auth = 1

unfoldable pub result_records : (code : ℕ) → List RecordData
result_records code =
    record {
      subrecord_type = egts_sr_result_code;
      subrecord_length = 1;
      subrecord_data = result_code (record { result_code = code });
    }
    ∷ []

module _ (f : Float64) where
  unfoldable pub result_service : (code : ℕ) → ServiceDataRecord
  result_service code = record {
    record_length = length_of (Records.encode f (result_records code));
    record_number = 1;
    source_service_on_device = zero_text;
    recipient_service_on_device = zero_text;
    group = one_text;
    record_processing_priority = b'0' ∷ b'0' ∷ [];
    time_field_exists = zero_text;
    event_id_field_exists = zero_text;
    object_id_field_exists = zero_text;
    object_identifier = 0;
    event_identifier = 0;
    time = none;
    source_service_type = service_auth;
    recipient_service_type = service_auth;
    record_data_set = result_records code;
  }

  unfoldable pub result_package : (pid code : ℕ) → Package
  result_package pid code = record {
    protocol_version = 1;
    security_key_id = 0;
    prefix = b'0' ∷ b'0' ∷ [];
    route = zero_text;
    encryption_alg = b'0' ∷ b'0' ∷ [];
    compression = zero_text;
    priority = b'0' ∷ b'0' ∷ [];
    header_length = 11;
    header_encoding = 0;
    frame_data_length = length_of (Service.encode f (result_service code ∷ []));
    packet_identifier = (pid + 1) % 2 ^ 16;
    packet_type = egts_pt_appdata;
    peer_address = 0;
    recipient_address = 0;
    time_to_live = 0;
    header_check_sum = 0;
    services_frame_data = some (services (result_service code ∷ []));
    services_frame_data_check_sum = 0;
  }

  -- `createSrResultCode`, with no key.
  unfoldable pub create_sr_result_code : (pid code : ℕ) → Result (List ℕ)
  create_sr_result_code pid code =
      and_then (Package.encode f none (result_package pid code)) λ done. ok done.1
