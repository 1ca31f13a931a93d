-- ===== src/Egts/Reply.antt =====
-- hangle.go, createPtResponse: the answer to a packet, with a confirmation for each of its records.
pub mod Confirmed
use nav_control.Base.{ℕ, ◌+◌, ◌%◌, ◌^◌, List, [], ◌∷◌, ◌++◌, Option, none, some}
use nav_control.Go.Result.{Result, ok, and_then}
use nav_control.Go.Text.{zero_text, one_text}
use nav_control.Go.Float.{Float64}
use nav_control.Egts.Data.{response, length_of, egts_sr_record_response}
use nav_control.Egts.Records
use nav_control.Egts.Records.{RecordData}
use nav_control.Egts.Service.{ServiceDataRecord}
use nav_control.Egts.PtResponse
use nav_control.Egts.PtResponse.{PtResponse}
use nav_control.Egts.Package
use nav_control.Egts.Package.{Package, SecretKey, answer, egts_pt_response}

-- What the loop over the records of a packet appends to `srResponsesRecord`, by their numbers.
unfoldable pub confirmations : List ℕ → List RecordData
confirmations [] = []
confirmations (n ∷ ns) =
    record {
      subrecord_type = egts_sr_record_response;
      subrecord_length = 3;
      subrecord_data = response (record { confirmed_record_number = n; record_status = 0 });
    }
    ∷ confirmations ns

module _ (f : Float64) where
  -- The one record of the answer.
  unfoldable pub confirming_record : (service_type : ℕ) → List RecordData → ServiceDataRecord
  confirming_record service_type rs = record {
    record_length = length_of (Records.encode f rs);
    record_number = 1;
    source_service_on_device = zero_text;
    recipient_service_on_device = zero_text;
    group = one_text;
    record_processing_priority = b'0' ∷ b'0' ∷ [];
    time_field_exists = zero_text;
    event_id_field_exists = zero_text;
    object_id_field_exists = zero_text;
    object_identifier = 0;
    event_identifier = 0;
    time = none;
    source_service_type = service_type;
    recipient_service_type = service_type;
    record_data_set = rs;
  }

  -- `if srResponses != nil { … }`
  unfoldable pub confirming_set :
      (service_type : ℕ) → List RecordData → Option (List ServiceDataRecord)
  confirming_set service_type [] = none
  confirming_set service_type (r ∷ rs) = some (confirming_record service_type (r ∷ rs) ∷ [])

  unfoldable pub response_section :
      (pid result_code service_type : ℕ) → List RecordData → PtResponse
  response_section pid result_code service_type rs = record {
    response_packet_id = pid;
    processing_result = result_code;
    sdr = confirming_set service_type rs;
  }

  unfoldable pub response_package : (pid result_code service_type : ℕ) → List RecordData → Package
  response_package pid result_code service_type rs = record {
    protocol_version = 1;
    security_key_id = 0;
    prefix = b'0' ∷ b'0' ∷ [];
    route = zero_text;
    encryption_alg = b'0' ∷ b'0' ∷ [];
    compression = zero_text;
    priority = b'0' ∷ b'0' ∷ [];
    header_length = 11;
    header_encoding = 0;
    frame_data_length =
        length_of (PtResponse.encode f (response_section pid result_code service_type rs));
    packet_identifier = (pid + 1) % 2 ^ 16;
    packet_type = egts_pt_response;
    peer_address = 0;
    recipient_address = 0;
    time_to_live = 0;
    header_check_sum = 0;
    services_frame_data = some (answer (response_section pid result_code service_type rs));
    services_frame_data_check_sum = 0;
  }

  -- `createPtResponse`, with no key.
  unfoldable pub create_pt_response :
      (pid result_code service_type : ℕ) → List RecordData → Result (List ℕ)
  create_pt_response pid result_code service_type rs =
      and_then (Package.encode f none (response_package pid result_code service_type rs))
        λ done. ok done.1
