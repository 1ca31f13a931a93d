-- ===== src/Egts/Tests/Sets.antt =====
-- Runs of the codecs of positions, lists of records, and packets.
use nav_control.Egts.Tests.Fractions.{fractions, fractions-IsAccurate-90, fractions-IsAccurate-180}
use nav_control.Base.{
  none, ℕ, ◌-◌, ◌≡◌, refl, sym, ap, List, [], ◌∷◌, length, All, inl, inr, some, arith,
}
use nav_control.Egts.PosData
use nav_control.Egts.Response
use nav_control.Egts.AbsDigSensData
use nav_control.Egts.Data.{abs_dig, pos, response, encode_data, implied_type}
use nav_control.Egts.Records
use nav_control.Egts.Records.{RecordData}
use nav_control.Egts.Fields.{opt}
use nav_control.Egts.Service
use nav_control.Egts.Service.{ServiceDataRecord}
use nav_control.Egts.Package.{
  Package, services, encode_body, with_key, is_plain, encode_frame, header_size,
}
use nav_control.Egts.Package.RoundTrip.{IsRoute, kind_of_frame}
use nav_control.Egts.Package.Frame.{IsValidFrame, IsOpened}
use nav_control.Egts.Package.Whole.{IsKept}
use nav_control.Egts.Package.Kept.{IsValidPackage, decode-encode_package}
use nav_control.Go.Result.{Result, ok, err, panic, stuck}
use nav_control.Go.Reader.{run}
use nav_control.Go.Text.{zero_text, one_text, parse_flags}

abbrev pos_sample : PosData.SrPosData
pos_sample = record {
  navigation_time = 1600000000;
  latitude = 557512345;
  longitude = 376180000;
  flag_pos = 129;
  direction_highest_bit = 1;
  altitude_sign = 0;
  speed = 612;
  direction = 200;
  odometer = 70000;
  digital_inputs = 3;
  source = 0;
  altitude = 150;
  source_data = 0;
}

pos_sample-IsValid : PosData.IsValid pos_sample
unfolding PosData.has_altitude
pos_sample-IsValid = record {
  time = omega arith;
  latitude = omega arith;
  longitude = omega arith;
  highest = omega arith;
  sign = omega arith;
  speed = omega arith;
  direction = omega arith;
  top = λ h. omega arith;
  odometer = omega arith;
  altitude = inl (refl, omega arith);
  no_source_data = refl;
}

decode-encode_pos_example :
    run (PosData.decode fractions) (PosData.encode fractions pos_sample) ≡ ok pos_sample
decode-encode_pos_example =
    PosData.RoundTrip.decode-encode_pos fractions fractions-IsAccurate-90 fractions-IsAccurate-180
      pos_sample pos_sample-IsValid

abbrev length_ok : Result (List ℕ) → ℕ
length_ok (ok bytes) = length bytes
length_ok (err e) = 0
length_ok panic = 0
length_ok stuck = 0

abbrev response_sample : Response.SrResponse
response_sample = record { confirmed_record_number = 300; record_status = 0 }

abbrev records_sample : List RecordData
records_sample =
    record { subrecord_type = 0; subrecord_length = 3; subrecord_data = response response_sample }
    ∷ record { subrecord_type = 16; subrecord_length = 24; subrecord_data = pos pos_sample }
    ∷ []

records_sample-IsValid : All (Records.RoundTrip.IsValidRecord fractions) records_sample
unfolding encode_data Response.encode PosData.encode PosData.has_altitude opt
records_sample-IsValid = (
  record {
    data_valid = omega arith;
    own_type = refl;
    own_length = λ bytes e. (sym (ap length_ok e), omega arith);
  },
  (
    record {
      data_valid = pos_sample-IsValid;
      own_type = refl;
      own_length = λ bytes e. (sym (ap length_ok e), omega arith);
    },
    tt,
  ),
)

-- A discrete sensor whose number the encoder drops.
abbrev moved_sample : List RecordData
moved_sample =
    record { subrecord_type = 0; subrecord_length = 3; subrecord_data = response response_sample }
    ∷ record {
      subrecord_type = 23;
      subrecord_length = 2;
      subrecord_data = abs_dig (record { state_number = 1; number = 4 });
    }
    ∷ []

abbrev services_sample : List ServiceDataRecord
services_sample =
    record {
      record_length = 33;
      record_number = 95;
      source_service_on_device = one_text;
      recipient_service_on_device = zero_text;
      group = zero_text;
      record_processing_priority = b'1' ∷ b'1' ∷ [];
      time_field_exists = one_text;
      event_id_field_exists = zero_text;
      object_id_field_exists = one_text;
      object_identifier = 133552;
      event_identifier = 0;
      time = some 1600000000;
      source_service_type = 2;
      recipient_service_type = 2;
      record_data_set = records_sample;
    }
    ∷ []

services_sample-IsValid : All (Service.OneRecord.IsValidService fractions) services_sample
unfolding Records.encode Records.encode_record Records.record_type Records.record_length
    implied_type encode_data Response.encode PosData.encode PosData.has_altitude opt
services_sample-IsValid = (
  record {
    source = inr refl;
    recipient = inl refl;
    group = inl refl;
    priority = (1, 1, omega arith, omega arith, refl);
    object = record { is_flag = inr refl; is_opt = inl (refl, omega arith) };
    event = record { is_flag = inl refl; is_opt = inr (refl, refl) };
    time_flag = inr refl;
    time = inl (refl, (1600000000 - 1262304000, refl, omega arith));
    number = omega arith;
    records = records_sample-IsValid;
    own_length = λ bytes e. (sym (ap length_ok e), omega arith);
  },
  tt,
)

decode-encode_services_example :
    (bytes : List ℕ) × (Service.encode fractions services_sample ≡ ok bytes)
    × (Service.decode fractions 2 bytes ≡ ok services_sample)
decode-encode_services_example =
    Service.RoundTrip.decode-encode_services fractions services_sample 0 fractions-IsAccurate-90
      fractions-IsAccurate-180 services_sample-IsValid

abbrev package_sample : Package
package_sample = record {
  protocol_version = 1;
  security_key_id = 0;
  prefix = b'0' ∷ b'0' ∷ [];
  route = zero_text;
  encryption_alg = b'0' ∷ b'0' ∷ [];
  compression = zero_text;
  priority = b'1' ∷ b'1' ∷ [];
  header_length = 0;
  header_encoding = 0;
  frame_data_length = 0;
  packet_identifier = 135;
  packet_type = 1;
  peer_address = 0;
  recipient_address = 0;
  time_to_live = 0;
  header_check_sum = 0;
  services_frame_data = some (services services_sample);
  services_frame_data_check_sum = 0;
}

package_sample-IsValid : IsValidPackage fractions none package_sample (services services_sample)
unfolding encode_body with_key is_plain encode_frame Service.encode Service.encode_record
    Service.flag_bits Service.record_size Service.time_word parse_flags Records.encode
    Records.encode_record Records.record_type Records.record_length implied_type encode_data
    Response.encode PosData.encode PosData.has_altitude opt header_size
package_sample-IsValid = record {
  prefix = (0, 0, omega arith, omega arith, refl);
  route = inl refl;
  algorithm = (0, 0, omega arith, omega arith, refl);
  compression = inl refl;
  priority = (1, 1, omega arith, omega arith, refl);
  size = inl refl;
  way = unfold IsRoute in inr (refl, refl, refl, refl);
  identifier = omega arith;
  has_data = refl;
  kind = unfold kind_of_frame in refl;
  frame = unfold IsValidFrame in services_sample-IsValid;
  opened = unfold IsOpened in inl refl;
  fits = λ body e.
      let size : 48 ≡ length body = ap length_ok e in (omega (arith, size), omega (arith, size));
}

decode-encode_package_example :
    (body : List ℕ) × (encode_body fractions none
        (b'0' ∷ b'0' ∷ [])
        (some (services services_sample))
      ≡ ok body)
    × IsKept fractions none 2 package_sample (services services_sample) body
decode-encode_package_example =
    decode-encode_package fractions fractions-IsAccurate-90 fractions-IsAccurate-180 none 0
      package_sample (services services_sample) package_sample-IsValid
