-- ===== src/Egts/Service.antt =====
-- service_data_rec.go: service data records and the list of them.
pub mod OneRecord
pub mod RoundTrip
use nav_control.Base.{
  ℕ, zero, suc, ◌+◌, ◌-◌, ◌*◌, ◌%◌, ◌^◌, List, [], ◌∷◌, ◌++◌, length, if◌then◌else◌, Bool,
  replicate, ◌==◌, Option, none, some,
}
use nav_control.Go.Result.{Result, ok, stuck, and_then}
use nav_control.Go.Reader.{Reader, ◌>>=◌, continue, pure, read_byte, read, value_of}
use nav_control.Go.Words.{le_uint, put_le}
use nav_control.Go.Text.{Text, is_one, slice, format8, parse_flags}
use nav_control.Egts.Fields.{written, opt, read_opt}
use nav_control.Go.Float.{Float64}
use nav_control.Egts.Records
use nav_control.Egts.Records.{RecordData}

-- `time` is in seconds since 1970, for times from 1970 on; `none` is the zero `time.Time`.
pub record ServiceDataRecord : Type 0 where
  pub record_length : ℕ
  pub record_number : ℕ
  pub source_service_on_device : Text
  pub recipient_service_on_device : Text
  pub group : Text
  pub record_processing_priority : Text
  pub time_field_exists : Text
  pub event_id_field_exists : Text
  pub object_id_field_exists : Text
  pub object_identifier : ℕ
  pub event_identifier : ℕ
  pub time : Option ℕ
  pub source_service_type : ℕ
  pub recipient_service_type : ℕ
  pub record_data_set : List RecordData

abbrev pub time_offset : ℕ
time_offset = 1262304000

-- `uint32(zero.Unix() - timeOffset.Unix())`, for the zero time in the year 1.
abbrev pub zero_time : ℕ
zero_time = 2 ^ 32 * 15 - 63397900800

-- `uint32(sdr.Time.Unix() - timeOffset.Unix())`
unfoldable pub time_word : Option ℕ → ℕ
time_word none = zero_time
time_word (some t) = (t + 2 ^ 32 - time_offset) % 2 ^ 32

-- `sdr.Time = timeOffset.Add(time.Duration(secs) * time.Second)`, if the flag is set.
pub time_of : Bool → ℕ → Option ℕ
time_of there secs = if there then some (secs + time_offset) else none

module _ (f : Float64) where
  -- `if buf.Len() != 0 { … }`: the slice has `RecordLength` bytes, also where fewer are left.
  read_set : (List ℕ → Result (Unit {0})) → ℕ → Reader (List RecordData)
  read_set service size [] = ok ([], [])
  read_set service size (b ∷ s) =
      continue (read (replicate size 0) (b ∷ s))
        λ bytes s'. and_then (Records.decode f service bytes) λ rs. ok (rs, s')

  -- One round of the loop in `ServiceDataSet.Decode`.
  pub decode_record : (List ℕ → Result (Unit {0})) → Reader ServiceDataRecord
  decode_record service = do
    size_bytes ← read (replicate 2 0)
    number_bytes ← read size_bytes
    flags ← read_byte
    let bits = format8 flags
    let tmfe = slice 5 6 bits
    let evfe = slice 6 7 bits
    let obfe = slice 7 8 bits
    (tmp₁, object) ← read_opt (is_one obfe) (replicate 4 0)
    (tmp₂, event) ← read_opt (is_one evfe) (replicate 4 0)
    (tmp₃, secs) ← read_opt (is_one tmfe) (replicate 4 0)
    source ← read_byte
    recipient ← read_byte
    records ← read_set service (le_uint size_bytes)
    pure (record {
      record_length = le_uint size_bytes;
      record_number = le_uint number_bytes;
      source_service_on_device = slice 0 1 bits;
      recipient_service_on_device = slice 1 2 bits;
      group = slice 2 3 bits;
      record_processing_priority = slice 3 5 bits;
      time_field_exists = tmfe;
      event_id_field_exists = evfe;
      object_id_field_exists = obfe;
      object_identifier = object;
      event_identifier = event;
      time = time_of (is_one tmfe) secs;
      source_service_type = source;
      recipient_service_type = recipient;
      record_data_set = records;
    })

  -- `for buf.Len() > 0`
  pub decode_records : (List ℕ → Result (Unit {0})) → ℕ → List ℕ → Result (List ServiceDataRecord)
  decode_records service fuel [] = ok []
  decode_records service zero (b ∷ s) = stuck
  decode_records service (suc fuel) (b ∷ s) =
      let rest = decode_records service fuel in
      value_of
        (continue (decode_record service (b ∷ s)) λ r s'. and_then (rest s') λ rs. ok (r ∷ rs, []))

  -- `ServiceDataSet.Decode`. A response subrecord decodes a service data set of its own; `depth` bounds
  -- how deep these lie in one another.
  unfoldable pub decode : ℕ → List ℕ → Result (List ServiceDataRecord)
  decode zero s = stuck
  decode (suc depth) s =
      let inner = decode depth in
      decode_records (λ content. and_then (inner content) (λ records. ok tt)) (length s) s

  -- `if sdr.RecordLength == 0 { sdr.RecordLength = uint16(len(rd)) }`
  unfoldable pub record_size : ℕ → List ℕ → ℕ
  record_size size content = if size == 0 then length content % 2 ^ 16 else size

  unfoldable pub flag_bits : ServiceDataRecord → Text
  flag_bits r =
      r.source_service_on_device
      ++ (r.recipient_service_on_device
          ++ (r.group
              ++ (r.record_processing_priority
                  ++ (r.time_field_exists
                      ++ (r.event_id_field_exists ++ r.object_id_field_exists)))))

  unfoldable pub encode_record : ServiceDataRecord → Result (List ℕ)
  encode_record r = and_then (Records.encode f r.record_data_set) λ content.
      and_then (parse_flags (flag_bits r)) λ flags. ok (
        written (
          put_le 2 (record_size r.record_length content)
          ∷ put_le 2 r.record_number
          ∷ (flags ∷ [])
          ∷ opt (is_one r.object_id_field_exists) (put_le 4 r.object_identifier)
          ∷ opt (is_one r.event_id_field_exists) (put_le 4 r.event_identifier)
          ∷ opt (is_one r.time_field_exists) (put_le 4 (time_word r.time))
          ∷ (r.source_service_type ∷ [])
          ∷ (r.recipient_service_type ∷ [])
          ∷ content
          ∷ []))

  -- `ServiceDataSet.Encode`
  unfoldable pub encode : List ServiceDataRecord → Result (List ℕ)
  encode [] = ok []
  encode (r ∷ rs) =
      and_then (encode_record r) λ bytes. and_then (encode rs) λ more. ok (bytes ++ more)
