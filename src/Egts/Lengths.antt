-- ===== src/Egts/Lengths.antt =====
-- service_data_set.go and service_data_rec.go: the lengths that Encode fills in where they are 0.
use nav_control.Base.{
  ℕ, ◌%◌, ◌^◌, ◌≡◌, refl, ap, List, [], ◌∷◌, ◌++◌, length, if◌then◌else◌, ◌==◌, arith,
}
use nav_control.Go.Result.{Result, ok, err, panic, stuck, and_then}
use nav_control.Go.Float.{Float64}
use nav_control.Egts.Data.{encode_data, length_of}
use nav_control.Go.Words.{put_le}
use nav_control.Go.Text.{parse_flags, is_one}
use nav_control.Egts.Fields.{opt, written}
use nav_control.Egts.Records
use nav_control.Egts.Records.{RecordData}
use nav_control.Egts.Service
use nav_control.Egts.Service.{ServiceDataRecord, time_word}

filled_twice :
    (n l : ℕ)
    → (if (if n == 0 then l else n) == 0 then l else (if n == 0 then l else n))
      ≡ (if n == 0 then l else n)
filled_twice n l = ground arith

size_of_content :
    (m : Result (List ℕ)) (n : ℕ) (k : List ℕ → ℕ → Result (List ℕ))
    → and_then m (λ c. k c (
        if (if n == 0 then length_of m else n) == 0
        then length c % 2 ^ 16
        else (if n == 0 then length_of m else n)))
      ≡ and_then m (λ c. k c (if n == 0 then length c % 2 ^ 16 else n))
size_of_content (ok c) n k = ap (k c) (filled_twice n (length c % 2 ^ 16))
size_of_content (err e) n k = refl
size_of_content panic n k = refl
size_of_content stuck n k = refl

module _ (f : Float64) where
  unfoldable pub with_length : RecordData → RecordData
  with_length r = record r { subrecord_length = Records.record_length f r }

  unfoldable pub with_lengths : List RecordData → List RecordData
  with_lengths [] = []
  with_lengths (r ∷ rs) = with_length r ∷ with_lengths rs

  unfoldable pub with_size : ServiceDataRecord → ServiceDataRecord
  with_size s = record s {
    record_length =
        if s.record_length == 0
        then length_of (Records.encode f s.record_data_set)
        else s.record_length;
    record_data_set = with_lengths s.record_data_set;
  }

  encode_record-with_length :
      (r : RecordData) → Records.encode_record f (with_length r) ≡ Records.encode_record f r
  unfolding with_length Records.encode_record Records.record_length Records.record_type
  encode_record-with_length r =
      ap
        (λ n. and_then (Records.record_type f r) λ kind.
          and_then (encode_data f r.subrecord_data) λ content. ok (kind ∷ (put_le 2 n ++ content)))
        (filled_twice r.subrecord_length (length_of (encode_data f r.subrecord_data)))

  pub encode-with_lengths :
      (rs : List RecordData) → Records.encode f (with_lengths rs) ≡ Records.encode f rs
  unfolding with_lengths Records.encode
  encode-with_lengths [] = refl
  encode-with_lengths (r ∷ rs) = rw (encode_record-with_length r, encode-with_lengths rs) refl

  pub encode_record-with_size :
      (s : ServiceDataRecord) → Service.encode_record f (with_size s) ≡ Service.encode_record f s
  unfolding with_size Service.encode_record Service.record_size Service.flag_bits
  encode_record-with_size s = rw (encode-with_lengths s.record_data_set) (
      size_of_content (Records.encode f s.record_data_set) s.record_length (λ content size.
        and_then (parse_flags (Service.flag_bits f s)) λ flags. ok (
          written (
            put_le 2 size
            ∷ put_le 2 s.record_number
            ∷ (flags ∷ [])
            ∷ opt (is_one s.object_id_field_exists) (put_le 4 s.object_identifier)
            ∷ opt (is_one s.event_id_field_exists) (put_le 4 s.event_identifier)
            ∷ opt (is_one s.time_field_exists) (put_le 4 (time_word s.time))
            ∷ (s.source_service_type ∷ [])
            ∷ (s.recipient_service_type ∷ [])
            ∷ content
            ∷ []))))
