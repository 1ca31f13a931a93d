-- ===== src/Egts/Records.antt =====
-- service_data_set.go: subrecords and the list of them.
pub mod RoundTrip
use nav_control.Base.{ℕ, zero, suc, List, [], ◌∷◌, ◌++◌, length, if◌then◌else◌, replicate, ◌==◌}
use nav_control.Go.Result.{Result, ok, stuck, and_then}
use nav_control.Go.Reader.{Reader, ◌>>=◌, continue, read_byte, read, value_of, next}
use nav_control.Go.Words.{le_uint, put_le}
use nav_control.Go.Float.{Float64}
use nav_control.Egts.Data.{
  BinaryData, Decoded, decoded, skipped, decode_data, encode_data, implied_type, length_of,
}

pub record RecordData : Type 0 where
  pub subrecord_type : ℕ
  pub subrecord_length : ℕ
  pub subrecord_data : BinaryData

module _ (f : Float64) where
  -- One round of the loop; a subrecord of an unknown type gives nothing.
  take_decoded : ℕ → ℕ → Decoded → Reader (List RecordData)
  take_decoded kind size skipped s = ok ([], s)
  take_decoded kind size (decoded r) s = and_then r λ data'.
      ok (record { subrecord_type = kind; subrecord_length = size; subrecord_data = data' } ∷ [], s)

  pub decode_record : (List ℕ → Result (Unit {0})) → Reader (List RecordData)
  decode_record service = do
    kind ← read_byte
    size_bytes ← read (replicate 2 0)
    let size = le_uint size_bytes
    content ← next size
    take_decoded kind size (decode_data f service kind content)

  -- `for buf.Len() > 0`. Every round takes a byte or more, so `length s` rounds are enough.
  pub decode_records : (List ℕ → Result (Unit {0})) → ℕ → List ℕ → Result (List RecordData)
  decode_records service fuel [] = ok []
  decode_records service zero (b ∷ s) = stuck
  decode_records service (suc fuel) (b ∷ s) =
      let rest = decode_records service fuel in
      value_of
        (continue (decode_record service (b ∷ s)) λ r s'. and_then (rest s') λ rs. ok (r ++ rs, []))

  -- `RecordDataSet.Decode`
  unfoldable pub decode : (List ℕ → Result (Unit {0})) → List ℕ → Result (List RecordData)
  unfolding decode_records
  decode service s = decode_records service (length s) s

  unfoldable pub record_type : RecordData → Result ℕ
  record_type r =
      if r.subrecord_type == 0 then implied_type r.subrecord_data else ok r.subrecord_type

  unfoldable pub record_length : RecordData → ℕ
  record_length r =
      if r.subrecord_length == 0
      then length_of (encode_data f r.subrecord_data)
      else r.subrecord_length

  unfoldable pub encode_record : RecordData → Result (List ℕ)
  encode_record r = and_then (record_type r) λ kind.
      and_then (encode_data f r.subrecord_data)
        λ content. ok (kind ∷ (put_le 2 (record_length r) ++ content))

  -- `RecordDataSet.Encode`
  unfoldable pub encode : List RecordData → Result (List ℕ)
  encode [] = ok []
  encode (r ∷ rs) =
      and_then (encode_record r) λ bytes. and_then (encode rs) λ more. ok (bytes ++ more)
