-- ===== src/Egts/Records/RoundTrip.antt =====
-- A record data set survives encoding and decoding.
use nav_control.Base.{
  true, ℕ, zero, suc, ◌^◌, ◌<◌, ◌≤◌, ◌≡◌, refl, sym, ap, ◌∙◌, subst, List, [], ◌∷◌, ◌++◌, length,
  take, drop, arith, length-append, take-length-append, drop-length-append, if◌then◌else◌, ◌==◌,
  Bool-cases, inl, inr, All,
}
use nav_control.Go.Result.{Result, ok}
use nav_control.Go.Words.{put_le}
use nav_control.Go.Float.{Float64, IsAccurate}
use nav_control.Egts.Fields.{le_uint-put_le}
use nav_control.Egts.Data.{
  BinaryData, decoded, decode_data, encode_data, implied_type, kind_of, response,
}
use nav_control.Egts.Data.RoundTrip.{
  IsWritable, as_read, IsValidData, IsValidData-IsWritable, as_read-IsValidData,
  decode_data-encode_data,
}
use nav_control.Egts.Records.{
  RecordData, decode_record, decode_records, decode, encode_record, encode, record_type,
  record_length, take_decoded,
}

-- The data are valid, the type is theirs, and the length is that of their bytes.
pub record IsValidRecord (f : Float64) (r : RecordData) : Type 0 where
  pub data_valid : IsValidData r.subrecord_data
  pub own_type : r.subrecord_type ≡ kind_of r.subrecord_data
  pub own_length :
      (bytes : List ℕ)
      → encode_data f r.subrecord_data ≡ ok bytes
      → (length bytes ≡ r.subrecord_length) × (r.subrecord_length < 2 ^ 16)

-- The data can be written, the type is theirs, and the length is that of their bytes.
pub record IsWritableRecord (f : Float64) (r : RecordData) : Type 0 where
  pub data_writable : IsWritable r.subrecord_data
  pub own_type : r.subrecord_type ≡ kind_of r.subrecord_data
  pub own_length :
      (bytes : List ℕ)
      → encode_data f r.subrecord_data ≡ ok bytes
      → (length bytes ≡ r.subrecord_length) × (r.subrecord_length < 2 ^ 16)

-- The subrecords with the data that the decoder makes of them.
unfoldable pub records_as_read : List RecordData → List RecordData
records_as_read [] = []
records_as_read (r ∷ rs) =
    record r { subrecord_data = as_read r.subrecord_data } ∷ records_as_read rs

records_as_read-valid :
    (f : Float64) (rs : List RecordData) → All (IsValidRecord f) rs → records_as_read rs ≡ rs
unfolding records_as_read
records_as_read-valid f [] v = refl
records_as_read-valid f (r ∷ rs) (v, vs) =
    let same = as_read-IsValidData r.subrecord_data v.data_valid in
    λ i. record r { subrecord_data = same i } ∷ records_as_read-valid f rs vs i

All-IsWritableRecord :
    (f : Float64) (rs : List RecordData) → All (IsValidRecord f) rs → All (IsWritableRecord f) rs
All-IsWritableRecord f [] v = tt
All-IsWritableRecord f (r ∷ rs) (v, vs) = (
  record {
    data_writable = IsValidData-IsWritable r.subrecord_data v.data_valid;
    own_type = v.own_type;
    own_length = v.own_length;
  },
  All-IsWritableRecord f rs vs,
)

own_kind :
    (d : BinaryData) → (if kind_of d == 0 then implied_type d else ok (kind_of d)) ≡ ok (kind_of d)
unfolding implied_type
own_kind (response e) = refl
own_kind d = refl

take-exact : (n : ℕ) (xs ys : List ℕ) → length xs ≡ n → take n (xs ++ ys) ≡ xs
take-exact n xs ys e = subst (λ k. take k (xs ++ ys) ≡ xs) e (take-length-append xs ys)

drop-exact : (n : ℕ) (xs ys : List ℕ) → length xs ≡ n → drop n (xs ++ ys) ≡ ys
drop-exact n xs ys e = subst (λ k. drop k (xs ++ ys) ≡ ys) e (drop-length-append xs ys)

pub decode-nil : (f : Float64) (service : List ℕ → Result (Unit {0})) → decode f service [] ≡ ok []
unfolding decode
decode-nil f service = refl

module _ (f : Float64) (acc_90 : IsAccurate f f.degrees_90 90)
    (acc_180 : IsAccurate f f.degrees_180 180) (service : List ℕ → Result (Unit {0}))
    (empty : service [] ≡ ok tt) where
  record_type-own : (r : RecordData) → IsWritableRecord f r → record_type f r ≡ ok r.subrecord_type
  unfolding record_type
  record_type-own r v =
      subst (λ k. (if k == 0 then implied_type r.subrecord_data else ok k) ≡ ok k) (sym v.own_type)
        (own_kind r.subrecord_data)

  record_length-own :
      (r : RecordData) (bytes : List ℕ)
      → encode_data f r.subrecord_data ≡ ok bytes
      → (length bytes ≡ r.subrecord_length)
      → record_length f r ≡ r.subrecord_length
  unfolding record_length
  record_length-own r bytes e l = elim (Bool-cases (r.subrecord_length == 0)) [
    | inl z ↦ rw (z, e) (omega (arith, l, zero_of z))
    | inr n ↦ rw n
  ]
    where
      zero_of : (r.subrecord_length == 0) ≡ true → r.subrecord_length ≡ 0
      zero_of h = ground arith

  record_received :
      (r : RecordData) (content rest : List ℕ) {size : ℕ}
      → r.subrecord_length ≡ size
      → length content ≡ r.subrecord_length
      → decode_data f service r.subrecord_type content ≡ decoded (ok (as_read r.subrecord_data))
      → take_decoded f r.subrecord_type size
          (decode_data f service r.subrecord_type (take size (content ++ rest)))
          (drop size (content ++ rest))
        ≡ ok (record r { subrecord_data = as_read r.subrecord_data } ∷ [], rest)
  record_received r content rest e exact back =
      subst
        (λ k.
          take_decoded f r.subrecord_type k
            (decode_data f service r.subrecord_type (take k (content ++ rest)))
            (drop k (content ++ rest))
          ≡ ok (record r { subrecord_data = as_read r.subrecord_data } ∷ [], rest))
        e
        (rw
          (
            take-exact r.subrecord_length content rest exact,
            drop-exact r.subrecord_length content rest exact,
            back,
          )
          (unfold take_decoded in refl))

  decode_records_step :
      (fuel : ℕ) (bytes more : List ℕ) (r : RecordData) (rs : List RecordData)
      → 0 < length bytes
      → length (bytes ++ more) ≤ fuel
      → decode_record f service (bytes ++ more) ≡ ok (r ∷ [], more)
      → ((k : ℕ) → length more ≤ k → decode_records f service k more ≡ ok rs)
      → decode_records f service fuel (bytes ++ more) ≡ ok (r ∷ rs)
  unfolding decode_records
  decode_records_step fuel [] more r rs some_bytes h e back = absurd (omega arith)
  decode_records_step zero (b ∷ bs) more r rs some_bytes h e back = absurd (omega arith)
  decode_records_step (suc fuel) (b ∷ bs) more r rs some_bytes h e back =
      rw (e, back fuel (omega (arith, length-append bs more)))

  pub decode_record-encode_record :
      (r : RecordData)
      → IsWritableRecord f r
      → (bytes : List ℕ) × (encode_record f r ≡ ok bytes)
        × (0 < length bytes)
        × ((rest : List ℕ)
            → decode_record f service (bytes ++ rest)
              ≡ ok (record r { subrecord_data = as_read r.subrecord_data } ∷ [], rest))
  unfolding decode_record encode_record
  decode_record-encode_record r v =
      let (content, written, back) =
        decode_data-encode_data f acc_90 acc_180 service empty r.subrecord_data v.data_writable in
      let (exact, fits) = v.own_length content written in
      (
        r.subrecord_type ∷ (put_le 2 r.subrecord_length ++ content),
        rw (record_type-own r v, written, record_length-own r content written exact),
        omega arith,
        λ rest.
            record_received r content rest (sym (le_uint-put_le 2 r.subrecord_length fits)) exact (
              subst (λ k. decode_data f service k content ≡ decoded (ok (as_read r.subrecord_data)))
                (sym v.own_type) back),
      )

  -- `encode` succeeds on valid records, and `decode` gives them back.
  decode_records-encode :
      (rs : List RecordData)
      → All (IsWritableRecord f) rs
      → (bytes : List ℕ) × (encode f rs ≡ ok bytes)
        × ((fuel : ℕ)
            → length bytes ≤ fuel
            → decode_records f service fuel bytes ≡ ok (records_as_read rs))
  unfolding encode records_as_read
  decode_records-encode [] v = ([], refl, λ fuel h. unfold decode_records in refl)
  decode_records-encode (r ∷ rs) (v, vs) =
      let (bytes, written, some_bytes, back) = decode_record-encode_record r v in
      let (more, written_more, back_more) = decode_records-encode rs vs in
      (
        bytes ++ more,
        rw (written, written_more),
        λ fuel h.
            decode_records_step fuel bytes more
              (record r { subrecord_data = as_read r.subrecord_data }) (records_as_read rs)
              some_bytes h (back more) back_more,
      )

  pub decode-encode_records :
      (rs : List RecordData)
      → All (IsWritableRecord f) rs
      → (bytes : List ℕ) × (encode f rs ≡ ok bytes)
        × (decode f service bytes ≡ ok (records_as_read rs))
  unfolding decode
  decode-encode_records rs v =
      let (bytes, written, back) = decode_records-encode rs v in
      (bytes, written, back (length bytes) (omega arith))

  -- Valid subrecords come back as they are.
  pub decode-encode-valid :
      (rs : List RecordData)
      → All (IsValidRecord f) rs
      → (bytes : List ℕ) × (encode f rs ≡ ok bytes) × (decode f service bytes ≡ ok rs)
  decode-encode-valid rs v =
      let (bytes, written, back) = decode-encode_records rs (All-IsWritableRecord f rs v) in
      (bytes, written, back ∙ ap ok (records_as_read-valid f rs v))
