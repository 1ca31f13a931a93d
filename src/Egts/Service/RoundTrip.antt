-- ===== src/Egts/Service/RoundTrip.antt =====
-- A service data set survives encoding and decoding.
use nav_control.Egts.Service.OneRecord.{IsValidService, decode_record-encode_record}
use nav_control.Base.{
  ℕ, zero, suc, ◌<◌, ◌≤◌, ◌≡◌, refl, List, [], ◌∷◌, ◌++◌, length, arith, length-append, All,
}
use nav_control.Go.Result.{Result, ok, and_then}
use nav_control.Go.Float.{Float64, IsAccurate}
use nav_control.Egts.Service.{ServiceDataRecord, decode_record, decode_records, decode, encode}

module _ (f : Float64) (acc_90 : IsAccurate f f.degrees_90 90)
    (acc_180 : IsAccurate f f.degrees_180 180) (service : List ℕ → Result (Unit {0}))
    (empty : service [] ≡ ok tt) where
  decode_records_step :
      (fuel : ℕ) (bytes more : List ℕ) (r : ServiceDataRecord) (rs : List ServiceDataRecord)
      → 0 < length bytes
      → length (bytes ++ more) ≤ fuel
      → decode_record f service (bytes ++ more) ≡ ok (r, more)
      → ((k : ℕ) → length more ≤ k → decode_records f service k more ≡ ok rs)
      → decode_records f service fuel (bytes ++ more) ≡ ok (r ∷ rs)
  unfolding decode_records
  decode_records_step fuel [] more r rs some_bytes h e back = absurd (omega arith)
  decode_records_step zero (b ∷ bs) more r rs some_bytes h e back = absurd (omega arith)
  decode_records_step (suc fuel) (b ∷ bs) more r rs some_bytes h e back =
      rw (e, back fuel (omega (arith, length-append bs more)))

  pub decode_records-encode :
      (rs : List ServiceDataRecord)
      → All (IsValidService f) rs
      → (bytes : List ℕ) × (encode f rs ≡ ok bytes)
        × ((fuel : ℕ) → length bytes ≤ fuel → decode_records f service fuel bytes ≡ ok rs)
  unfolding encode
  decode_records-encode [] v = ([], refl, λ fuel h. unfold decode_records in refl)
  decode_records-encode (r ∷ rs) (v, vs) =
      let (bytes, written_bytes, some_bytes, back) =
        decode_record-encode_record f acc_90 acc_180 service empty r v in
      let (more, written_more, back_more) = decode_records-encode rs vs in
      (
        bytes ++ more,
        rw (written_bytes, written_more),
        λ fuel h. decode_records_step fuel bytes more r rs some_bytes h (back more) back_more,
      )

module _ (f : Float64) where
  pub decode-nil : (depth : ℕ) → decode f (suc depth) [] ≡ ok []
  unfolding decode
  decode-nil depth = unfold decode_records in refl

  -- If the float formulas are accurate at 90 and 180 degrees and each record is valid, `encode`
  -- succeeds on the list, and `decode`, at any depth from 2 on, gives the same list back.
  pub decode-encode_services :
      (rs : List ServiceDataRecord) (depth : ℕ)
      → IsAccurate f f.degrees_90 90
      → IsAccurate f f.degrees_180 180
      → All (IsValidService f) rs
      → (bytes : List ℕ) × (encode f rs ≡ ok bytes) × (decode f (suc (suc depth)) bytes ≡ ok rs)
  decode-encode_services rs depth acc_90 acc_180 v =
      let (bytes, written_bytes, back) =
        decode_records-encode f acc_90 acc_180
          (λ content. and_then (decode f (suc depth) content) (λ records. ok tt))
          (rw (decode-nil depth)) rs v in
      (bytes, written_bytes, unfold decode in back (length bytes) (omega arith))
