-- ===== src/Egts/Package/Frame.antt =====
-- What a packet carries survives encoding and decoding, encrypted or not.
use nav_control.Base.{
  ℕ, suc, ◌^◌, ◌<◌, ◌≡◌, ◌≢◌, refl, ap, List, [], ◌∷◌, ◌++◌, Option, none, some, true, false, ◌⊎◌,
  inl, inr, All,
}
use nav_control.Go.Result.{ok, and_then}
use nav_control.Go.Words.{put_le}
use nav_control.Go.Text.{Text}
use nav_control.Go.Reader.{run}
use nav_control.Go.Float.{Float64, IsAccurate}
use nav_control.Egts.Fields.{le_uint-put_le}
use nav_control.Egts.Service
use nav_control.Egts.Service.{ServiceDataRecord}
use nav_control.Egts.Service.OneRecord.{IsValidService}
use nav_control.Egts.Service.RoundTrip.{decode-encode_services, decode-nil}
use nav_control.Egts.PtResponse
use nav_control.Egts.PtResponse.{PtResponse}
use nav_control.Egts.Package.{
  FrameData, services, answer, SecretKey, with_key, is_plain, decode_frame, encode_frame,
}
use nav_control.Egts.Package.RoundTrip.{kind_of_frame}

-- The documented use of a key: what it encodes it decodes.
abbrev pub IsKey : SecretKey → Type 0
IsKey k =
    (plain : List ℕ)
    → (body : List ℕ) × (k.encode_bytes plain ≡ ok body) × (k.decode_bytes body ≡ ok plain)

-- The algorithm is "00", or there is a key.
unfoldable pub IsOpened : Option SecretKey → Text → Type 0
IsOpened key algorithm =
    (is_plain algorithm ≡ true)
    ⊎ ((is_plain algorithm ≡ false) × ((k : SecretKey) × (key ≡ some k) × IsKey k))

unfoldable pub IsValidAnswer : Float64 → Option (List ServiceDataRecord) → Type 0
IsValidAnswer f none = Unit {0}
IsValidAnswer f (some rs) = All (IsValidService f) rs × (rs ≢ [])

-- Valid records, or a valid answer, which has no empty list of records.
unfoldable pub IsValidFrame : Float64 → FrameData → Type 0
IsValidFrame f (services rs) = All (IsValidService f) rs
IsValidFrame f (answer r) = (r.response_packet_id < 2 ^ 16) × IsValidAnswer f r.sdr

module _ (f : Float64) (key : Option SecretKey) where
  pub with_key-with_key :
      (algorithm : Text) (plain : List ℕ)
      → IsOpened key algorithm
      → (body : List ℕ) × (with_key f key SecretKey.encode_bytes algorithm plain ≡ ok body)
        × (with_key f key SecretKey.decode_bytes algorithm body ≡ ok plain)
  unfolding with_key IsOpened
  with_key-with_key algorithm plain (inl e) = (plain, rw e refl, rw e refl)
  with_key-with_key algorithm plain (inr (e, (k, some_key, law))) =
      let (body, encoded, decoded) = law plain in
      (body, rw (e, some_key, encoded), rw (e, some_key, decoded))

module _ (f : Float64) (acc_90 : IsAccurate f f.degrees_90 90)
    (acc_180 : IsAccurate f f.degrees_180 180) (key : Option SecretKey) (depth : ℕ) where
  read_sdr-some :
      (bytes : List ℕ) (rs : List ServiceDataRecord)
      → rs ≢ []
      → Service.decode f (suc (suc depth)) bytes ≡ ok rs
      → PtResponse.read_sdr f (suc (suc depth)) bytes ≡ ok (some rs, [])
  unfolding PtResponse.read_sdr
  read_sdr-some [] rs some_records e =
      let nothing : Service.decode f (suc (suc depth)) [] ≡ ok [] = decode-nil f (suc depth) in
      let same : rs ≡ [] = cc (e, nothing) in absurd (some_records same)
  read_sdr-some (b ∷ bs) rs some_records e = rw e refl

  decode_answer :
      (id status : ℕ) (sdr : Option (List ServiceDataRecord))
      → id < 2 ^ 16
      → IsValidAnswer f sdr
      → (bytes : List ℕ) × (PtResponse.encode f
            (record { response_packet_id = id; processing_result = status; sdr = sdr })
          ≡ ok bytes)
        × (run (PtResponse.decode f (suc (suc depth))) bytes
            ≡ ok (record { response_packet_id = id; processing_result = status; sdr = sdr }))
  unfolding PtResponse.encode PtResponse.decode PtResponse.encode_sdr IsValidAnswer
  decode_answer id status none h valid =
      (_, refl, unfold PtResponse.read_sdr in rw (le_uint-put_le 2 id h))
  decode_answer id status (some rs) h (valid, some_records) =
      let (bytes, encoded, decoded) = decode-encode_services f rs depth acc_90 acc_180 valid in
      (
        put_le 2 id ++ (status ∷ bytes),
        rw encoded refl,
        rw (read_sdr-some bytes rs some_records decoded, le_uint-put_le 2 id h),
      )

  pub decode_frame-encode_frame :
      (d : FrameData)
      → IsValidFrame f d
      → (plain : List ℕ) × (encode_frame f key d ≡ ok plain)
        × (decode_frame f key (suc (suc depth)) (kind_of_frame d) plain ≡ ok d)
  unfolding encode_frame decode_frame kind_of_frame IsValidFrame
  decode_frame-encode_frame (services rs) valid =
      let (bytes, encoded, decoded) = decode-encode_services f rs depth acc_90 acc_180 valid in
      (bytes, encoded, rw decoded refl)
  decode_frame-encode_frame (answer r) (h, valid) =
      let (bytes, encoded, decoded) =
        decode_answer r.response_packet_id r.processing_result r.sdr h valid in
      (bytes, encoded, ap (λ m. and_then m (λ x. ok (answer x))) decoded)
