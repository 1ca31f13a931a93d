-- ===== src/Egts/Package/Whole.antt =====
-- A packet survives encoding and decoding, with its lengths and checksums filled in.
use nav_control.Base.{
  ℕ, suc, ◌+◌, ◌%◌, ◌^◌, ◌<◌, ◌≡◌, refl, ◌∙◌, List, [], ◌∷◌, ◌++◌, length, Option, some, false,
  if◌then◌else◌, ◌⊎◌, inl, inr, arith, length-append, take, take-length-append, subst, ap, sym, ◌-◌,
  append_assoc, Bool-cases, ◌==◌,
}
use nav_control.Go.Result.{ok}
use nav_control.Go.Words.{put_le}
use nav_control.Go.Text.{Text, is_one, byte_of, parse_flags, parse_flags-digits_of}
use nav_control.Go.Float.{Float64}
use nav_control.Egts.Fields.{opt}
use nav_control.Egts.Crc.{crc8, crc16}
use nav_control.Egts.Package.{
  Package, FrameData, SecretKey, done, with_key, decode_frame, decode, encode_body, header_size,
  flag_bits, header_of, encode,
}
use nav_control.Egts.Package.RoundTrip.{
  IsRoute, route_bytes, reslice-parts, decode_header-header, decode_body-body, kind_of_frame,
}

-- Two binary digits.
abbrev pub AreTwoFlags : Text → Type 0
AreTwoFlags t = (a : ℕ) × (b : ℕ) × (a < 2) × (b < 2) × (t ≡ (b'0' + a) ∷ (b'0' + b) ∷ [])

pub header_size-length :
    (p : Package) (flags size : ℕ)
    → (p.header_length ≡ 0) ⊎ (p.header_length ≡ (if is_one p.route then 16 else 11))
    → (header_size p ≡ suc (length (header_of p flags size)))
      × ((header_size p + 255) % 2 ^ 8 ≡ length (header_of p flags size))
unfolding header_size header_of opt
header_size-length p flags size h = elim (Bool-cases (is_one p.route)) [
  | inl e ↦ elim h [ inl z ↦ rw (z, e) (refl, refl) | inr z ↦ rw (z, e) (refl, refl) ]
  | inr e ↦ elim h [ inl z ↦ rw (z, e) (refl, refl) | inr z ↦ rw (z, e) (refl, refl) ]
]

unfoldable pub with_digits : Package → (p q r a b c d e : ℕ) → FrameData → Package
with_digits x p q r a b c d e frame = record x {
  prefix = (b'0' + p) ∷ (b'0' + q) ∷ [];
  route = (b'0' + r) ∷ [];
  encryption_alg = (b'0' + a) ∷ (b'0' + b) ∷ [];
  compression = (b'0' + c) ∷ [];
  priority = (b'0' + d) ∷ (b'0' + e) ∷ [];
  services_frame_data = some frame;
  packet_type = kind_of_frame frame;
}

module _ (f : Float64) (key : Option SecretKey) (depth : ℕ) where
  pub encode-body :
      (y : Package) (flags : ℕ) (body : List ℕ)
      → parse_flags (flag_bits y) ≡ ok flags
      → encode_body f key y.encryption_alg y.services_frame_data ≡ ok body
      → 0 < length body
      → length body < 2 ^ 16
      → let header = header_of y flags (length body) in
        encode f key y
        ≡ ok (
          record y { header_length = header_size y; frame_data_length = length body },
          header ++ (crc8 header ∷ (body ++ put_le 2 (crc16 body))),
        )
  unfolding encode
  encode-body y flags body parsed sealed some_bytes small =
      let kept_size : length body % 2 ^ 16 ≡ length body = omega (arith, small) in
      let not_empty : (length body == 0) ≡ false = ground (arith, some_bytes) in
      rw (parsed, sealed, kept_size, not_empty)

  -- What is proved of a packet with that data and body.
  unfoldable pub IsKept : Package → FrameData → List ℕ → Type 0
  IsKept p d body =
      (bytes : List ℕ) × (sum : ℕ) × (sum ≡ crc8 (take (header_size p - 1) bytes))
      × (encode f key p
          ≡ ok (record p { header_length = header_size p; frame_data_length = length body }, bytes))
      × ((spare : List ℕ)
          → decode f key depth bytes spare
            ≡ done (record p {
              header_length = header_size p;
              frame_data_length = length body;
              header_check_sum = sum;
              services_frame_data = some d;
              services_frame_data_check_sum = crc16 body;
            }))

  pub keeps-with_digits :
      (x : Package) (p q r a b c d e : ℕ) (frame : FrameData) (body plain : List ℕ)
      → (p < 2) × (q < 2) × (r < 2) × (a < 2) × (b < 2) × (c < 2) × (d < 2) × (e < 2)
      → let y = with_digits x p q r a b c d e frame in
        (y.header_length ≡ 0) ⊎ (y.header_length ≡ (if is_one y.route then 16 else 11))
        → IsRoute (is_one y.route) y.peer_address y.recipient_address y.time_to_live
        → y.packet_identifier < 2 ^ 16
        → encode_body f key y.encryption_alg y.services_frame_data ≡ ok body
        → with_key f key SecretKey.decode_bytes y.encryption_alg body ≡ ok plain
        → decode_frame f key depth y.packet_type plain ≡ ok frame
        → 0 < length body
        → header_size y + length body < 2 ^ 16
        → IsKept y frame body
  unfolding IsKept with_digits header_of opt route_bytes
  keeps-with_digits x p q r a b c d e frame body plain digits size way pid sealed opened decoded
        some_bytes fits =
      let y = with_digits x p q r a b c d e frame in
      let flags = byte_of p q r a b c d e in
      let header = header_of y flags (length body) in
      let (after, before) = header_size-length y flags (length body) size in
      let small : length body < 2 ^ 16 = omega (arith, fits) in
      let tail = body ++ put_le 2 (crc16 body) in
      let before_sum : length header ≡ header_size y - 1 = omega (arith, after) in
      let covered : take (header_size y - 1) (header ++ (crc8 header ∷ tail)) ≡ header =
        subst (λ n. take n (header ++ (crc8 header ∷ tail)) ≡ header) before_sum
          (take-length-append header (crc8 header ∷ tail)) in
      (
        header ++ (crc8 header ∷ tail),
        crc8 header,
        ap crc8 (sym covered),
        encode-body y flags body (unfold flag_bits in parse_flags-digits_of p q r a b c d e digits)
            sealed some_bytes small,
        λ spare.
            unfold decode in
            (decode_header-header f key depth (header ++ (crc8 header ∷ tail)) spare header tail
                x.protocol_version x.security_key_id (header_size y) x.header_encoding (length body)
                x.packet_identifier (kind_of_frame frame) x.peer_address x.recipient_address
                x.time_to_live p q r a b c d e digits way small pid
                (reslice-parts [] header _ _ spare 0 _ (append_assoc header _ spare) refl
                  (omega (arith, before)))
              ∙ decode_body-body f key depth (header ++ (crc8 header ∷ tail)) spare body [] plain _
                  frame some_bytes refl refl opened decoded
                  (reslice-parts (header ++ (crc8 header ∷ [])) body
                    (put_le 2 (crc16 body) ++ spare) _ spare (header_size y)
                    ((header_size y + length body) % 2 ^ 16) (simp (append_assoc))
                    (omega (arith, after, length-append header (crc8 header ∷ [])))
                    (omega (arith, after, fits, length-append header (crc8 header ∷ []))))),
      )
