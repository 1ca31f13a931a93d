-- ===== src/Egts/Package/Kept.antt =====
-- egts_package.go: a valid packet survives `Encode` and `Decode`.
use nav_control.Base.{
  ℕ, suc, ◌+◌, ◌^◌, ◌<◌, ◌≡◌, refl, sym, subst, List, [], ◌∷◌, length, Option, some, if◌then◌else◌,
  ◌⊎◌,
}
use nav_control.Go.Result.{ok}
use nav_control.Go.Text.{is_one, IsFlag, flag_digit}
use nav_control.Go.Float.{Float64, IsAccurate}
use nav_control.Egts.Package.{Package, FrameData, SecretKey, encode_body, header_size}
use nav_control.Egts.Package.RoundTrip.{IsRoute, kind_of_frame}
use nav_control.Egts.Package.Frame.{
  IsValidFrame, IsOpened, with_key-with_key, decode_frame-encode_frame,
}
use nav_control.Egts.Package.Whole.{AreTwoFlags, IsKept, with_digits, keeps-with_digits}

-- The flags are digits, the header has its own length or none yet, the numbers fit their bytes, the type
-- goes with the data, the body can be opened, and is neither empty nor too long for 16 bits of length.
pub record IsValidPackage (f : Float64) (key : Option SecretKey) (p : Package) (d : FrameData)
    : Type 0 where
  pub prefix : AreTwoFlags p.prefix
  pub route : IsFlag p.route
  pub algorithm : AreTwoFlags p.encryption_alg
  pub compression : IsFlag p.compression
  pub priority : AreTwoFlags p.priority
  pub size : (p.header_length ≡ 0) ⊎ (p.header_length ≡ (if is_one p.route then 16 else 11))
  pub way : IsRoute (is_one p.route) p.peer_address p.recipient_address p.time_to_live
  pub identifier : p.packet_identifier < 2 ^ 16
  pub has_data : p.services_frame_data ≡ some d
  pub kind : p.packet_type ≡ kind_of_frame d
  pub frame : IsValidFrame f d
  pub opened : IsOpened key p.encryption_alg
  pub fits :
      (body : List ℕ)
      → encode_body f key p.encryption_alg p.services_frame_data ≡ ok body
      → (0 < length body) × (header_size p + length body < 2 ^ 16)

module _ (f : Float64) (acc_90 : IsAccurate f f.degrees_90 90)
    (acc_180 : IsAccurate f f.degrees_180 180) (key : Option SecretKey) (depth : ℕ) where
  -- If the float formulas are accurate and the packet is valid with data d, `encode` succeeds with
  -- the lengths filled in, and `decode`, at any depth from 2 on and whatever the spare bytes, gives
  -- the packet with these lengths, the checksum of the body as it was encrypted, and the checksum of
  -- the bytes before that of the header.
  pub decode-encode_package :
      (p : Package) (d : FrameData)
      → IsValidPackage f key p d
      → (body : List ℕ) × (encode_body f key p.encryption_alg p.services_frame_data ≡ ok body)
        × IsKept f key (suc (suc depth)) p d body
  unfolding with_digits
  decode-encode_package p d v =
      let (x, y, lx, ly, exy) = v.prefix in
      let (r, lr, er) = flag_digit _ v.route in
      let (a, b, la, lb, eab) = v.algorithm in
      let (c, lc, ec) = flag_digit _ v.compression in
      let (g, h, lg, lh, egh) = v.priority in
      let same : with_digits p x y r a b c g h d ≡ p = (λ i. record p {
        prefix = sym exy i;
        route = sym er i;
        encryption_alg = sym eab i;
        compression = sym ec i;
        priority = sym egh i;
        services_frame_data = sym v.has_data i;
        packet_type = sym v.kind i;
      }) in
      let valid = subst (λ q. IsValidPackage f key q d) (sym same) v in
      let (plain, encoded, decoded) =
        decode_frame-encode_frame f acc_90 acc_180 key depth d v.frame in
      let (body, sealed, back) =
        with_key-with_key f key ((b'0' + a) ∷ (b'0' + b) ∷ []) plain valid.opened in
      let own : encode_body f key ((b'0' + a) ∷ (b'0' + b) ∷ []) (some d) ≡ ok body =
        unfold encode_body in rw (encoded, sealed) refl in
      subst
        (λ q.
          (body : List ℕ) × (encode_body f key q.encryption_alg q.services_frame_data ≡ ok body)
          × IsKept f key (suc (suc depth)) q d body)
        same
        (
          body,
          own,
          keeps-with_digits f key (suc (suc depth)) p x y r a b c g h d body plain
              (lx, ly, lr, la, lb, lc, lg, lh) valid.size valid.way valid.identifier own back
              decoded (valid.fits body own).0 (valid.fits body own).1,
        )
