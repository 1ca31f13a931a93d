-- ===== src/Egts/ExtPosData.antt =====
-- egts_sr_ext_pos_data.go
use nav_control.Base.{ℕ, ◌+◌, ◌<◌, ◌≡◌, refl, sym, List, [], ◌∷◌, ◌++◌, arith, replicate, subst}
use nav_control.Go.Result.{Result, ok, and_then}
use nav_control.Go.Reader.{◌>>=◌, Reader, pure, read_byte, run}
use nav_control.Go.Words.{put_le}
use nav_control.Go.Text.{
  Text, is_one, slice, format8, parse_flags, flag_digit, byte_of, digits_of, parse_flags-digits_of,
  format8-byte_of,
}
use nav_control.Egts.Fields.{
  written, opt, read_opt, read_opt_byte, IsOpt, IsField, IsOpt-subst, length-kept, read_opt-opt,
  read_opt_byte-opt,
}

pub record SrExtPosData : Type 0 where
  pub flag_ext_pos : ℕ
  pub navigation_system_field_exists : Text
  pub satellites_field_exists : Text
  pub pdop_field_exists : Text
  pub hdop_field_exists : Text
  pub vdop_field_exists : Text
  pub vertical_dilution_of_precision : ℕ
  pub horizontal_dilution_of_precision : ℕ
  pub position_dilution_of_precision : ℕ
  pub satellites : ℕ
  pub navigation_system : ℕ

unfoldable pub decode : Reader SrExtPosData
decode = do
  flags ← read_byte
  let bits = format8 flags
  let nsfe = slice 3 4 bits
  let sfe = slice 4 5 bits
  let pfe = slice 5 6 bits
  let hfe = slice 6 7 bits
  let vfe = slice 7 8 bits
  (tmp₁, vdop) ← read_opt (is_one vfe) (replicate 2 0)
  (tmp₂, hdop) ← read_opt (is_one hfe) tmp₁
  (tmp₃, pdop) ← read_opt (is_one pfe) tmp₂
  sat ← read_opt_byte (is_one sfe)
  (tmp₄, ns) ← read_opt (is_one nsfe) tmp₃
  pure (record {
    flag_ext_pos = flags;
    navigation_system_field_exists = nsfe;
    satellites_field_exists = sfe;
    pdop_field_exists = pfe;
    hdop_field_exists = hfe;
    vdop_field_exists = vfe;
    vertical_dilution_of_precision = vdop;
    horizontal_dilution_of_precision = hdop;
    position_dilution_of_precision = pdop;
    satellites = sat;
    navigation_system = ns;
  })

unfoldable pub flag_bits : SrExtPosData → Text
flag_bits e =
    b'0'
    ∷ b'0'
    ∷ b'0'
    ∷ (e.navigation_system_field_exists
        ++ (e.satellites_field_exists
            ++ (e.pdop_field_exists ++ (e.hdop_field_exists ++ e.vdop_field_exists))))

unfoldable pub encode : SrExtPosData → Result (List ℕ)
unfolding flag_bits
encode e = and_then (parse_flags (flag_bits e)) λ flags. ok (
    written (
      (flags ∷ [])
      ∷ opt (is_one e.vdop_field_exists) (put_le 2 e.vertical_dilution_of_precision)
      ∷ opt (is_one e.hdop_field_exists) (put_le 2 e.horizontal_dilution_of_precision)
      ∷ opt (is_one e.pdop_field_exists) (put_le 2 e.position_dilution_of_precision)
      ∷ opt (is_one e.satellites_field_exists) (e.satellites ∷ [])
      ∷ opt (is_one e.navigation_system_field_exists) (put_le 2 e.navigation_system)
      ∷ []))

-- Every field is present and fits, or absent and zero; the flag byte is that of the five flags.
pub record IsValid (e : SrExtPosData) : Type 0 where
  pub flags : parse_flags (flag_bits e) ≡ ok e.flag_ext_pos
  pub vdop : IsField 2 e.vdop_field_exists e.vertical_dilution_of_precision
  pub hdop : IsField 2 e.hdop_field_exists e.horizontal_dilution_of_precision
  pub pdop : IsField 2 e.pdop_field_exists e.position_dilution_of_precision
  pub sat : IsField 1 e.satellites_field_exists e.satellites
  pub ns : IsField 2 e.navigation_system_field_exists e.navigation_system

-- Decoding what was encoded gives the subrecord back.
decode_fields :
    (n s p h v vd hd pd sa ns : ℕ)
    → n < 2
    → s < 2
    → p < 2
    → h < 2
    → v < 2
    → IsOpt 2 (is_one ((b'0' + v) ∷ [])) vd
    → IsOpt 2 (is_one ((b'0' + h) ∷ [])) hd
    → IsOpt 2 (is_one ((b'0' + p) ∷ [])) pd
    → IsOpt 1 (is_one ((b'0' + s) ∷ [])) sa
    → IsOpt 2 (is_one ((b'0' + n) ∷ [])) ns
    → run decode (
        written (
          (byte_of 0 0 0 n s p h v ∷ [])
          ∷ opt (is_one ((b'0' + v) ∷ [])) (put_le 2 vd)
          ∷ opt (is_one ((b'0' + h) ∷ [])) (put_le 2 hd)
          ∷ opt (is_one ((b'0' + p) ∷ [])) (put_le 2 pd)
          ∷ opt (is_one ((b'0' + s) ∷ [])) (sa ∷ [])
          ∷ opt (is_one ((b'0' + n) ∷ [])) (put_le 2 ns)
          ∷ []))
      ≡ ok (record {
        flag_ext_pos = byte_of 0 0 0 n s p h v;
        navigation_system_field_exists = (b'0' + n) ∷ [];
        satellites_field_exists = (b'0' + s) ∷ [];
        pdop_field_exists = (b'0' + p) ∷ [];
        hdop_field_exists = (b'0' + h) ∷ [];
        vdop_field_exists = (b'0' + v) ∷ [];
        vertical_dilution_of_precision = vd;
        horizontal_dilution_of_precision = hd;
        position_dilution_of_precision = pd;
        satellites = sa;
        navigation_system = ns;
      })
unfolding decode
decode_fields n s p h v vd hd pd sa ns dn ds dp dh dv vvd vhd vpd vsa vns = rw (
  format8-byte_of 0 0 0 n s p h v (omega arith),
  read_opt-opt _ _ 1 vd _ refl vvd,
  read_opt-opt _ _ 1 hd _ (length-kept _ _ 2 vd refl) vhd,
  read_opt-opt _ _ 1 pd _ (length-kept _ _ 2 hd (length-kept _ _ 2 vd refl)) vpd,
  read_opt_byte-opt _ sa _ vsa,
  read_opt-opt _ _ 1 ns _ (length-kept _ _ 2 pd (length-kept _ _ 2 hd (length-kept _ _ 2 vd refl)))
      vns,
)

-- Extended position data whose optional fields are there exactly where its flags say so, and whose
-- flag byte has the same flags, are the same after encoding and decoding.
pub decode-encode_ext_pos : (e : SrExtPosData) → IsValid e → and_then (encode e) (run decode) ≡ ok e
unfolding encode
decode-encode_ext_pos e valid =
    let (n, dn, en) = flag_digit _ valid.ns.is_flag in
    let (s, ds, es) = flag_digit _ valid.sat.is_flag in
    let (p, dp, ep) = flag_digit _ valid.pdop.is_flag in
    let (h, dh, eh) = flag_digit _ valid.hdop.is_flag in
    let (v, dv, ev) = flag_digit _ valid.vdop.is_flag in
    let bits : flag_bits e ≡ digits_of 0 0 0 n s p h v = simp (en, es, ep, eh, ev) in
    let ef : e.flag_ext_pos ≡ byte_of 0 0 0 n s p h v =
      cc (valid.flags, bits, parse_flags-digits_of 0 0 0 n s p h v (omega arith)) in
    subst (λ x. and_then (encode x) (run decode) ≡ ok x)
      (λ i. record e {
        flag_ext_pos = sym ef i;
        navigation_system_field_exists = sym en i;
        satellites_field_exists = sym es i;
        pdop_field_exists = sym ep i;
        hdop_field_exists = sym eh i;
        vdop_field_exists = sym ev i;
      })
      (rw (parse_flags-digits_of 0 0 0 n s p h v (omega arith)) (
        decode_fields n s p h v e.vertical_dilution_of_precision e.horizontal_dilution_of_precision
          e.position_dilution_of_precision e.satellites e.navigation_system dn ds dp dh dv
          (IsOpt-subst 2 _ ev valid.vdop.is_opt) (IsOpt-subst 2 _ eh valid.hdop.is_opt)
          (IsOpt-subst 2 _ ep valid.pdop.is_opt) (IsOpt-subst 1 _ es valid.sat.is_opt)
          (IsOpt-subst 2 _ en valid.ns.is_opt)))
