-- ===== src/Egts/StateData.antt =====
-- egts_sr_state_data.go
use nav_control.Base.{ℕ, ◌≡◌, sym, List, [], ◌∷◌, ◌++◌, arith, subst}
use nav_control.Go.Result.{Result, ok, and_then}
use nav_control.Go.Reader.{Reader, ◌>>=◌, pure, read_byte, run}
use nav_control.Go.Text.{
  Text, slice, format8, parse_flags, flag_digit, parse_flags-digits_of, format8-byte_of, IsFlag,
}

pub record SrStateData : Type 0 where
  pub state : ℕ
  pub main_power_source_voltage : ℕ
  pub back_up_battery_voltage : ℕ
  pub internal_battery_voltage : ℕ
  pub nms : Text
  pub ibu : Text
  pub bbu : Text

unfoldable pub decode : Reader SrStateData
decode = do
  state ← read_byte
  main ← read_byte
  back_up ← read_byte
  internal ← read_byte
  flags ← read_byte
  let bits = format8 flags
  pure (record {
    state = state;
    main_power_source_voltage = main;
    back_up_battery_voltage = back_up;
    internal_battery_voltage = internal;
    nms = slice 5 6 bits;
    ibu = slice 6 7 bits;
    bbu = slice 7 8 bits;
  })

unfoldable pub encode : SrStateData → Result (List ℕ)
encode e =
    and_then (parse_flags (b'0' ∷ b'0' ∷ b'0' ∷ b'0' ∷ b'0' ∷ (e.nms ++ (e.ibu ++ e.bbu)))) λ flags.
      ok (
        e.state ∷ e.main_power_source_voltage ∷ e.back_up_battery_voltage
        ∷ e.internal_battery_voltage ∷ flags ∷ [])

pub record IsValid (e : SrStateData) : Type 0 where
  pub nms : IsFlag e.nms
  pub ibu : IsFlag e.ibu
  pub bbu : IsFlag e.bbu

-- State data whose three flags are digits are the same after encoding and decoding.
pub decode-encode_state_data :
    (e : SrStateData) → IsValid e → and_then (encode e) (run decode) ≡ ok e
unfolding encode decode
decode-encode_state_data e valid =
    let (n, dn, en) = flag_digit _ valid.nms in
    let (i, di, ei) = flag_digit _ valid.ibu in
    let (b, db, eb) = flag_digit _ valid.bbu in
    subst (λ x. and_then (encode x) (run decode) ≡ ok x)
      (λ j. record e { nms = sym en j; ibu = sym ei j; bbu = sym eb j })
      (rw (
        parse_flags-digits_of 0 0 0 0 0 n i b (omega arith),
        format8-byte_of 0 0 0 0 0 n i b (omega arith),
      ))
