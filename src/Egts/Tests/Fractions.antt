-- ===== src/Egts/Tests/Fractions.antt =====
-- A Float64 that computes with exact fractions, which meets the accuracy that the codecs need.
use nav_control.Base.{ℕ, ◌+◌, ◌*◌, ◌/◌, ◌^◌, arith}
use nav_control.Go.Float.{Float64, IsAccurate, wire_max}

abbrev Fraction : Type 0
Fraction = ℕ × ℕ

abbrev round_fraction : Fraction → Fraction
round_fraction (n, d) = ((2 * n + d) / (2 * d), 1)

-- The exact fractions.
abbrev pub fractions : Float64
fractions = record {
  Carrier = Fraction;
  of_uint = λ v. (v, 1);
  mul = λ (x : Fraction) (y : Fraction). (x.0 * y.0, x.1 * y.1);
  div = λ (x : Fraction) (y : Fraction). (x.0 * y.1, x.1 * y.0);
  round = round_fraction;
  to_uint32 = λ (x : Fraction). x.0 / x.1;
  degrees_90 = (90, 1);
  degrees_180 = (180, 1);
  pos_to_int = (wire_max, 10 ^ 7);
}

pub fractions-IsAccurate-90 : IsAccurate fractions fractions.degrees_90 90
fractions-IsAccurate-90 = record { near_in = λ v h. omega arith; near_out = λ v h. omega arith }

pub fractions-IsAccurate-180 : IsAccurate fractions fractions.degrees_180 180
fractions-IsAccurate-180 = record { near_in = λ v h. omega arith; near_out = λ v h. omega arith }
