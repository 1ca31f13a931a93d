-- ===== src/Go/Float.antt =====
-- Go's float64 as far as the program uses it: a conversion, two operations and two roundings, on a
-- type that the model leaves open.
use nav_control.Base.{ℕ, ◌+◌, ◌*◌, ◌^◌, ◌<◌, ◌≤◌}

pub record Float64 : Type 1 where
  pub Carrier : Type 0
  pub of_uint : ℕ → Carrier
  pub mul : Carrier → Carrier → Carrier
  pub div : Carrier → Carrier → Carrier
  pub round : Carrier → Carrier
  pub to_uint32 : Carrier → ℕ
  pub degrees_90 : Carrier
  pub degrees_180 : Carrier
  pub pos_to_int : Carrier

-- 429.4967295 = 0xFFFFFFFF / 10^7
abbrev pub wire_max : ℕ
wire_max = 4294967295

-- `uint32(math.Round(float64(v) * limit / Pos2int))`
abbrev pub of_wire : (f : Float64) → f.Carrier → ℕ → ℕ
of_wire f limit v = f.to_uint32 (f.round (f.div (f.mul (f.of_uint v) limit) f.pos_to_int))

-- `uint32(math.Round(float64(v) / limit * Pos2int))`
abbrev pub to_wire : (f : Float64) → f.Carrier → ℕ → ℕ
to_wire f limit v = f.to_uint32 (f.round (f.mul (f.div (f.of_uint v) limit) f.pos_to_int))

-- x / y is at most 5/8 away from the natural number w: half for the rounding to a whole number, and
-- an eighth for all that the float operations before it lose.
abbrev pub IsNear : ℕ → ℕ → ℕ → Type 0
IsNear w x y = (8 * (w * y) ≤ 8 * x + 5 * y) × (8 * x ≤ 8 * (w * y) + 5 * y)

-- The accuracy of the two formulas at a limit of so many degrees. The arguments are a uint32 on the
-- way in, and an angle in units of 10^-7 degrees, within the limit, on the way out.
pub record IsAccurate (f : Float64) (limit : f.Carrier) (degrees : ℕ) : Type 0 where
  pub near_in : (v : ℕ) → v < 2 ^ 32 → IsNear (of_wire f limit v) (v * (degrees * 10 ^ 7)) wire_max
  pub near_out :
      (v : ℕ) → v ≤ degrees * 10 ^ 7 → IsNear (to_wire f limit v) (v * wire_max) (degrees * 10 ^ 7)
