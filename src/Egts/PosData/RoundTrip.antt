-- ===== src/Egts/PosData/RoundTrip.antt =====
-- A position survives encoding and decoding.
use nav_control.Base.{
  ◌∙◌, ℕ, ◌+◌, ◌-◌, ◌*◌, ◌%◌, ◌^◌, ◌≤◌, ◌≡◌, arith, ap, Bool, inl, inr, [], ◌∷◌, ◌++◌, take, sym,
  ◌/◌,
}
use nav_control.Egts.PosData.{
  SrPosData, IsValid, decode, encode, read_altitude, has_altitude, speed_word, join_direction,
  split_direction, direction_bit, sign_bit, low_speed, time_offset,
}
use nav_control.Egts.PosData.Bits.{speed_word-sum, join-split_direction}
use nav_control.Go.Reader.{run, value_of, value_of-continue}
use nav_control.Go.Result.{ok}
use nav_control.Go.Words.{le_uint, put_le}
use nav_control.Egts.Fields.{opt, IsOpt, le_uint-put_le}
use nav_control.Go.Float.{Float64, of_wire, to_wire, IsNear, IsAccurate, wire_max}

-- Two roundings of less than half a unit each give the angle back.
of_wire-near :
    (v w d : ℕ)
    → IsNear w (v * wire_max) (90 * 10 ^ 7)
    → IsNear d (w * (90 * 10 ^ 7)) wire_max
    → d ≡ v
of_wire-near v w d h k = omega arith

pub of_wire-to_wire :
    (f : Float64) (v : ℕ)
    → IsAccurate f f.degrees_90 90
    → v ≤ 90 * 10 ^ 7
    → of_wire f f.degrees_90 (to_wire f f.degrees_90 v) ≡ v
of_wire-to_wire f v acc h =
    of_wire-near v (to_wire f f.degrees_90 v) _ (acc.near_out v h)
      (acc.near_in (to_wire f f.degrees_90 v) (omega (arith, acc.near_out v h)))

of_wire-near_180 :
    (v w d : ℕ)
    → IsNear w (v * wire_max) (180 * 10 ^ 7)
    → IsNear d (w * (180 * 10 ^ 7)) wire_max
    → d ≡ v
of_wire-near_180 v w d h k = omega arith

pub of_wire-to_wire_180 :
    (f : Float64) (v : ℕ)
    → IsAccurate f f.degrees_180 180
    → v ≤ 180 * 10 ^ 7
    → of_wire f f.degrees_180 (to_wire f f.degrees_180 v) ≡ v
of_wire-to_wire_180 f v acc h =
    of_wire-near_180 v (to_wire f f.degrees_180 v) _ (acc.near_out v h)
      (acc.near_in (to_wire f f.degrees_180 v) (omega (arith, acc.near_out v h)))

altitude_back :
    (there : Bool) (v : ℕ)
    → IsOpt 3 there v
    → value_of (read_altitude there (opt there (take 3 (put_le 4 v)) ++ [])) ≡ ok v
unfolding read_altitude opt
altitude_back there v (inl (e, h)) = rw e (ap ok (omega arith))
altitude_back there v (inr (e, z)) = rw (e, z)

module _ (f : Float64) (acc_90 : IsAccurate f f.degrees_90 90)
    (acc_180 : IsAccurate f f.degrees_180 180) where
  -- If the float formulas are accurate to 5/8 of a unit at 90 and 180 degrees, a valid position is
  -- the same after encoding and decoding, to the last unit of its coordinates.
  pub decode-encode_pos : (e : SrPosData) → IsValid e → run (decode f) (encode f e) ≡ ok e
  unfolding decode encode
  decode-encode_pos e valid =
      value_of-continue _ _ (altitude_back (has_altitude e.flag_pos) e.altitude valid.altitude)
      ∙ ap ok (λ i. record e {
        navigation_time = time i;
        latitude = lat i;
        longitude = lon i;
        direction_highest_bit = highest i;
        altitude_sign = sign i;
        speed = speed i;
        direction = direction i;
        odometer = odometer i;
        source_data = sym valid.no_source_data i;
      })
    where
      lat_wire : ℕ
      lat_wire = to_wire f f.degrees_90 e.latitude

      lon_wire : ℕ
      lon_wire = to_wire f f.degrees_180 e.longitude

      spd : ℕ
      spd = le_uint (put_le 2 (speed_word e.speed e.direction_highest_bit e.altitude_sign))

      time :
          (le_uint (put_le 4 ((e.navigation_time + 2 ^ 32 - time_offset) % 2 ^ 32)) + time_offset)
            % 2 ^ 32
          ≡ e.navigation_time
      time =
          rw (le_uint-put_le 4 ((e.navigation_time + 2 ^ 32 - time_offset) % 2 ^ 32) (omega arith))
            (omega (arith, valid.time))

      lat : of_wire f f.degrees_90 (le_uint (put_le 4 lat_wire)) ≡ e.latitude
      lat =
          ap (of_wire f f.degrees_90) (
            le_uint-put_le 4 lat_wire
              (omega (arith, acc_90.near_out e.latitude valid.latitude, valid.latitude)))
          ∙ of_wire-to_wire f e.latitude acc_90 valid.latitude

      lon : of_wire f f.degrees_180 (le_uint (put_le 4 lon_wire)) ≡ e.longitude
      lon =
          ap (of_wire f f.degrees_180) (
            le_uint-put_le 4 lon_wire
              (omega (arith, acc_180.near_out e.longitude valid.longitude, valid.longitude)))
          ∙ of_wire-to_wire_180 f e.longitude acc_180 valid.longitude

      word : spd ≡ e.speed * 10 + e.direction_highest_bit * 2 ^ 15 + e.altitude_sign * 2 ^ 14
      word =
          let sum =
            speed_word-sum e.speed e.direction_highest_bit e.altitude_sign valid.speed valid.highest
              valid.sign in
          le_uint-put_le 2 _ (omega (arith, sum, valid.speed, valid.highest, valid.sign)) ∙ sum

      highest : direction_bit spd ≡ e.direction_highest_bit
      highest = omega (arith, word, valid.speed, valid.highest, valid.sign)

      sign : sign_bit spd ≡ e.altitude_sign
      sign = omega (arith, word, valid.speed, valid.highest, valid.sign)

      speed : low_speed spd / 10 ≡ e.speed
      speed = omega (arith, word, valid.speed, valid.highest, valid.sign)

      direction :
          join_direction (split_direction e.direction e.direction_highest_bit) (direction_bit spd)
          ≡ e.direction
      direction = rw highest (
          join-split_direction e.direction e.direction_highest_bit valid.direction valid.highest
            valid.top)

      odometer : le_uint (take 3 (put_le 4 e.odometer) ++ (0 ∷ [])) ≡ e.odometer
      odometer = omega (arith, valid.odometer)
