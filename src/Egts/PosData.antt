-- ===== src/Egts/PosData.antt =====
-- egts_sr_pos_data.go
pub mod Bits
pub mod RoundTrip
use nav_control.Go.Float.{Float64, of_wire, to_wire}
use nav_control.Base.{
  ℕ, ◌+◌, ◌-◌, ◌*◌, ◌/◌, ◌%◌, ◌^◌, ◌<◌, ◌≤◌, ◌≡◌, List, [], ◌∷◌, ◌++◌, if◌then◌else◌, Bool, take,
  replicate, ◌==◌, bit_and, bit_or,
}
use nav_control.Go.Reader.{Reader, ◌>>=◌, pure, read_byte, read}
use nav_control.Go.Words.{le_uint, put_le}
use nav_control.Egts.Fields.{written, opt, IsOpt}

-- `source_data` is in no byte of the subrecord, and stays zero.
pub record SrPosData : Type 0 where
  pub navigation_time : ℕ
  pub latitude : ℕ
  pub longitude : ℕ
  pub flag_pos : ℕ
  pub direction_highest_bit : ℕ
  pub altitude_sign : ℕ
  pub speed : ℕ
  pub direction : ℕ
  pub odometer : ℕ
  pub digital_inputs : ℕ
  pub source : ℕ
  pub altitude : ℕ
  pub source_data : ℕ

-- Seconds from 1970 to 2010.
abbrev pub time_offset : ℕ
time_offset = 1262304000

-- `(e.FlagPos & 128) == 128`
unfoldable pub has_altitude : ℕ → Bool
has_altitude flags = bit_and flags 128 == 128

-- `spd >> 15 & 0x1` and `spd >> 14 & 0x1`; the digits behind these two are the speed in tenths.
abbrev pub direction_bit : ℕ → ℕ
direction_bit spd = spd / 2 ^ 15 % 2

abbrev pub sign_bit : ℕ → ℕ
sign_bit spd = spd / 2 ^ 14 % 2

abbrev pub low_speed : ℕ → ℕ
low_speed spd = spd % 2 ^ 14

-- `e.Direction |= e.DirectionHighestBit << 7`, and `e.Direction &^ (e.DirectionHighestBit << 7)`
pub join_direction : ℕ → ℕ → ℕ
join_direction direction highest = bit_or direction (highest * 2 ^ 7 % 256)

pub split_direction : ℕ → ℕ → ℕ
split_direction direction highest = bit_and direction (255 - highest * 2 ^ 7 % 256)

-- `e.Speed*10 | uint16(e.DirectionHighestBit)<<15 | uint16(e.AltitudeSign)<<14`
pub speed_word : ℕ → ℕ → ℕ → ℕ
speed_word speed highest sign =
    bit_or (bit_or (speed * 10 % 2 ^ 16) (highest * 2 ^ 15 % 2 ^ 16)) (sign * 2 ^ 14 % 2 ^ 16)

-- `bytesTmpBuf = []byte{0, 0, 0, 0}; buf.Read(bytesTmpBuf)`, if the flag is set.
pub read_altitude : Bool → Reader ℕ
read_altitude there =
    if there then (do bytes ← read (replicate 4 0); pure (le_uint bytes)) else pure 0

module _ (f : Float64) where
  unfoldable pub decode : Reader SrPosData
  decode = do
    tmp₁ ← read (replicate 4 0)
    tmp₂ ← read tmp₁
    tmp₃ ← read tmp₂
    flags ← read_byte
    speed_bytes ← read (replicate 2 0)
    let spd = le_uint speed_bytes
    direction ← read_byte
    odometer ← read (replicate 3 0)
    inputs ← read_byte
    source ← read_byte
    altitude ← read_altitude (has_altitude flags)
    pure (record {
      navigation_time = (le_uint tmp₁ + time_offset) % 2 ^ 32;
      latitude = of_wire f f.degrees_90 (le_uint tmp₂);
      longitude = of_wire f f.degrees_180 (le_uint tmp₃);
      flag_pos = flags;
      direction_highest_bit = direction_bit spd;
      altitude_sign = sign_bit spd;
      speed = low_speed spd / 10;
      direction = join_direction direction (direction_bit spd);
      odometer = le_uint (odometer ++ (0 ∷ []));
      digital_inputs = inputs;
      source = source;
      altitude = altitude;
      source_data = 0;
    })

  -- The altitude is four bytes, of which three are written.
  unfoldable pub encode : SrPosData → List ℕ
  encode e = written (
      put_le 4 ((e.navigation_time + 2 ^ 32 - time_offset) % 2 ^ 32)
      ∷ put_le 4 (to_wire f f.degrees_90 e.latitude)
      ∷ put_le 4 (to_wire f f.degrees_180 e.longitude)
      ∷ (e.flag_pos ∷ [])
      ∷ put_le 2 (speed_word e.speed e.direction_highest_bit e.altitude_sign)
      ∷ (split_direction e.direction e.direction_highest_bit ∷ [])
      ∷ take 3 (put_le 4 e.odometer)
      ∷ (e.digital_inputs ∷ [])
      ∷ (e.source ∷ [])
      ∷ opt (has_altitude e.flag_pos) (take 3 (put_le 4 e.altitude))
      ∷ [])

-- The fields fit their bits, the angles lie within 90 and 180 degrees (in units of 10^-7), and the top
-- bit of the direction is set wherever `direction_highest_bit` is.
pub record IsValid (e : SrPosData) : Type 0 where
  pub time : e.navigation_time < 2 ^ 32
  pub latitude : e.latitude ≤ 90 * 10 ^ 7
  pub longitude : e.longitude ≤ 180 * 10 ^ 7
  pub highest : e.direction_highest_bit < 2
  pub sign : e.altitude_sign < 2
  pub speed : e.speed < 1639
  pub direction : e.direction < 256
  pub top : e.direction_highest_bit ≡ 1 → 128 ≤ e.direction
  pub odometer : e.odometer < 2 ^ 24
  pub altitude : IsOpt 3 (has_altitude e.flag_pos) e.altitude
  pub no_source_data : e.source_data ≡ 0
