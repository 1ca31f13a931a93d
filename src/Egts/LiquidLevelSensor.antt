-- ===== src/Egts/LiquidLevelSensor.antt =====
-- egts_sr_liquid_level_sensor.go
use nav_control.Base.{ℕ, ◌^◌, ◌<◌, ◌≡◌, ap, List, [], ◌∷◌, replicate}
use nav_control.Go.Result.{ok}
use nav_control.Go.Reader.{Reader, ◌>>=◌, pure, read_byte, read, run}
use nav_control.Go.Words.{le_uint, put_le}
use nav_control.Egts.Fields.{written, le_uint-put_le}

pub record SrLiquidLevelSensor : Type 0 where
  pub flag_liq : ℕ
  pub module_address : ℕ
  pub liquid_level_sensor_data : ℕ

unfoldable pub decode : Reader SrLiquidLevelSensor
decode = do
  flags ← read_byte
  address ← read (replicate 2 0)
  level ← read (replicate 4 0)
  pure (record {
    flag_liq = flags;
    module_address = le_uint address;
    liquid_level_sensor_data = le_uint level;
  })

unfoldable pub encode : SrLiquidLevelSensor → List ℕ
encode e =
    written
      ((e.flag_liq ∷ []) ∷ put_le 2 e.module_address ∷ put_le 4 e.liquid_level_sensor_data ∷ [])

pub record IsValid (e : SrLiquidLevelSensor) : Type 0 where
  pub address : e.module_address < 2 ^ 16
  pub level : e.liquid_level_sensor_data < 2 ^ 32

-- A liquid level subrecord whose numbers fit their bytes is the same after encoding and decoding.
pub decode-encode_liquid : (e : SrLiquidLevelSensor) → IsValid e → run decode (encode e) ≡ ok e
unfolding encode decode
decode-encode_liquid e valid = ap ok (λ i. record e {
  module_address = le_uint-put_le 2 e.module_address valid.address i;
  liquid_level_sensor_data = le_uint-put_le 4 e.liquid_level_sensor_data valid.level i;
})
