-- ===== src/Egts/AdSensorsData.antt =====
-- egts_sr_ad_sensors_data.go
use nav_control.Base.{
  ℕ, zero, suc, ◌+◌, ◌/◌, ◌%◌, ◌^◌, ◌≡◌, refl, sym, List, [], ◌∷◌, ◌++◌, length, Bool, append_assoc,
  append-nil, replicate, ◌==◌,
}
use nav_control.Go.Result.{ok}
use nav_control.Go.Reader.{Reader, ◌>>=◌, pure, read_byte, run}
use nav_control.Go.Words.{put_le}
use nav_control.Egts.Fields.{
  opt, read_opt, read_opt_byte, IsOpt, kept, length-kept, read_opt-opt, read_opt_byte-opt,
}

-- The two arrays have eight elements.
pub record SrAdSensorsData : Type 0 where
  pub digital_inputs_octet_exists : ℕ
  pub digital_outputs : ℕ
  pub analog_sensor_field_exists : ℕ
  pub additional_digital_inputs_octet : List ℕ
  pub analog_sensors : List ℕ

-- `(flags >> i & 0x1) == 1`
abbrev pub bit : ℕ → ℕ → Bool
bit flags i = flags / 2 ^ i % 2 == 1

-- The loops over i, with the rounds that are left. An element that is not read stays zero.
pub read_octets : ℕ → ℕ → ℕ → Reader (List ℕ)
read_octets zero i flags = pure []
read_octets (suc n) i flags = do
  octet ← read_opt_byte (bit flags i)
  octets ← read_octets n (i + 1) flags
  pure (octet ∷ octets)

-- `tmp` is read into in each round, and a zero byte put on top.
pub read_sensors : ℕ → ℕ → ℕ → List ℕ → Reader (List ℕ)
read_sensors zero i flags tmp = pure []
read_sensors (suc n) i flags tmp = do
  (tmp', sensor) ← read_opt (bit flags i) tmp
  sensors ← read_sensors n (i + 1) flags tmp'
  pure (sensor ∷ sensors)

unfoldable pub decode : Reader SrAdSensorsData
decode = do
  dioe ← read_byte
  outputs ← read_byte
  asfe ← read_byte
  octets ← read_octets 8 0 dioe
  sensors ← read_sensors 8 0 asfe (replicate 3 0)
  pure (record {
    digital_inputs_octet_exists = dioe;
    digital_outputs = outputs;
    analog_sensor_field_exists = asfe;
    additional_digital_inputs_octet = octets;
    analog_sensors = sensors;
  })

-- The loops over the elements of an array, from index i on.
unfoldable pub write_octets : ℕ → ℕ → List ℕ → List ℕ
write_octets i flags [] = []
write_octets i flags (octet ∷ octets) =
    opt (bit flags i) (octet ∷ []) ++ write_octets (i + 1) flags octets

unfoldable pub write_sensors : ℕ → ℕ → List ℕ → List ℕ
write_sensors i flags [] = []
write_sensors i flags (sensor ∷ sensors) =
    opt (bit flags i) (put_le 3 sensor) ++ write_sensors (i + 1) flags sensors

unfoldable pub encode : SrAdSensorsData → List ℕ
encode e =
    e.digital_inputs_octet_exists
    ∷ e.digital_outputs
    ∷ e.analog_sensor_field_exists
    ∷ (write_octets 0 e.digital_inputs_octet_exists e.additional_digital_inputs_octet
        ++ write_sensors 0 e.analog_sensor_field_exists e.analog_sensors)

-- Element i fits n bytes if bit i is set, and is zero otherwise.
abbrev pub AreFields : ℕ → ℕ → ℕ → List ℕ → Type 0
AreFields n i flags [] = Unit {0}
AreFields n i flags (v ∷ vs) = IsOpt n (bit flags i) v × AreFields n (i + 1) flags vs

pub record IsValid (e : SrAdSensorsData) : Type 0 where
  pub octets : AreFields 1 0 e.digital_inputs_octet_exists e.additional_digital_inputs_octet
  pub sensors : AreFields 3 0 e.analog_sensor_field_exists e.analog_sensors
  pub eight_octets : length e.additional_digital_inputs_octet ≡ 8
  pub eight_sensors : length e.analog_sensors ≡ 8

read_octets-write_octets :
    (i flags : ℕ) (vs rest : List ℕ)
    → AreFields 1 i flags vs
    → read_octets (length vs) i flags (write_octets i flags vs ++ rest) ≡ ok (vs, rest)
unfolding read_octets write_octets
read_octets-write_octets i flags [] rest h = refl
read_octets-write_octets i flags (v ∷ vs) rest (h, hs) = rw (
  append_assoc (opt (bit flags i) (v ∷ [])) (write_octets (i + 1) flags vs) rest,
  read_opt_byte-opt (bit flags i) v (write_octets (i + 1) flags vs ++ rest) h,
  read_octets-write_octets (i + 1) flags vs rest hs,
)

read_sensors-write_sensors :
    (i flags : ℕ) (vs rest tmp : List ℕ)
    → length tmp ≡ 3
    → AreFields 3 i flags vs
    → read_sensors (length vs) i flags tmp (write_sensors i flags vs ++ rest) ≡ ok (vs, rest)
unfolding read_sensors write_sensors
read_sensors-write_sensors i flags [] rest tmp l h = refl
read_sensors-write_sensors i flags (v ∷ vs) rest tmp l (h, hs) = rw (
  append_assoc (opt (bit flags i) (put_le 3 v)) (write_sensors (i + 1) flags vs) rest,
  read_opt-opt (bit flags i) tmp 2 v (write_sensors (i + 1) flags vs ++ rest) l h,
  read_sensors-write_sensors (i + 1) flags vs rest (kept (bit flags i) tmp (put_le 3 v))
      (length-kept (bit flags i) tmp 3 v l) hs,
)

-- The decoder of the loops alone, for arrays of any length.
decode_arrays : ℕ → ℕ → ℕ → ℕ → ℕ → Reader SrAdSensorsData
decode_arrays m n dioe outputs asfe = do
  octets ← read_octets m 0 dioe
  sensors ← read_sensors n 0 asfe (replicate 3 0)
  pure (record {
    digital_inputs_octet_exists = dioe;
    digital_outputs = outputs;
    analog_sensor_field_exists = asfe;
    additional_digital_inputs_octet = octets;
    analog_sensors = sensors;
  })

decode_arrays-write :
    (e : SrAdSensorsData) (m n : ℕ)
    → length e.additional_digital_inputs_octet ≡ m
    → length e.analog_sensors ≡ n
    → IsValid e
    → run
        (decode_arrays m n e.digital_inputs_octet_exists e.digital_outputs
          e.analog_sensor_field_exists)
        (write_octets 0 e.digital_inputs_octet_exists e.additional_digital_inputs_octet
          ++ write_sensors 0 e.analog_sensor_field_exists e.analog_sensors)
      ≡ ok e
unfolding decode_arrays
decode_arrays-write e m n em en valid = rw (
  ← em,
  ← en,
  read_octets-write_octets 0 e.digital_inputs_octet_exists e.additional_digital_inputs_octet
      (write_sensors 0 e.analog_sensor_field_exists e.analog_sensors) valid.octets,
  sym (append-nil (write_sensors 0 e.analog_sensor_field_exists e.analog_sensors)),
  read_sensors-write_sensors 0 e.analog_sensor_field_exists e.analog_sensors [] (replicate 3 0) refl
      valid.sensors,
)

-- Inputs and sensors that are zero where their bit is not set, and fit one and three bytes where it
-- is, are the same after encoding and decoding.
pub decode-encode_ad_sensors : (e : SrAdSensorsData) → IsValid e → run decode (encode e) ≡ ok e
unfolding encode decode decode_arrays
decode-encode_ad_sensors e valid =
    decode_arrays-write e 8 8 valid.eight_octets valid.eight_sensors valid
