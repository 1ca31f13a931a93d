-- ===== src/Egts/AbsAnSensData.antt =====
-- egts_sr_abs_an_sensors_data.go
use nav_control.Base.{
  ℕ, ◌/◌, ◌%◌, ◌^◌, ◌<◌, ◌≡◌, ap, List, [], ◌∷◌, length, if◌then◌else◌, arith, take, ltb,
}
use nav_control.Go.Result.{Result, ok, err, and_then, bad_size, index}
use nav_control.Go.Words.{le_uint}

pub record SrAbsAnSensData : Type 0 where
  pub sensor_number : ℕ
  pub value : ℕ

abbrev encoded_length : ℕ
encoded_length = 4

unfoldable pub decode : List ℕ → Result SrAbsAnSensData
decode content =
    if ltb (length content) encoded_length
    then err bad_size
    else and_then (index content 0)
        λ number. ok (record { sensor_number = number; value = le_uint (take 4 content) / 2 ^ 8 })

unfoldable pub encode : SrAbsAnSensData → List ℕ
encode e =
    e.sensor_number ∷ (e.value % 256) ∷ (e.value / 2 ^ 8 % 256) ∷ (e.value / 2 ^ 16 % 256) ∷ []

pub record IsValid (e : SrAbsAnSensData) : Type 0 where
  pub number : e.sensor_number < 256
  pub value : e.value < 2 ^ 24

-- A sensor number of one byte and a value of three are the same after encoding and decoding.
pub decode-encode_abs_an : (e : SrAbsAnSensData) → IsValid e → decode (encode e) ≡ ok e
unfolding encode decode
decode-encode_abs_an e valid = ap ok (λ i. record e { value = same i })
  where
    same : le_uint (take 4 (encode e)) / 2 ^ 8 ≡ e.value
    same = omega (arith, valid.number, valid.value)
