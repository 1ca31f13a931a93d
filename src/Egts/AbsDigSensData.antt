-- ===== src/Egts/AbsDigSensData.antt =====
-- egts_sr_abs_digit.go
use nav_control.Base.{ℕ, ◌≡◌, refl, List, [], ◌∷◌, length, if◌then◌else◌, ltb}
use nav_control.Go.Result.{Result, ok, err, and_then, bad_size, index}

pub record SrAbsDigSensData : Type 0 where
  pub state_number : ℕ
  pub number : ℕ

abbrev encoded_length : ℕ
encoded_length = 2

unfoldable pub decode : List ℕ → Result SrAbsDigSensData
decode content =
    if ltb (length content) encoded_length
    then err bad_size
    else and_then (index content 0) λ state.
      and_then (index content 1) λ number. ok (record { state_number = state; number = number })

-- The source writes `StateNumber` twice.
unfoldable pub encode : SrAbsDigSensData → List ℕ
encode e = e.state_number ∷ e.state_number ∷ []

-- What is decoded after encoding has the state number in both fields.
pub decode-encode_abs_dig :
    (e : SrAbsDigSensData) → decode (encode e) ≡ ok (record e { number = e.state_number })
unfolding encode decode
decode-encode_abs_dig e = refl
