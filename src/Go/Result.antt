-- ===== src/Go/Result.antt =====
-- The outcome of a Go function: a value, a non-nil error, or a panic.
use nav_control.Base.{ℕ, List, Option, none, some, get_elem?, ◌≡◌, refl}

-- Why a call failed. The message texts of the source only name the field that was read.
pub data Error : Type 0 where
  eof : Error
  bad_digits : Error
  bad_size : Error
  unknown_type : Error
  no_key : Error
  bad_cipher : Error
  header_sum : Error
  body_sum : Error
  no_door : Error

-- `stuck` is no Go outcome: a loop of the model ran out of fuel.
pub data Result {ℓ} (A : Type ℓ) : Type ℓ where
  ok : A → Result A
  err : Error → Result A
  panic : Result A
  stuck : Result A

-- `v, err := m; if err != nil { return err }; …`
abbrev pub and_then {ℓ κ} : {A : Type ℓ} {B : Type κ} → Result A → (A → Result B) → Result B
and_then (ok a) f = f a
and_then (err e) f = err e
and_then panic f = panic
and_then stuck f = stuck

-- `s[i]`
abbrev pub index : List ℕ → ℕ → Result ℕ
index s i = found (get_elem? s i)
  where
    found : Option ℕ → Result ℕ
    found none = panic
    found (some b) = ok b

-- A chain that succeeds had every part succeed.
pub and_then-eq-ok {ℓ κ} :
    {A : Type ℓ} {B : Type κ} (m : Result A) (f : A → Result B) {b : B}
    → and_then m f ≡ ok b
    → (a : A) × (m ≡ ok a) × (f a ≡ ok b)
and_then-eq-ok (ok a) f h = (a, refl, h)
and_then-eq-ok (err e) f h = cc
and_then-eq-ok panic f h = cc
and_then-eq-ok stuck f h = cc
