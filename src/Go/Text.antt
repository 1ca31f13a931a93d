-- ===== src/Go/Text.antt =====
-- Go strings as bytes; `fmt.Sprintf("%08b", …)` and `strconv.ParseUint(…, 2, 8)`.
use nav_control.Base.{
  ℕ, ◌+◌, ◌-◌, ◌*◌, ◌/◌, ◌%◌, ◌<◌, ◌≡◌, refl, ap, ◌∙◌, ◌⊎◌, inl, inr, Bool, true, false, ◌&&◌, ◌||◌,
  List, [], ◌∷◌, ltb, ◌==◌, if◌then◌else◌, take, drop, arith,
}
use nav_control.Go.Result.{Result, ok, err, bad_digits}

abbrev pub Text : Type 0
Text = List ℕ

abbrev pub text_eq : Text → Text → Bool
text_eq [] [] = true
text_eq [] (d ∷ t) = false
text_eq (c ∷ s) [] = false
text_eq (c ∷ s) (d ∷ t) = c == d && text_eq s t

-- "0" and "1"
abbrev pub zero_text : Text
zero_text = b'0' ∷ []

abbrev pub one_text : Text
one_text = b'1' ∷ []

-- `s == "1"`
abbrev pub is_one : Text → Bool
is_one s = text_eq s one_text

-- `s[lo:hi]`, for bounds within the text.
abbrev pub slice : ℕ → ℕ → Text → Text
slice lo hi s = take (hi - lo) (drop lo s)

abbrev pub digit : ℕ → ℕ → ℕ
digit n d = b'0' + n / d % 2

-- `fmt.Sprintf("%08b", b)` of a byte.
unfoldable pub format8 : ℕ → Text
format8 b =
    digit b 128
    ∷ digit b 64
    ∷ digit b 32
    ∷ digit b 16
    ∷ digit b 8
    ∷ digit b 4
    ∷ digit b 2
    ∷ digit b 1
    ∷ []

-- The value that ParseUint returns, and whether it reports no error: 0 for a bad digit, the largest
-- byte for a number out of range.
pub parse_digits : ℕ → Text → ℕ × Bool
parse_digits n [] = (n, true)
parse_digits n (c ∷ s) =
    let n' = 2 * n + (c - b'0') in
    let rest = parse_digits n' s in
    if c == b'0' || c == b'1' then if ltb 255 n' then (255, false) else rest else (0, false)

-- `strconv.ParseUint(s, 2, 8)`
unfoldable pub parse_uint : Text → ℕ × Bool
unfolding parse_digits
parse_uint [] = (0, false)
parse_uint (c ∷ s) = parse_digits 0 (c ∷ s)

abbrev accept : ℕ × Bool → Result ℕ
accept (n, true) = ok n
accept (n, false) = err bad_digits

-- `if flags, err = strconv.ParseUint(s, 2, 8); err != nil { return … }`
unfoldable pub parse_flags : Text → Result ℕ
unfolding parse_uint
parse_flags s = accept (parse_uint s)

-- A field that holds "0" or "1", as the decoders make it.
abbrev pub IsFlag : Text → Type 0
IsFlag f = (f ≡ zero_text) ⊎ (f ≡ one_text)

pub flag_digit : (f : Text) → IsFlag f → (d : ℕ) × (d < 2) × (f ≡ (b'0' + d) ∷ [])
flag_digit f (inl e) = (0, omega arith, e)
flag_digit f (inr e) = (1, omega arith, e)

parse_digits-digit :
    (n d : ℕ) (s : Text)
    → d < 2
    → 2 * n + d < 256
    → parse_digits n ((b'0' + d) ∷ s) ≡ parse_digits (2 * n + d) s
unfolding parse_digits
parse_digits-digit n d s h fits = ground arith

-- ParseUint of eight digits, and Sprintf of the byte that it gives.
module _ (a b c d e f g h : ℕ) where
  abbrev pub byte_of : ℕ
  byte_of = 2 * (2 * (2 * (2 * (2 * (2 * (2 * (2 * 0 + a) + b) + c) + d) + e) + f) + g) + h

  abbrev pub digits_of : Text
  digits_of =
      (b'0' + a)
      ∷ (b'0' + b)
      ∷ (b'0' + c)
      ∷ (b'0' + d)
      ∷ (b'0' + e)
      ∷ (b'0' + f)
      ∷ (b'0' + g)
      ∷ (b'0' + h)
      ∷ []

  abbrev pub AreDigits : Type 0
  AreDigits = (a < 2) × (b < 2) × (c < 2) × (d < 2) × (e < 2) × (f < 2) × (g < 2) × (h < 2)

  parse_digits-digits_of : AreDigits → parse_digits 0 digits_of ≡ (byte_of, true)
  parse_digits-digits_of (pa, pb, pc, pd, pe, pf, pg, ph) =
      parse_digits-digit (0) a _ pa (omega arith)
      ∙ parse_digits-digit (2 * (0) + a) b _ pb (omega arith)
      ∙ parse_digits-digit (2 * (2 * (0) + a) + b) c _ pc (omega arith)
      ∙ parse_digits-digit (2 * (2 * (2 * (0) + a) + b) + c) d _ pd (omega arith)
      ∙ parse_digits-digit (2 * (2 * (2 * (2 * (0) + a) + b) + c) + d) e _ pe (omega arith)
      ∙ parse_digits-digit (2 * (2 * (2 * (2 * (2 * (0) + a) + b) + c) + d) + e) f _ pf
          (omega arith)
      ∙ parse_digits-digit (2 * (2 * (2 * (2 * (2 * (2 * (0) + a) + b) + c) + d) + e) + f) g _ pg
          (omega arith)
      ∙ parse_digits-digit (2 * (2 * (2 * (2 * (2 * (2 * (2 * (0) + a) + b) + c) + d) + e) + f) + g)
          h _ ph (omega arith)
      ∙ unfold parse_digits in refl

  pub parse_uint-digits_of : AreDigits → parse_uint digits_of ≡ (byte_of, true)
  unfolding parse_uint
  parse_uint-digits_of h = parse_digits-digits_of h

  pub parse_flags-digits_of : AreDigits → parse_flags digits_of ≡ ok byte_of
  unfolding parse_flags
  parse_flags-digits_of h = ap accept (parse_digits-digits_of h)

  pub format8-byte_of : AreDigits → format8 byte_of ≡ digits_of
  unfolding format8
  format8-byte_of (pa, pb, pc, pd, pe, pf, pg, ph) = ground arith

-- The text of a byte, as the decoders keep it, is read back to the byte.
pub parse_flags-format8 : (b : ℕ) → b < 256 → parse_flags (format8 b) ≡ ok b
unfolding format8
parse_flags-format8 b h =
    parse_flags-digits_of (b / 128 % 2) (b / 64 % 2) (b / 32 % 2) (b / 16 % 2) (b / 8 % 2)
      (b / 4 % 2) (b / 2 % 2) (b / 1 % 2) (omega arith)
    ∙ ap ok (omega arith)

pub parse_flags-zero_text : parse_flags zero_text ≡ ok 0
unfolding parse_flags parse_digits
parse_flags-zero_text = refl

pub parse_flags-one_text : parse_flags one_text ≡ ok 1
unfolding parse_flags parse_digits
parse_flags-one_text = refl

pub last-format8-zero : slice 7 8 (format8 0) ≡ zero_text
unfolding format8
last-format8-zero = refl

pub last-format8-one : slice 7 8 (format8 1) ≡ one_text
unfolding format8
last-format8-one = refl
