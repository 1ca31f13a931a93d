-- ===== src/Go/Lines.antt =====
-- Files as lines, and strings.Split on a line break.
use nav_control.Base.{
  ℕ, zero, suc, ◌≤◌, ◌<◌, ◌≡◌, ◌≢◌, refl, sym, ap, ◌∙◌, List, [], ◌∷◌, ◌++◌, length, take, drop,
  append_assoc, false, if◌then◌else◌, ◌==◌, arith, All,
}
use nav_control.Go.Text.{Text}

-- `strings.Split(s, "\n")`: one text more than there are separators.
unfoldable pub add_byte : ℕ → List Text → List Text
add_byte b [] = (b ∷ []) ∷ []
add_byte b (t ∷ ts) = (b ∷ t) ∷ ts

unfoldable pub split_lines : Text → List Text
split_lines [] = [] ∷ []
split_lines (b ∷ s) = let rest = split_lines s in if b == b'\n' then [] ∷ rest else add_byte b rest

-- A line of a file: not empty, and with no line break.
pub record IsLine (t : Text) : Type 0 where
  pub some_bytes : 0 < length t
  pub no_break : All (λ b. b ≢ b'\n') t

-- The contents of a file with these lines.
unfoldable pub written : List Text → Text
written [] = []
written (t ∷ ts) = t ++ ((b'\n' ∷ []) ++ written ts)

pub written-append : (ts us : List Text) → written (ts ++ us) ≡ written ts ++ written us
unfolding written
written-append [] us = refl
written-append (t ∷ ts) us =
    ap (λ s. t ++ (b'\n' ∷ s)) (written-append ts us)
    ∙ sym (append_assoc t (b'\n' ∷ written ts) (written us))

split_lines-line :
    (t s : Text) → All (λ b. b ≢ b'\n') t → split_lines (t ++ (b'\n' ∷ s)) ≡ t ∷ split_lines s
unfolding split_lines add_byte
split_lines-line [] s h = refl
split_lines-line (b ∷ t) s (h, hs) =
    let other : (b == b'\n') ≡ false = ground (arith, h) in rw (other, split_lines-line t s hs) refl

pub split_lines-written :
    (ts : List Text) → All IsLine ts → split_lines (written ts) ≡ ts ++ ([] ∷ [])
unfolding written
split_lines-written [] h = unfold split_lines in refl
split_lines-written (t ∷ ts) (h, hs) =
    split_lines-line t (written ts) h.no_break ∙ ap (◌∷◌ t) (split_lines-written ts hs)

pub take-all : (k : ℕ) (s : Text) → length s ≤ k → take k s ≡ s
take-all zero [] h = refl
take-all zero (b ∷ s) h = absurd (omega (arith, h))
take-all (suc k) [] h = refl
take-all (suc k) (b ∷ s) h = ap (◌∷◌ b) (take-all k s (omega (arith, h)))

pub drop-all : (k : ℕ) (s : Text) → length s ≤ k → drop k s ≡ []
drop-all zero [] h = refl
drop-all zero (b ∷ s) h = absurd (omega (arith, h))
drop-all (suc k) [] h = refl
drop-all (suc k) (b ∷ s) h = drop-all k s (omega (arith, h))
