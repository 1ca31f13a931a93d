-- ===== src/Go/Reader.antt =====
-- bytes.Reader and bytes.Buffer: the bytes that are still to be read.
use nav_control.Base.{
  ℕ, List, [], ◌∷◌, ◌++◌, length, take, drop, ◌≡◌, ◌≢◌, ap, All, ◌==◌, if◌then◌else◌, arith,
}
use nav_control.Go.Result.{Result, ok, err, panic, stuck, eof}

abbrev pub Reader {ℓ} : Type ℓ → Type ℓ
Reader A = List ℕ → Result (A × List ℕ)

abbrev pub continue {ℓ κ} :
    {A : Type ℓ} {B : Type κ} → Result (A × List ℕ) → (A → Reader B) → Result (B × List ℕ)
continue (ok (a, rest)) f = f a rest
continue (err e) f = err e
continue panic f = panic
continue stuck f = stuck

infixl 5 ◌>>=◌
abbrev pub ◌>>=◌ {ℓ κ} : {A : Type ℓ} {B : Type κ} → Reader A → (A → Reader B) → Reader B
◌>>=◌ m f s = continue (m s) f

abbrev pub pure {ℓ} : {A : Type ℓ} → A → Reader A
pure a s = ok (a, s)

-- `buf.ReadByte()`
abbrev pub read_byte : Reader ℕ
read_byte [] = err eof
read_byte (b ∷ rest) = ok (b, rest)

-- `copy(p, src)`: what is beyond the source keeps its old contents.
abbrev pub copy : List ℕ → List ℕ → List ℕ
copy [] src = []
copy (o ∷ old) [] = o ∷ old
copy (o ∷ old) (b ∷ src) = b ∷ copy old src

-- `buf.Read(p)`: at the end it fails, and otherwise it reads as much as there is, up to len(p).
-- A short read is no error, and leaves the end of `p` as it was.
abbrev pub read : List ℕ → Reader (List ℕ)
read p [] = err eof
read p (b ∷ rest) = ok (copy p (b ∷ rest), drop (length p) (b ∷ rest))

-- `buf.Next(n)`: at most n bytes, and no error.
abbrev pub next : ℕ → Reader (List ℕ)
next n s = ok (take n s, drop n s)

abbrev pub value_of {ℓ} : {A : Type ℓ} → Result (A × List ℕ) → Result A
value_of (ok (a, rest)) = ok a
value_of (err e) = err e
value_of panic = panic
value_of stuck = stuck

-- A decoder runs over its whole slice; what it leaves unread is dropped.
abbrev pub run {ℓ} : {A : Type ℓ} → Reader A → List ℕ → Result A
run m s = value_of (m s)

-- `buf.ReadString(sep)`: up to and with the first separator; without one it fails.
pub read_string : ℕ → Reader (List ℕ)
read_string sep [] = err eof
read_string sep (b ∷ rest) =
    let more = continue (read_string sep rest) (λ t. pure (b ∷ t)) in
    if b == sep then ok (b ∷ [], rest) else more

-- `strings.TrimSuffix(s, sep)` for a separator of one byte.
pub trim_suffix : ℕ → List ℕ → List ℕ
trim_suffix sep [] = []
trim_suffix sep (b ∷ []) = if b == sep then [] else b ∷ []
trim_suffix sep (b ∷ c ∷ t) = b ∷ trim_suffix sep (c ∷ t)

-- A text without the separator is read back, and what follows it is left.
pub read_string-append :
    (sep : ℕ) (t rest : List ℕ)
    → All (λ b. b ≢ sep) t
    → read_string sep (t ++ (sep ∷ rest)) ≡ ok (t ++ (sep ∷ []), rest)
unfolding read_string
read_string-append sep [] rest h = ground arith
read_string-append sep (b ∷ t) rest h = ground (arith, h.0, read_string-append sep t rest h.1)

pub trim_suffix-append : (sep : ℕ) (t : List ℕ) → trim_suffix sep (t ++ (sep ∷ [])) ≡ t
unfolding trim_suffix
trim_suffix-append sep [] = ground arith
trim_suffix-append sep (b ∷ []) = ground arith
trim_suffix-append sep (b ∷ c ∷ t) = ap (◌∷◌ b) (trim_suffix-append sep (c ∷ t))

-- A last step that reads the rest of the slice.
pub value_of-continue {ℓ κ} :
    {A : Type ℓ} {B : Type κ} (m : Result (A × List ℕ)) (g : A → B) {a : A}
    → value_of m ≡ ok a
    → value_of (continue m (λ x. pure (g x))) ≡ ok (g a)
value_of-continue (ok (x, rest)) g e = ground (arith)
value_of-continue (err x) g e = cc
value_of-continue panic g e = cc
value_of-continue stuck g e = cc
