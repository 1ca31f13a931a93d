-- ===== src/Egts/Fields.antt =====
-- Optional fields: a record says by a flag "1" whether a field is in the bytes.
use nav_control.Base.{
  sym, length-replicate, replicate, ℕ, zero, suc, ◌/◌, ◌%◌, ◌^◌, ◌<◌, ◌≡◌, refl, ap, ap₂, subst,
  ◌∙◌, ◌⊎◌, inl, inr, List, [], ◌∷◌, ◌++◌, length, if◌then◌else◌, Bool, true, false, arith, drop,
}
use nav_control.Go.Result.{ok}
use nav_control.Go.Reader.{◌>>=◌, Reader, continue, pure, read_byte, read, copy}
use nav_control.Go.Words.{le_uint, put_le}
use nav_control.Go.Text.{Text, is_one, IsFlag}

-- A read of a whole slice takes exactly its length.
pub copy-append : (p bs rest : List ℕ) → length p ≡ length bs → copy p (bs ++ rest) ≡ bs
copy-append [] [] rest e = refl
copy-append [] (b ∷ bs) rest e = absurd (omega arith)
copy-append (o ∷ p) [] rest e = absurd (omega arith)
copy-append (o ∷ p) (b ∷ bs) rest e = ap (◌∷◌ b) (copy-append p bs rest (omega arith))

pub drop-append : (p bs rest : List ℕ) → length p ≡ length bs → drop (length p) (bs ++ rest) ≡ rest
drop-append [] [] rest e = refl
drop-append [] (b ∷ bs) rest e = absurd (omega arith)
drop-append (o ∷ p) [] rest e = absurd (omega arith)
drop-append (o ∷ p) (b ∷ bs) rest e = drop-append p bs rest (omega arith)

pub read-append :
    (p : List ℕ) (b : ℕ) (bs rest : List ℕ)
    → length p ≡ suc (length bs)
    → read p ((b ∷ bs) ++ rest) ≡ ok (b ∷ bs, rest)
read-append p b bs rest e =
    ap₂ (λ c d. ok (c, d)) (copy-append p (b ∷ bs) rest e) (drop-append p (b ∷ bs) rest e)

pub length-put_le : (n v : ℕ) → length (put_le n v) ≡ n
length-put_le zero v = refl
length-put_le (suc n) v = ap suc (length-put_le n (v / 256))

pub le_uint-put_le : (n v : ℕ) → v < 256 ^ n → le_uint (put_le n v) ≡ v
le_uint-put_le zero v h = omega arith
le_uint-put_le (suc n) v h = omega (arith, le_uint-put_le n (v / 256) (grind (arith)))

-- The bytes that successive writes to a bytes.Buffer leave in it.
abbrev pub written : List (List ℕ) → List ℕ
written [] = []
written (bs ∷ more) = bs ++ written more

-- `if there { buf.Write(bs) }`
unfoldable pub opt : Bool → List ℕ → List ℕ
opt there bs = if there then bs else []

-- `if there { buf.Read(tmp); field = Uint(tmp) }` on a fresh struct. The slice `tmp` is shared by the
-- fields of one decoder.
pub read_opt : Bool → List ℕ → Reader (List ℕ × ℕ)
read_opt there tmp = if there then (do t ← read tmp; pure (t, le_uint t)) else pure (tmp, 0)

-- `if there { field = buf.ReadByte() }`
pub read_opt_byte : Bool → Reader ℕ
read_opt_byte there = if there then read_byte else pure 0

-- A field of n bytes that is present and fits them, or absent and zero.
abbrev pub IsOpt : ℕ → Bool → ℕ → Type 0
IsOpt n there v = ((there ≡ true) × (v < 256 ^ n)) ⊎ ((there ≡ false) × (v ≡ 0))

-- The same of a field whose presence a flag of the struct tells.
pub record IsField (n : ℕ) (flag : Text) (v : ℕ) : Type 0 where
  pub is_flag : IsFlag flag
  pub is_opt : IsOpt n (is_one flag) v

pub IsOpt-subst : (n v : ℕ) {f g : Text} → f ≡ g → IsOpt n (is_one f) v → IsOpt n (is_one g) v
IsOpt-subst n v e = subst (λ t. IsOpt n (is_one t) v) e

-- What the shared slice holds after an optional read.
pub kept : Bool → List ℕ → List ℕ → List ℕ
kept there tmp bs = if there then bs else tmp

pub length-kept :
    (there : Bool) (tmp : List ℕ) (n v : ℕ)
    → length tmp ≡ n
    → length (kept there tmp (put_le n v)) ≡ n
unfolding kept
length-kept there tmp n v e = ground (arith, length-put_le n v)

-- A read takes back what a write of the same field left, and nothing of what follows.
pub read_opt-opt :
    (there : Bool) (tmp : List ℕ) (n v : ℕ) (rest : List ℕ)
    → length tmp ≡ suc n
    → IsOpt (suc n) there v
    → read_opt there tmp (opt there (put_le (suc n) v) ++ rest)
      ≡ ok ((kept there tmp (put_le (suc n) v), v), rest)
unfolding read_opt opt kept
read_opt-opt there tmp n v rest e (inl (f, h)) = rw f (
    ap (λ r. continue r (λ t. pure (t, le_uint t)))
      (read-append tmp (v % 256) (put_le n (v / 256)) rest
        (omega (arith, length-put_le n (v / 256))))
    ∙ ap (λ w. ok ((put_le (suc n) v, w), rest)) (le_uint-put_le (suc n) v h))
read_opt-opt there tmp n v rest e (inr (f, z)) = rw (f, z)

pub read_opt_byte-opt :
    (there : Bool) (v : ℕ) (rest : List ℕ)
    → IsOpt 1 there v
    → read_opt_byte there (opt there (v ∷ []) ++ rest) ≡ ok (v, rest)
unfolding read_opt_byte opt
read_opt_byte-opt there v rest (inl (f, h)) = rw f
read_opt_byte-opt there v rest (inr (f, z)) = rw (f, z)

-- `tmp = make([]byte, n); buf.Read(tmp); field = string(tmp)`
pub read_opt_bytes : Bool → ℕ → Reader (List ℕ)
read_opt_bytes there n = if there then read (replicate n 0) else pure []

-- A text of exactly n bytes that is present, or an absent and empty one.
abbrev pub IsOptBytes : ℕ → Bool → List ℕ → Type 0
IsOptBytes n there t = ((there ≡ true) × (length t ≡ n)) ⊎ ((there ≡ false) × (t ≡ []))

pub record IsBytesField (n : ℕ) (flag t : Text) : Type 0 where
  pub is_flag : IsFlag flag
  pub is_opt : IsOptBytes n (is_one flag) t

pub IsOptBytes-subst :
    (n : ℕ) (t : List ℕ) {f g : Text}
    → f ≡ g
    → IsOptBytes n (is_one f) t
    → IsOptBytes n (is_one g) t
IsOptBytes-subst n t e = subst (λ x. IsOptBytes n (is_one x) t) e

read-exact :
    (n : ℕ) (t rest : List ℕ)
    → length t ≡ suc n
    → read (replicate (suc n) 0) (t ++ rest) ≡ ok (t, rest)
read-exact n [] rest e = absurd (omega arith)
read-exact n (b ∷ bs) rest e =
    read-append (replicate (suc n) 0) b bs rest (length-replicate (suc n) 0 ∙ sym e)

pub read_opt_bytes-opt :
    (there : Bool) (n : ℕ) (t rest : List ℕ)
    → IsOptBytes (suc n) there t
    → read_opt_bytes there (suc n) (opt there t ++ rest) ≡ ok (t, rest)
unfolding read_opt_bytes opt
read_opt_bytes-opt there n t rest (inl (f, h)) = rw f (read-exact n t rest h)
read_opt_bytes-opt there n t rest (inr (f, z)) = rw (f, z)

pub copy-replicate : (bs : List ℕ) → copy (replicate (length bs) 0) bs ≡ bs
copy-replicate [] = refl
copy-replicate (b ∷ bs) = ap (◌∷◌ b) (copy-replicate bs)

pub drop-replicate : (bs : List ℕ) → drop (length (replicate {A = ℕ} (length bs) 0)) bs ≡ []
drop-replicate [] = refl
drop-replicate (b ∷ bs) = drop-replicate bs
