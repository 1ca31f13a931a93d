-- ===== src/Base/Maps.antt =====
-- Go maps with numbers as keys, in some order of iteration, and sets of numbers.
use nav_control.Base.Tests.{◌==◌, if◌then◌else◌}
use Prim.Native.Nat.{ℕ}
use mathlib.Core.Path.{◌≡◌, refl}
use mathlib.Core.Bool.{Bool, true, false}
use mathlib.Core.Option.{Option, none, some}
use mathlib.Core.List.{List, [], ◌∷◌, ◌++◌}
use native.Mathlib.Omega.{arith}

abbrev pub Map {ℓ} : Type ℓ → Type ℓ
Map V = List (ℕ × V)

module _ {ℓ} {V : Type ℓ} where
  -- `v, exists := m[k]`
  unfoldable pub find : ℕ → Map V → Option V
  find k [] = none
  find k ((j, v) ∷ m) = let later = find k m in if j == k then some v else later

  -- `m[k] = v`
  unfoldable pub put : ℕ → V → Map V → Map V
  put k v [] = (k, v) ∷ []
  put k v ((j, w) ∷ m) = let later = put k v m in if j == k then (k, v) ∷ m else (j, w) ∷ later

  -- `delete(m, k)`
  unfoldable pub remove : ℕ → Map V → Map V
  remove k [] = []
  remove k ((j, w) ∷ m) = let later = remove k m in if j == k then later else (j, w) ∷ later

  pub find-put :
      (j k : ℕ) (v : V) (m : Map V) → find j (put k v m) ≡ (if k == j then some v else find j m)
  unfolding find put
  find-put j k v [] = refl
  find-put j k v ((i, w) ∷ m) = ground (arith, find-put j k v m)

  pub find-remove :
      (j k : ℕ) (m : Map V) → find j (remove k m) ≡ (if k == j then none else find j m)
  unfolding find remove
  find-remove j k [] = ground arith
  find-remove j k ((i, w) ∷ m) = ground (arith, find-remove j k m)

-- A set of numbers.
unfoldable pub member : ℕ → List ℕ → Bool
member k [] = false
member k (j ∷ s) = let later = member k s in if j == k then true else later

unfoldable pub without : ℕ → List ℕ → List ℕ
without k [] = []
without k (j ∷ s) = let later = without k s in if j == k then later else j ∷ later

pub member-without :
    (j k : ℕ) (s : List ℕ) → member j (without k s) ≡ (if k == j then false else member j s)
unfolding member without
member-without j k [] = ground arith
member-without j k (i ∷ s) = ground (arith, member-without j k s)

unfoldable pub IsDistinct : List ℕ → Type 0
IsDistinct [] = Unit {0}
IsDistinct (x ∷ xs) = (member x xs ≡ false) × IsDistinct xs

pub IsDistinct-without : (p : ℕ) (xs : List ℕ) → IsDistinct xs → IsDistinct (without p xs)
unfolding IsDistinct without
IsDistinct-without p [] h = tt
IsDistinct-without p (x ∷ xs) h =
    ground (arith, h.0, member-without x p xs, IsDistinct-without p xs h.1)

pub without-absent : (p : ℕ) (xs : List ℕ) → member p xs ≡ false → without p xs ≡ xs
unfolding without member
without-absent p [] h = refl
without-absent p (x ∷ xs) h = ground (arith, h, without-absent p xs)

pub member-last :
    (q p : ℕ) (xs : List ℕ) → member q (xs ++ (p ∷ [])) ≡ (if p == q then true else member q xs)
unfolding member
member-last q p [] = refl
member-last q p (x ∷ xs) = ground (arith, member-last q p xs)

pub IsDistinct-last :
    (p : ℕ) (xs : List ℕ) → member p xs ≡ false → IsDistinct xs → IsDistinct (xs ++ (p ∷ []))
unfolding IsDistinct member
IsDistinct-last p [] h d = (refl, tt)
IsDistinct-last p (x ∷ xs) h d = ground (arith, h, d.0, member-last x p xs, IsDistinct-last p xs)
