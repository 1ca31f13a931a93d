-- ===== src/Writer/Services/Keys.antt =====
-- grpcserver.go: the identifiers in the map of writers and in the configuration.
use nav_control.Base.{
  ℕ, ◌+◌, ◌%◌, ◌^◌, ◌<◌, ◌≤◌, ==→eq, ◌≡◌, refl, ap, ◌∙◌, List, [], ◌∷◌, ◌++◌, some, true, false,
  if◌then◌else◌, ◌==◌, arith, All, Map, find, put, remove, member, without, IsDistinct,
  without-absent, Bool-cases, inl, inr, if-true, if-false,
}
use nav_control.Go.Words.{lt32}
use nav_control.Writer.Nats.{Writing}
use nav_control.Writer.Config.{Writer, delete_writer}
use nav_control.Writer.Services.{keys, max_id}

unfoldable pub ids : List Writer → List ℕ
ids [] = []
ids (r ∷ rs) = r.id_writer ∷ ids rs

pub keys-put-fresh :
    (k : ℕ) (w : Writing) (m : Map Writing)
    → member k (keys m) ≡ false
    → keys (put k w m) ≡ keys m ++ (k ∷ [])
unfolding keys put member
keys-put-fresh k w [] h = refl
keys-put-fresh k w ((j, v) ∷ m) h = ground (arith, h, keys-put-fresh k w m)

pub keys-put-same :
    (k : ℕ) (w v : Writing) (m : Map Writing) → find k m ≡ some v → keys (put k w m) ≡ keys m
unfolding keys put find
keys-put-same k w v [] h = cc h
keys-put-same k w v ((j, u) ∷ m) h = ground (arith, h, keys-put-same k w v m)

pub keys-remove : (k : ℕ) (m : Map Writing) → keys (remove k m) ≡ without k (keys m)
unfolding keys remove without
keys-remove k [] = refl
keys-remove k ((j, w) ∷ m) = ground (arith, keys-remove k m)

pub ids-delete_writer :
    (k : ℕ) (rs : List Writer) → IsDistinct (ids rs) → ids (delete_writer k rs) ≡ without k (ids rs)
unfolding ids delete_writer without IsDistinct
ids-delete_writer k [] d = refl
ids-delete_writer k (r ∷ rs) d =
    ground (arith, d.0, without-absent k (ids rs), ids-delete_writer k rs d.1)

pub ids-last : (rs : List Writer) (r : Writer) → ids (rs ++ (r ∷ [])) ≡ ids rs ++ (r.id_writer ∷ [])
unfolding ids
ids-last [] r = refl
ids-last (q ∷ rs) r = ap (◌∷◌ q.id_writer) (ids-last rs r)

member-middle :
    (q k : ℕ) (xs ys : List ℕ)
    → member q (xs ++ (k ∷ ys)) ≡ (if k == q then true else member q (xs ++ ys))
unfolding member
member-middle q k [] ys = refl
member-middle q k (x ∷ xs) ys = ground (arith, member-middle q k xs ys)

pub member-before : (k : ℕ) (xs ys : List ℕ) → IsDistinct (xs ++ (k ∷ ys)) → member k xs ≡ false
unfolding member IsDistinct
member-before k [] ys d = refl
member-before k (x ∷ xs) ys d =
    ground (arith, d.0, member-middle x k xs ys, member-before k xs ys d.1)

-- The place of a number among the int32.
abbrev pub place : ℕ → ℕ
place k = (k + 2 ^ 31) % 2 ^ 32

pub max_id-above :
    (n m : ℕ) (ks : List ℕ)
    → n ≡ max_id m ks
    → (place m ≤ place n) × All (λ k. place k ≤ place n) ks
unfolding max_id lt32
max_id-above n m [] e = (omega (arith, e), tt)
max_id-above n m (k ∷ ks) e = elim (Bool-cases (lt32 m k)) [
  | inl more ↦
      let (first, others) = max_id-above n k ks (e ∙ ap (λ j. max_id j ks) (if-true k m more)) in
      (ground (arith, first, more), (first, others))
  | inr less ↦
      let (first, others) = max_id-above n m ks (e ∙ ap (λ j. max_id j ks) (if-false k m less)) in
      (first, (ground (arith, first, less), others))
]

pub member-above :
    (f n : ℕ) (ks : List ℕ) → All (λ k. place k ≤ n) ks → n < place f → member f ks ≡ false
unfolding member
member-above f n [] h more = refl
member-above f n (k ∷ ks) (h, hs) more = elim (Bool-cases (k == f)) [
  | inl same ↦ absurd (omega (arith, h, more, ==→eq k f same))
  | inr other ↦ rw (other) (member-above f n ks hs more)
]
