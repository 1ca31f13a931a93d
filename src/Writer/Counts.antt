-- ===== src/Writer/Counts.antt =====
-- rwnats.go: how often a message stands somewhere, and where a batch goes.
use nav_control.Base.{
  ℕ, zero, suc, ◌+◌, ◌≡◌, ◌≢◌, refl, sym, ap, subst, ◌∙◌, ◌⊎◌, inl, inr, List, [], ◌∷◌, ◌++◌,
  append-nil, some, true, if◌then◌else◌, ◌&&◌, arith, All, Bool-cases, Option-cases, if-true,
  if-false,
}
use nav_control.Go.Text.{Text, text_eq}
use nav_control.Writer.Server.{
  open_file, closed_file, WrNatsServer, Machine, write_batch_to_db, without_batch,
}
use nav_control.Go.Lines.{IsLine, written}
use nav_control.Writer.Files.{store-open}

unfoldable pub count : Text → List Text → ℕ
count x [] = 0
count x (t ∷ ts) = if text_eq x t then 1 + count x ts else count x ts

unfoldable pub count_batches : Text → List (List Text) → ℕ
count_batches x [] = 0
count_batches x (b ∷ bs) = count x b + count_batches x bs

pub count-append : (x : Text) (ts us : List Text) → count x (ts ++ us) ≡ count x ts + count x us
unfolding count
count-append x [] us = omega arith
count-append x (t ∷ ts) us = ground (arith, count-append x ts us)

pub count_batches-append :
    (x : Text) (bs cs : List (List Text))
    → count_batches x (bs ++ cs) ≡ count_batches x bs + count_batches x cs
unfolding count_batches
count_batches-append x [] cs = omega arith
count_batches-append x (b ∷ bs) cs = omega (arith, count_batches-append x bs cs)

pub All-append {ℓ} :
    {A : Type ℓ} (P : A → Type 0) (xs ys : List A) → All P xs → All P ys → All P (xs ++ ys)
All-append P [] ys h h' = h'
All-append P (x ∷ xs) ys (h, hs) h' = (h, All-append P xs ys hs h')

-- A batch goes into the table or, as a whole, into the file.
pub write_batch_to_db-goes :
    (m : Machine) (b : List Text) (w : WrNatsServer)
    → m.creates ≡ true
    → m.writes ≡ true
    → w.temp_file ≢ closed_file
    → (write_batch_to_db m b w ≡ record w { table = w.table ++ b })
      ⊎ (write_batch_to_db m b w
          ≡ record w { temp_file = open_file; contents = w.contents ++ written b })
unfolding write_batch_to_db
write_batch_to_db-goes m [] w creates writes usable = elim (Bool-cases w.db_connected) [
  | inl there ↦
      inl (if-true _ _ there ∙ ap (λ t. record w { table = t }) (sym (append-nil w.table)))
  | inr away ↦ inr (if-false _ _ away ∙ store-open m creates writes [] w usable)
]
write_batch_to_db-goes m (t ∷ ts) w creates writes usable =
    elim (Bool-cases (w.db_connected && m.inserts (t ∷ ts))) [
      | inl done ↦ inl (if-true _ _ done)
      | inr failed ↦ inr (if-false _ _ failed ∙ store-open m creates writes (t ∷ ts) w usable)
    ]

pub without_batch-split :
    (i : ℕ) (bs cs : List (List Text)) (b : List Text)
    → without_batch i bs ≡ some (b, cs)
    → All (All IsLine) bs
    → All IsLine b
      × All (All IsLine) cs
      × ((x : Text) → count_batches x bs ≡ count x b + count_batches x cs)
unfolding without_batch count_batches
without_batch-split i [] cs b e h = absurd (ground (arith, e))
without_batch-split zero (c ∷ bs) cs b e (h, hs) =
    let first : c ≡ b = ground (arith, e) in
    let others : bs ≡ cs = ground (arith, e) in
    (subst (All IsLine) first h, subst (All (All IsLine)) others hs, λ x. rw (first, others) refl)
without_batch-split (suc i) (c ∷ bs) cs b e (h, hs) = elim (Option-cases (without_batch i bs)) [
  | inl unknown ↦ absurd (ground (arith, e, unknown))
  | inr ((d, ds), found) ↦
      let (line, lines, split) = without_batch-split i bs ds d found hs in
      let same : d ≡ b = ground (arith, e, found) in
      let others : (c ∷ ds) ≡ cs = ground (arith, e, found) in
      (
        subst (All IsLine) same line,
        subst (All (All IsLine)) others (h, lines),
        λ x. rw (← same, ← others) (omega (arith, split x)),
      )
]
