-- ===== src/Logger/Selected.antt =====
-- logger.go: the loops give the lines that the filter lets through, up to the limit.
use nav_control.Base.{
  ℕ, zero, suc, ◌+◌, ◌-◌, ◌*◌, ◌%◌, ◌^◌, ◌<◌, ◌≡◌, refl, sym, ap, ◌⊎◌, inl, inr, List, [], ◌∷◌,
  length, take, some, Bool, true, false, if◌then◌else◌, ltb, ◌==◌, arith, All, ==→eq, Bool-cases,
}
use nav_control.Go.Words.{lt32}
use nav_control.Go.Text.{Text}
use nav_control.Go.Lines.{IsLine}
use nav_control.Logger.Filter.{Filter, Packages, is_positive, is_empty, selects}
use nav_control.Logger.Read.{is_full, drop_cr, is_too_long, and_line, collect, collect_last}

-- A limit that is none (0), or a number below 2^30.
unfoldable pub IsLimit : ℕ → Type 0
IsLimit limit = limit < 2 ^ 30

-- The first lines, where the limit is one.
unfoldable pub limited : (limit count : ℕ) → List Text → List Text
limited limit count lines = if limit == 0 then lines else take (limit - count) lines

unfoldable pub filtered : (Text → Bool) → List Text → List Text
filtered test [] = []
filtered test (t ∷ ts) = if test t then t ∷ filtered test ts else filtered test ts

-- A line as the logger writes it: short enough for the scanner, with no carriage return at its end.
pub record IsLogLine (t : Text) : Type 0 where
  pub line : IsLine t
  pub no_return : drop_cr t ≡ t
  pub short : length t < 64 * 1024

is_full-limit :
    (limit count : ℕ)
    → IsLimit limit
    → (limit ≡ 0) ⊎ (count < limit)
    → is_full limit (count + 1) ≡ (if limit == 0 then false else limit == count + 1)
unfolding is_full is_positive lt32 IsLimit
is_full-limit limit count small (inl e) = ground (arith, e)
is_full-limit limit count small (inr h) =
    let some : (limit == 0) ≡ false = ground (arith, h) in
    let positive : ltb 0 limit ≡ true = ground (arith, h) in
    let below : ltb limit (2 ^ 31) ≡ true = ground (arith, small) in
    let left : ((count + 1) % 2 ^ 32 + 2 ^ 31) % 2 ^ 32 ≡ count + 1 + 2 ^ 31 =
      omega (arith, small, h) in
    let right : (limit + 2 ^ 31) % 2 ^ 32 ≡ limit + 2 ^ 31 = omega (arith, small) in
    rw (some, positive, below, left, right) (ground (arith, h))

limited-cons :
    (limit count : ℕ) (t : Text) (ts : List Text)
    → (limit ≡ 0) ⊎ (count < limit)
    → limited limit count (t ∷ ts) ≡ (
        if (if limit == 0 then false else limit == count + 1)
        then t ∷ []
        else t ∷ limited limit (count + 1) ts)
unfolding limited
limited-cons limit count t ts (inl e) = rw (limited, e) refl
limited-cons limit count t ts (inr h) =
    let some : (limit == 0) ≡ false = ground (arith, h) in
    let step : limit - count ≡ suc (limit - (count + 1)) = omega (arith, h) in
    elim (Bool-cases (limit == count + 1)) [
      | inl last ↦
          let none_left : limit - (count + 1) ≡ 0 = omega (arith, ==→eq limit (count + 1) last) in
          rw (limited, some, last, step, none_left) refl
      | inr more ↦ rw (limited, some, more, step) refl
    ]

-- The number that is counted next is still below the limit.
below_next :
    (limit count : ℕ)
    → (limit ≡ 0) ⊎ (count < limit)
    → (if limit == 0 then false else limit == count + 1) ≡ false
    → (limit ≡ 0) ⊎ (count + 1 < limit)
below_next limit count (inl e) h = inl e
below_next limit count (inr l) h = inr (ground (arith, l, h))

pub limited-nil : (limit count : ℕ) → limited limit count [] ≡ []
unfolding limited
limited-nil limit count = elim (Bool-cases (limit == 0)) [
  | inl e ↦ rw (limited, e) refl
  | inr e ↦ rw (limited, e) (nil (limit - count))
]
  where
    nil : (k : ℕ) → take {A = Text} k [] ≡ []
    nil zero = refl
    nil (suc k) = refl

some-is_empty : (t : Text) → 0 < length t → is_empty t ≡ false
unfolding is_empty
some-is_empty [] h = absurd (omega (arith, h))
some-is_empty (b ∷ t) h = refl

module _ (p : Packages) (f : Filter) (small : IsLimit f.limit) where
  pub collect-filtered :
      (count : ℕ) (ts : List Text)
      → All IsLogLine ts
      → (f.limit ≡ 0) ⊎ (count < f.limit)
      → collect p f count ts ≡ some (limited f.limit count (filtered (selects p f) ts))
  unfolding collect filtered and_line
  collect-filtered count [] h room = ap some (sym (limited-nil f.limit count))
  collect-filtered count (t ∷ ts) (h, hs) room =
      let short : is_too_long t ≡ false = unfold is_too_long in ground (arith, h.short) in
      let skipped = collect-filtered count ts hs room in
      elim (Bool-cases (selects p f t)) [
        | inr no_match ↦ rw (h.no_return, short, no_match) skipped
        | inl match ↦
            let full = is_full-limit f.limit count small room in
            let cut = limited-cons f.limit count t (filtered (selects p f) ts) room in
            elim (Bool-cases (if f.limit == 0 then false else f.limit == count + 1)) [
              | inl last ↦ rw (h.no_return, short, match, cut, full, last) refl
              | inr more ↦
                  rw (h.no_return, short, match, cut, full, more)
                    (ap (and_line t)
                      (collect-filtered (count + 1) ts hs (below_next f.limit count room more)))
            ]
      ]

  pub collect_last-filtered :
      (count : ℕ) (ts : List Text)
      → All IsLine ts
      → (f.limit ≡ 0) ⊎ (count < f.limit)
      → collect_last p f count ts ≡ limited f.limit count (filtered (selects p f) ts)
  unfolding collect_last filtered
  collect_last-filtered count [] h room = sym (limited-nil f.limit count)
  collect_last-filtered count (t ∷ ts) (h, hs) room =
      let some_bytes : is_empty t ≡ false = some-is_empty t h.some_bytes in
      let skipped = collect_last-filtered count ts hs room in
      elim (Bool-cases (selects p f t)) [
        | inr no_match ↦ rw (some_bytes, no_match) skipped
        | inl match ↦
            let full = is_full-limit f.limit count small room in
            let cut = limited-cons f.limit count t (filtered (selects p f) ts) room in
            elim (Bool-cases (if f.limit == 0 then false else f.limit == count + 1)) [
              | inl last ↦ rw (some_bytes, match, cut, full, last) refl
              | inr more ↦
                  rw (some_bytes, match, cut, full, more)
                    (ap (◌∷◌ t) (
                      collect_last-filtered (count + 1) ts hs (below_next f.limit count room more)))
            ]
      ]
