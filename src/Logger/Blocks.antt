-- ===== src/Logger/Blocks.antt =====
-- logger.go, ReadLogsReverse: a log of any length, block by block.
use nav_control.Base.{
  ltb→lt, ℕ, zero, suc, ◌+◌, ◌-◌, ◌≤◌, ◌<◌, ◌≡◌, ◌≢◌, refl, ap, subst, ◌∙◌, List, [], ◌∷◌, ◌++◌,
  length, take, drop, some, Bool, not, ◌&&◌, if◌then◌else◌, ltb, ◌==◌, arith, Bool-cases, inl, inr,
}
use nav_control.Go.Text.{Text}
use nav_control.Go.Lines.{split_lines, add_byte}
use nav_control.Logger.Filter.{Filter, Packages, selects, is_empty, is_positive}
use nav_control.Logger.Read.{
  is_full, collect_last, add_to_last, add_block, block_size, min, read_blocks, drop_first_empty,
  reversed, read_logs_reverse,
}
use nav_control.Logger.Selected.{filtered}

-- How often a byte is in a text, and in lines.
unfoldable pub count_byte : ℕ → Text → ℕ
count_byte x [] = 0
count_byte x (b ∷ t) = let later = count_byte x t in if b == x then 1 + later else later

unfoldable pub count_lines : ℕ → List Text → ℕ
count_lines x [] = 0
count_lines x (t ∷ ts) = count_byte x t + count_lines x ts

-- A line that is not empty and that the filter selects.
unfoldable pub is_kept : Packages → Filter → Text → Bool
is_kept p f line = not (is_empty line) && selects p f line

count_byte-append : (x : ℕ) (s t : Text) → count_byte x (s ++ t) ≡ count_byte x s + count_byte x t
unfolding count_byte
count_byte-append x [] t = omega arith
count_byte-append x (b ∷ s) t = ground (arith, count_byte-append x s t)

count_byte-take :
    (x k : ℕ) (s : Text) → count_byte x (take k s) + count_byte x (drop k s) ≡ count_byte x s
unfolding count_byte
count_byte-take x zero s = omega arith
count_byte-take x (suc k) [] = omega arith
count_byte-take x (suc k) (b ∷ s) = ground (arith, count_byte-take x k s)

count_lines-append :
    (x : ℕ) (s t : List Text) → count_lines x (s ++ t) ≡ count_lines x s + count_lines x t
unfolding count_lines
count_lines-append x [] t = omega arith
count_lines-append x (b ∷ s) t = omega (arith, count_lines-append x s t)

count_lines-reversed :
    (x : ℕ) (s t : List Text) → count_lines x (reversed s t) ≡ count_lines x s + count_lines x t
unfolding count_lines reversed
count_lines-reversed x s [] = omega arith
count_lines-reversed x s (b ∷ t) = omega (arith, count_lines-reversed x (b ∷ s) t)

count_lines-add_byte :
    (x b : ℕ) (ts : List Text)
    → count_lines x (add_byte b ts) ≡ count_byte x (b ∷ []) + count_lines x ts
unfolding count_lines add_byte count_byte
count_lines-add_byte x b [] = omega arith
count_lines-add_byte x b (t ∷ ts) = ground arith

module _ (x : ℕ) (other : x ≢ b'\n') where
  count_lines-split_lines : (s : Text) → count_lines x (split_lines s) ≡ count_byte x s
  unfolding split_lines count_lines count_byte
  count_lines-split_lines [] = refl
  count_lines-split_lines (b ∷ s) =
      ground (arith, other, count_lines-add_byte x b (split_lines s), count_lines-split_lines s)

  count_lines-add_to_last :
      (s t : Text) (ts : List Text)
      → count_lines x (add_to_last s (t ∷ ts)) ≡ count_byte x s + count_lines x (t ∷ ts)
  unfolding add_to_last count_lines
  count_lines-add_to_last s t [] = omega (arith, count_byte-append x t s)
  count_lines-add_to_last s t (u ∷ ts) = omega (arith, count_lines-add_to_last s u ts)

  count_lines-add_block :
      (block : Text) (bs ls : List Text)
      → count_lines x (add_block block bs ls) ≡ count_lines x bs + count_lines x ls
  unfolding add_block count_lines
  count_lines-add_block block bs [] = omega arith
  count_lines-add_block block [] (l ∷ ls) = omega arith
  count_lines-add_block block (b ∷ bs) (l ∷ ls) = ground (
    arith,
    count_lines-append x (b ∷ bs) (l ∷ ls),
    count_lines-append x bs (add_to_last b (l ∷ ls)),
    count_lines-add_to_last b l ls,
  )

count_byte-parts :
    (x a b : ℕ) (s : Text)
    → count_byte x (take (a + b) s) ≡ count_byte x (take b (drop a s)) + count_byte x (take a s)
unfolding count_byte
count_byte-parts x zero b s =
    let same : 0 + b ≡ b = omega arith in ap (λ n. count_byte x (take n s)) same ∙ omega arith
count_byte-parts x (suc a) b [] = nothing (suc a + b) b
  where
    nothing : (j k : ℕ) → count_byte x (take j []) ≡ count_byte x (take k []) + 0
    nothing zero zero = omega arith
    nothing zero (suc k) = omega arith
    nothing (suc j) zero = omega arith
    nothing (suc j) (suc k) = omega arith
count_byte-parts x (suc a) b (c ∷ s) =
    let same : suc a + b ≡ suc (a + b) = omega arith in
    ap (λ n. count_byte x (take n (c ∷ s))) same ∙ ground (arith, count_byte-parts x a b s)

min-bounds : (pos : ℕ) → 0 < pos → (0 < min pos block_size) × (min pos block_size ≤ pos)
unfolding min
min-bounds pos h = ground (arith, h)

module _ (x : ℕ) (other : x ≢ b'\n') where
  read_blocks-keeps :
      (fuel : ℕ) (content : Text) (pos : ℕ) (lines : List Text)
      → pos ≤ fuel
      → count_lines x (read_blocks fuel 0 content pos lines)
        ≡ count_byte x (take pos content) + count_lines x lines
  unfolding read_blocks
  read_blocks-keeps zero content pos lines enough =
      let none_left : pos ≡ 0 = omega (arith, enough) in
      rw none_left (unfold count_byte in omega arith)
  read_blocks-keeps (suc fuel) content pos lines enough = elim (Bool-cases (ltb 0 pos)) [
    | inr over ↦
        let none_left : pos ≡ 0 = ground (arith, over) in
        rw none_left (unfold count_byte in omega arith)
    | inl more ↦
        let (some_bytes, most) = min-bounds pos (ltb→lt _ _ more) in
        let size = min pos block_size in
        let block = take size (drop (pos - size) content) in
        let earlier =
          read_blocks-keeps fuel content (pos - size) (add_block block (split_lines block) lines)
            (omega (arith, enough, some_bytes)) in
        let whole : (pos - size) + size ≡ pos = omega (arith, most) in
        let parts =
          subst
            (λ n.
              count_byte x (take n content)
              ≡ count_byte x block + count_byte x (take (pos - size) content))
            whole (count_byte-parts x (pos - size) size content) in
        rw more (
          omega (
            arith,
            earlier,
            parts,
            count_lines-add_block x other block (split_lines block) lines,
            count_lines-split_lines x other block,
          ))
  ]

  drop_first_empty-keeps : (ts : List Text) → count_lines x (drop_first_empty ts) ≡ count_lines x ts
  unfolding drop_first_empty is_empty count_lines count_byte
  drop_first_empty-keeps [] = refl
  drop_first_empty-keeps ([] ∷ ts) = omega arith
  drop_first_empty-keeps ((b ∷ t) ∷ ts) = refl

collect_last-all :
    (p : Packages) (f : Filter) (count : ℕ) (ts : List Text)
    → f.limit ≡ 0
    → collect_last p f count ts ≡ filtered (is_kept p f) ts
unfolding collect_last filtered is_kept is_full is_positive
collect_last-all p f count [] none_set = refl
collect_last-all p f count (t ∷ ts) none_set =
    let later = collect_last-all p f count ts none_set in
    let chosen = collect_last-all p f (count + 1) ts none_set in
    elim (Bool-cases (not (is_empty t) && selects p f t)) [
      | inl kept ↦ rw (kept, none_set) (ap (◌∷◌ t) chosen)
      | inr dropped ↦ rw dropped later
    ]

take-length : (s : Text) → take (length s) s ≡ s
take-length [] = refl
take-length (b ∷ s) = ap (◌∷◌ b) (take-length s)

-- Without a limit, and for a log of any contents and any number of blocks, `read_logs_reverse` gives
-- those of some texts that are not empty and that the filter selects, where each byte other than a
-- line break is as often in these texts as in the log: the joining of blocks drops and doubles no
-- byte of a line. Where the texts begin and end is not stated.
pub read_logs_reverse-keeps :
    (p : Packages) (f : Filter) (content : Text)
    → f.limit ≡ 0
    → (lines : List Text) × (read_logs_reverse p f content ≡ some (filtered (is_kept p f) lines))
      × ((x : ℕ) → x ≢ b'\n' → count_lines x lines ≡ count_byte x content)
unfolding read_logs_reverse
read_logs_reverse-keeps p f [] none_set =
    ([], unfold filtered in refl, λ x other. unfold count_lines count_byte in refl)
read_logs_reverse-keeps p f (b ∷ content) none_set =
    let all = length (b ∷ content) in
    let blocks = drop_first_empty (read_blocks all f.limit (b ∷ content) all []) in
    (
      reversed [] blocks,
      ap some (collect_last-all p f 0 (reversed [] blocks) none_set),
      λ x other.
          count_lines-reversed x [] blocks
          ∙ (rw none_set (
              omega (
                arith,
                drop_first_empty-keeps x other (read_blocks all 0 (b ∷ content) all []),
                read_blocks-keeps x other all (b ∷ content) all [] (omega arith),
                ap (count_byte x) (take-length (b ∷ content)),
                no_lines x,
              ))),
    )
  where
    no_lines : (x : ℕ) → count_lines x [] ≡ 0
    no_lines x = unfold count_lines in refl
