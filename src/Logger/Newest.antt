-- ===== src/Logger/Newest.antt =====
-- logger.go: the three readers on a file of whole lines.
use nav_control.Base.{
  Option, if◌then◌else◌, ℕ, zero, suc, ◌-◌, ◌*◌, ◌%◌, ◌^◌, ◌≤◌, ◌<◌, ◌≡◌, refl, sym, ap, ◌∙◌, ◌⊎◌,
  inl, inr, List, [], ◌∷◌, ◌++◌, length, take, some, true, ◌&&◌, ◌||◌, ltb, ◌==◌, arith, All,
  Bool-cases, if-true, if-false, drop-length-append, get_or, length-append,
}
use nav_control.Go.Words.{lt32}
use nav_control.Go.Text.{Text}
use nav_control.Go.Lines.{IsLine, written, split_lines, split_lines-written, take-all}
use nav_control.Logger.Filter.{Filter, Packages, is_empty, selects}
use nav_control.Logger.Read.{
  full_lines, scan_lines, collect, collect_last, add_block, block_size, min, read_blocks,
  drop_first_empty, reversed, read_logs, read_logs_reverse, last_break, scanned, without_first,
  checked, collect_ends, read_log_ends, drop_cr, is_too_long,
}
use nav_control.Logger.Selected.{
  IsLimit, limited, filtered, limited-nil, IsLogLine, collect-filtered, collect_last-filtered,
}

full_lines-whole : (ts : List Text) → full_lines (ts ++ ([] ∷ [])) ≡ ts
unfolding full_lines is_empty
full_lines-whole [] = refl
full_lines-whole (t ∷ []) = refl
full_lines-whole (t ∷ u ∷ ts) = ap (◌∷◌ t) (full_lines-whole (u ∷ ts))

All-IsLine : (ts : List Text) → All IsLogLine ts → All IsLine ts
All-IsLine [] h = tt
All-IsLine (t ∷ ts) (h, hs) = (h.line, All-IsLine ts hs)

scan_lines-written : (ts : List Text) → All IsLine ts → scan_lines (written ts) ≡ ts
unfolding scan_lines
scan_lines-written ts h = ap full_lines (split_lines-written ts h) ∙ full_lines-whole ts

All-reversed :
    (P : Text → Type 0) (done ts : List Text) → All P done → All P ts → All P (reversed done ts)
unfolding reversed
All-reversed P done [] h h' = h
All-reversed P done (t ∷ ts) h (h', hs) = All-reversed P (t ∷ done) ts (h', h) hs

reversed-last :
    (done ts : List Text) (t : Text) → reversed done (ts ++ (t ∷ [])) ≡ t ∷ reversed done ts
unfolding reversed
reversed-last done [] t = refl
reversed-last done (u ∷ ts) t = reversed-last (u ∷ done) ts t

read_blocks-end :
    (fuel limit : ℕ) (content : Text) (lines : List Text)
    → read_blocks fuel limit content 0 lines ≡ lines
unfolding read_blocks
read_blocks-end zero limit content lines = refl
read_blocks-end (suc fuel) limit content lines = refl

-- A file that one block holds is split as a whole.
read_blocks-small :
    (limit b : ℕ) (s : Text)
    → IsLimit limit
    → length (b ∷ s) ≤ block_size
    → read_blocks (length (b ∷ s)) limit (b ∷ s) (length (b ∷ s)) [] ≡ split_lines (b ∷ s)
unfolding read_blocks
read_blocks-small limit b s limit_small small =
    let size = length (b ∷ s) in
    let whole : min size block_size ≡ size = unfold min in ground (arith, small) in
    let from : size - size ≡ 0 = omega arith in
    let all : take size (b ∷ s) ≡ b ∷ s = take-all size (b ∷ s) (omega arith) in
    let first : (ltb 0 size && (limit == 0 || lt32 (0 % 2 ^ 32) (limit * 2 % 2 ^ 32))) ≡ true =
      unfold lt32 IsLimit in ground (arith, limit_small) in
    if-true _ _ first
    ∙ (rw (whole, from, all)
        (read_blocks-end (length s) limit (b ∷ s) _ ∙ unfold add_block in refl))

drop_first_empty-line : (t : Text) (ts : List Text) → IsLine t → drop_first_empty (t ∷ ts) ≡ t ∷ ts
unfolding drop_first_empty is_empty
drop_first_empty-line [] ts h = absurd (omega (arith, h.some_bytes))
drop_first_empty-line (b ∷ t) ts h = refl

module _ (p : Packages) (f : Filter) (small : IsLimit f.limit) where
  start_room : (f.limit ≡ 0) ⊎ (0 < f.limit)
  start_room = elim (Bool-cases (f.limit == 0)) [
    | inl unlimited ↦ inl (ground (arith, unlimited))
    | inr limits ↦ inr (ground (arith, limits))
  ]

  read_logs_reverse-block :
      (content : Text) (t : Text) (ts : List Text)
      → content ≡ written (t ∷ ts)
      → All IsLine (t ∷ ts)
      → length content ≤ block_size
      → read_logs_reverse p f content
        ≡ some (limited f.limit 0 (filtered (selects p f) (reversed [] (t ∷ ts))))
  unfolding read_logs_reverse
  read_logs_reverse-block [] t ts e lines fits = absurd (
      unfold written in
      omega (arith, ap (length {A = ℕ}) e, length-append t ((b'\n' ∷ []) ++ written ts)))
  read_logs_reverse-block (b ∷ s) t ts e lines fits =
      let blocks =
        read_blocks-small f.limit b s small fits
        ∙ ap split_lines e
        ∙ split_lines-written (t ∷ ts) lines in
      rw (blocks, drop_first_empty-line t (ts ++ ([] ∷ [])) lines.0, reversed-last [] (t ∷ ts) [])
        (ap some (
          collect_last-empty (reversed [] (t ∷ ts))
          ∙ collect_last-filtered p f small 0 (reversed [] (t ∷ ts))
              (All-reversed IsLine [] (t ∷ ts) tt lines) start_room))
    where
      collect_last-empty : (us : List Text) → collect_last p f 0 ([] ∷ us) ≡ collect_last p f 0 us
      collect_last-empty us = unfold collect_last is_empty in refl

  read_logs_reverse-lines :
      (ts : List Text)
      → All IsLine ts
      → length (written ts) ≤ block_size
      → read_logs_reverse p f (written ts)
        ≡ some (limited f.limit 0 (filtered (selects p f) (reversed [] ts)))
  read_logs_reverse-lines [] lines fits =
      unfold read_logs_reverse written reversed filtered in ap some (sym (limited-nil f.limit 0))
  read_logs_reverse-lines (t ∷ ts) lines fits =
      read_logs_reverse-block (written (t ∷ ts)) t ts refl lines fits

  -- With a limit below 2^30, and a log, of any length when read forward and of at most 4096 bytes
  -- when read from its end, whose lines are not empty, have no line break within, no carriage return
  -- at the end and less than 64 KB, `read_logs` gives the lines that the filter selects, up to the
  -- limit if it is not 0: in their order, or from the last to the first if the filter asks for the
  -- end.
  pub read_logs-lines :
      (ts : List Text)
      → All IsLogLine ts
      → (f.pos_end ≡ true → length (written ts) ≤ block_size)
      → read_logs p f (written ts)
        ≡ some
            (limited f.limit 0 (filtered (selects p f) (if f.pos_end then reversed [] ts else ts)))
  unfolding read_logs
  read_logs-lines ts h fits = elim (Bool-cases f.pos_end) [
    | inl back ↦
        if-true _ _ back
        ∙ read_logs_reverse-lines ts (All-IsLine ts h) (fits back)
        ∙ ap in_order (sym (if-true _ _ back))
    | inr forward ↦
        if-false _ _ forward
        ∙ ap (collect p f 0) (scan_lines-written ts (All-IsLine ts h))
        ∙ collect-filtered p f small 0 ts h start_room
        ∙ ap in_order (sym (if-false _ _ forward))
  ]
    where
      in_order : List Text → Option (List Text)
      in_order lines = some (limited f.limit 0 (filtered (selects p f) lines))

get_or-last : (s : Text) (b : ℕ) → get_or (s ++ (b ∷ [])) (length s) 0 ≡ b
get_or-last [] b = refl
get_or-last (c ∷ s) b = get_or-last s b

last_break-ends_line :
    (b : ℕ) (s : Text) → last_break (b ∷ (s ++ (b'\n' ∷ []))) (suc (length s)) ≡ suc (length s)
unfolding last_break
last_break-ends_line b s =
    let there : get_or (s ++ (b'\n' ∷ [])) (length s) 0 ≡ b'\n' = get_or-last s b'\n' in
    rw there refl

-- For a log of at least two bytes that ends with a line break, `read_log_ends` gives no lines and no
-- error, whatever the filter.
pub read_log_ends-ends_line :
    (p : Packages) (level : Text) (start_date end_date limit : ℕ) (b : ℕ) (s : Text)
    → read_log_ends p level start_date end_date limit ((b ∷ s) ++ (b'\n' ∷ [])) ≡ some []
unfolding read_log_ends
read_log_ends-ends_line p level start_date end_date limit b s =
    let size : length (s ++ (b'\n' ∷ [])) ≡ suc (length s) =
      omega (arith, length-append s (b'\n' ∷ [])) in
    rw (size, last_break-ends_line b s, drop-length-append s (b'\n' ∷ []))
      (unfold scan_lines split_lines full_lines is_empty scanned is_too_long drop_cr without_first
          reversed checked collect_ends in
        refl)
