-- ===== src/Logger/Read.antt =====
-- logger.go: ReadLogs, ReadLogsReverse and ReadLogEnds, on the contents of the file.
use nav_control.Base.{
  ℕ, zero, suc, ◌+◌, ◌-◌, ◌*◌, ◌%◌, ◌^◌, List, [], ◌∷◌, ◌++◌, length, take, drop, Option, none,
  some, Bool, true, false, not, ◌&&◌, ◌||◌, if◌then◌else◌, ltb, leb, ◌==◌, get_or,
}
use nav_control.Go.Text.{Text}
use nav_control.Go.Words.{lt32}
use nav_control.Go.Lines.{split_lines}
use nav_control.Logger.Filter.{
  LogEntry, Filter, Packages, is_positive, is_empty, passes_level, passes_dates, selects,
}

-- `f.Limit > 0 && count >= f.Limit`
unfoldable pub is_full : (limit count : ℕ) → Bool
is_full limit count = is_positive limit && not (lt32 (count % 2 ^ 32) limit)

-- bufio.Scanner: the lines, without a carriage return at the end; what is behind the last line break is a line
-- if it is not empty.
unfoldable pub drop_cr : Text → Text
drop_cr [] = []
drop_cr (b ∷ []) = if b == b'\r' then [] else b ∷ []
drop_cr (b ∷ c ∷ t) = b ∷ drop_cr (c ∷ t)

unfoldable pub full_lines : List Text → List Text
full_lines [] = []
full_lines (t ∷ []) = if is_empty t then [] else t ∷ []
full_lines (t ∷ u ∷ ts) = t ∷ full_lines (u ∷ ts)

unfoldable pub scan_lines : Text → List Text
scan_lines s = full_lines (split_lines s)

-- A line that the scanner gives up at.
unfoldable pub is_too_long : Text → Bool
is_too_long line = leb (64 * 1024) (length line)

unfoldable pub and_line : Text → Option (List Text) → Option (List Text)
and_line line none = none
and_line line (some lines) = some (line ∷ lines)

module _ (p : Packages) where
  -- The loop of ReadLogs; `none` is an error.
  unfoldable pub collect : Filter → (count : ℕ) → List Text → Option (List Text)
  collect f count [] = some []
  collect f count (line ∷ lines) =
      let chosen = and_line (drop_cr line) (collect f (count + 1) lines) in
      let skipped = collect f count lines in
      if is_too_long line
      then none
      else if selects p f (drop_cr line)
      then (if is_full f.limit (count + 1) then some (drop_cr line ∷ []) else chosen)
      else skipped

  -- The second loop of ReadLogsReverse, over the lines from the last to the first.
  unfoldable pub collect_last : Filter → (count : ℕ) → List Text → List Text
  collect_last f count [] = []
  collect_last f count (line ∷ lines) =
      let chosen = collect_last f (count + 1) lines in
      let skipped = collect_last f count lines in
      if not (is_empty line) && selects p f line
      then (if is_full f.limit (count + 1) then line ∷ [] else line ∷ chosen)
      else skipped

-- `lines[len(lines)-1] += s`
unfoldable pub add_to_last : Text → List Text → List Text
add_to_last s [] = []
add_to_last s (t ∷ []) = (t ++ s) ∷ []
add_to_last s (t ∷ u ∷ ts) = t ∷ add_to_last s (u ∷ ts)

-- `strings.HasSuffix(block, "\n")`
unfoldable pub ends_line : Text → Bool
ends_line [] = false
ends_line (b ∷ []) = b == b'\n'
ends_line (b ∷ c ∷ t) = ends_line (c ∷ t)

-- A block before the lines that are there already.
unfoldable pub add_block : Text → (block_lines lines : List Text) → List Text
add_block block block_lines [] = block_lines
add_block block [] (l ∷ lines) = l ∷ lines
add_block block (b ∷ block_lines) (l ∷ lines) =
    if ends_line block
    then b ∷ block_lines ++ (l ∷ lines)
    else block_lines ++ add_to_last b (l ∷ lines)

abbrev pub block_size : ℕ
block_size = 4096

unfoldable pub min : ℕ → ℕ → ℕ
min a b = if ltb a b then a else b

-- The first loop of ReadLogsReverse, from `pos` down.
unfoldable pub read_blocks : (fuel limit : ℕ) → Text → (pos : ℕ) → List Text → List Text
read_blocks zero limit content pos lines = lines
read_blocks (suc fuel) limit content pos lines =
    let size = min pos block_size in
    let block = take size (drop (pos - size) content) in
    let more =
      read_blocks fuel limit content (pos - size) (add_block block (split_lines block) lines) in
    if ltb 0 pos && (limit == 0 || lt32 (length lines % 2 ^ 32) (limit * 2 % 2 ^ 32))
    then more
    else lines

unfoldable pub drop_first_empty : List Text → List Text
drop_first_empty [] = []
drop_first_empty (t ∷ ts) = if is_empty t then ts else t ∷ ts

unfoldable pub reversed : List Text → List Text → List Text
reversed done [] = done
reversed done (t ∷ ts) = reversed (t ∷ done) ts

-- `for position > 0 { … }`: down to a line break, or to the start.
unfoldable pub last_break : (content : Text) → (position : ℕ) → ℕ
last_break content zero = 0
last_break content (suc position) =
    let before = last_break content position in
    if get_or content (suc position) 0 == b'\n' then suc position else before

-- The lines that are scanned behind the position, up to one that is too long, and whether there is one.
unfoldable pub scanned : List Text → List Text × Bool
scanned [] = ([], true)
scanned (line ∷ lines) =
    let rest = scanned lines in
    if is_too_long line then ([], false) else (drop_cr line ∷ rest.0, rest.1)

unfoldable pub without_first : (position : ℕ) → List Text → List Text
without_first zero lines = lines
without_first (suc position) lines = drop 1 lines

unfoldable pub checked : Bool → Option (List Text) → Option (List Text)
checked true r = r
checked false r = none

module _ (p : Packages) where
  -- `ReadLogsReverse`, of a file that can be read.
  unfoldable pub read_logs_reverse : Filter → (content : Text) → Option (List Text)
  read_logs_reverse f [] = some []
  read_logs_reverse f (b ∷ content) = some (
      collect_last p f 0 (
        reversed [] (
          drop_first_empty
            (read_blocks (length (b ∷ content)) f.limit (b ∷ content) (length (b ∷ content)) []))))

  -- `ReadLogs`
  unfoldable pub read_logs : Filter → (content : Text) → Option (List Text)
  read_logs f content =
      if f.pos_end then read_logs_reverse f content else collect p f 0 (scan_lines content)

  -- The loop of ReadLogEnds over the lines from the last to the first: a line that is not JSON ends it.
  unfoldable pub selects_end : Text → (start_date end_date : ℕ) → LogEntry → Bool
  selects_end level start_date end_date e =
      passes_level p level e && passes_dates p start_date end_date e

  unfoldable pub collect_ends :
      Text → (start_date end_date limit count : ℕ) → List Text → Option (List Text)
  collect_ends level start_date end_date limit count [] = some []
  collect_ends level start_date end_date limit count (line ∷ lines) =
      let chosen = and_line line (collect_ends level start_date end_date limit (count + 1) lines) in
      let skipped = collect_ends level start_date end_date limit count lines in
      elim (p.parse line) [
        | none ↦ none
        | some e ↦
            if selects_end level start_date end_date e
            then (if is_full limit (count + 1) then some (line ∷ []) else chosen)
            else skipped
      ]

  -- `ReadLogEnds`, of a file that can be read.
  unfoldable pub read_log_ends :
      Text → (start_date end_date limit : ℕ) → (content : Text) → Option (List Text)
  read_log_ends level start_date end_date limit [] = some []
  read_log_ends level start_date end_date limit (b ∷ content) =
      let position = last_break (b ∷ content) (length content) in
      let lines = scanned (scan_lines (drop position (b ∷ content))) in
      checked lines.1 (
        collect_ends level start_date end_date limit 0
          (reversed [] (without_first position lines.0)))
