-- ===== src/Logger/Tests.antt =====
-- Runs of the readers on a log of two lines.
use nav_control.Base.{if◌then◌else◌, ℕ, ◌≡◌, ◌≢◌, ◌≤◌, refl, List, [], ◌∷◌, none, some, true, arith}
use nav_control.Go.Text.{Text, text_eq}
use nav_control.Go.Lines.{written}
use nav_control.Logger.Filter.{Filter, Packages, selects}
use nav_control.Logger.Read.{read_logs, read_log_ends, read_logs_reverse, reversed, drop_cr}
use nav_control.Logger.Selected.{IsLimit, IsLogLine, limited, filtered}
use nav_control.Logger.Newest.{read_logs-lines, read_log_ends-ends_line}
use nav_control.Logger.Blocks.{read_logs_reverse-keeps, is_kept, count_lines, count_byte}

-- Packages that take each line for its message.
abbrev plain : Packages
plain = record {
  parse = λ line.
      some
        (record { level = []; message = line; time = none; id_srv = 0; port = 0; protocol = [] });
  equal_fold = text_eq;
  match_string = λ pattern text. true;
  match_path = λ pattern text. true;
}

abbrev newest_first : Filter
newest_first = record {
  level = [];
  start_date = 0;
  end_date = 0;
  limit = 1;
  id_service = 0;
  port = 0;
  protocol = [];
  pos_end = true;
  msg = [];
}

abbrev log : List Text
log = (b'a' ∷ []) ∷ (b'b' ∷ []) ∷ []

log_line : (b : ℕ) → b'a' ≤ b → IsLogLine (b ∷ [])
unfolding drop_cr
log_line b e = record {
  line = record { some_bytes = omega arith; no_break = (λ n. absurd (omega (arith, e, n)), tt) };
  no_return = ground (arith, e);
  short = omega arith;
}

read_logs-lines_example :
    read_logs plain newest_first (written log)
    ≡ some (
        limited 1 0 (filtered (selects plain newest_first) (if true then reversed [] log else log)))
unfolding written drop_cr IsLimit
read_logs-lines_example =
    read_logs-lines plain newest_first (omega arith) log
      (log_line b'a' (omega arith), (log_line b'b' (omega arith), tt)) (λ e. omega arith)

read_log_ends-ends_line_example :
    read_log_ends plain [] 0 0 0 (b'a' ∷ b'\n' ∷ b'b' ∷ b'\n' ∷ []) ≡ some []
read_log_ends-ends_line_example = read_log_ends-ends_line plain [] 0 0 0 b'a' (b'\n' ∷ b'b' ∷ [])

abbrev all_newest_first : Filter
all_newest_first = record {
  level = [];
  start_date = 0;
  end_date = 0;
  limit = 0;
  id_service = 0;
  port = 0;
  protocol = [];
  pos_end = true;
  msg = [];
}

abbrev content : Text
content = b'a' ∷ b'\n' ∷ b'b' ∷ b'c' ∷ b'\n' ∷ []

read_logs_reverse-keeps_example :
    (lines : List Text) × (read_logs_reverse plain all_newest_first content
      ≡ some (filtered (is_kept plain all_newest_first) lines))
    × ((x : ℕ) → x ≢ b'\n' → count_lines x lines ≡ count_byte x content)
read_logs_reverse-keeps_example = read_logs_reverse-keeps plain all_newest_first content refl
