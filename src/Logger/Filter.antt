-- ===== src/Logger/Filter.antt =====
-- logger.go: which lines of the log a filter lets through.
use nav_control.Base.{
  ℕ, ◌^◌, [], ◌∷◌, ◌++◌, Option, none, some, Bool, true, false, not, ◌&&◌, ◌||◌, if◌then◌else◌, ltb,
  ◌==◌,
}
use nav_control.Go.Text.{Text, text_eq}

-- `LogEntry`, of what a filter reads. A time is in seconds since 1970, `none` the zero time.
pub record LogEntry : Type 0 where
  pub level : Text
  pub message : Text
  pub time : Option ℕ
  pub id_srv : ℕ
  pub port : ℕ
  pub protocol : Text

-- `Filter`: numbers of 32 bits by their bits, dates from 1970 on.
pub record Filter : Type 0 where
  pub level : Text
  pub start_date : ℕ
  pub end_date : ℕ
  pub limit : ℕ
  pub id_service : ℕ
  pub port : ℕ
  pub protocol : Text
  pub pos_end : Bool
  pub msg : Text

-- What the packages do that the filter calls: json.Unmarshal with the method UnmarshalJSON, where `none` is
-- an error; strings.EqualFold; regexp.MatchString and filepath.Match, where an error counts as no match.
pub record Packages : Type 0 where
  pub parse : Text → Option LogEntry
  pub equal_fold : Text → Text → Bool
  pub match_string : (pattern : Text) → Text → Bool
  pub match_path : (pattern : Text) → Text → Bool

-- `x > 0`, of an int32
unfoldable pub is_positive : ℕ → Bool
is_positive x = ltb 0 x && ltb x (2 ^ 31)

unfoldable pub is_empty : Text → Bool
is_empty [] = true
is_empty (b ∷ t) = false

-- `strings.Contains(s, …)` and `strings.ReplaceAll(s, …, by)`, for a text of one byte.
unfoldable pub contains : ℕ → Text → Bool
contains b [] = false
contains b (c ∷ t) = c == b || contains b t

unfoldable pub replace_all : ℕ → Text → Text → Text
replace_all b by [] = []
replace_all b by (c ∷ t) = (if c == b then by else c ∷ []) ++ replace_all b by t

-- `entry.Time.Before(startTime)` and `entry.Time.After(endTime)`
unfoldable pub is_before : Option ℕ → ℕ → Bool
is_before none t = true
is_before (some s) t = ltb s t

unfoldable pub is_after : Option ℕ → ℕ → Bool
is_after none t = false
is_after (some s) t = ltb t s

module _ (p : Packages) where
  unfoldable pub passes_message : Text → Text → Bool
  passes_message msg message =
      if is_empty msg || text_eq msg (b'*' ∷ [])
      then true
      else if contains b'*' msg
      then p.match_string (b'^' ∷ (replace_all b'*' (b'.' ∷ b'*' ∷ []) msg ++ (b'$' ∷ []))) message
      else if contains b'?' msg
      then p.match_path (replace_all b'?' (b'.' ∷ []) msg) message
      else text_eq message msg

  -- The tests of level and dates, which all three readers have.
  unfoldable pub passes_level : Text → LogEntry → Bool
  passes_level level e = is_empty level || p.equal_fold e.level level

  unfoldable pub passes_dates : (start_date end_date : ℕ) → LogEntry → Bool
  passes_dates start_date end_date e =
      not (not (start_date == 0) && is_before e.time start_date)
      && not (not (end_date == 0) && is_after e.time end_date)

  -- The tests in the loops of ReadLogs and ReadLogsReverse.
  unfoldable pub passes : Filter → LogEntry → Bool
  passes f e =
      passes_level f.level e
      && not (is_positive f.id_service && not (e.id_srv == f.id_service))
      && not (is_positive f.port && not (e.port == f.port))
      && (is_empty f.protocol || p.equal_fold e.protocol f.protocol)
      && passes_dates f.start_date f.end_date e
      && passes_message f.msg e.message

  -- A line that is not JSON is skipped.
  unfoldable pub selects : Filter → Text → Bool
  selects f line = elim (p.parse line) [ none ↦ false | some e ↦ passes f e ]
