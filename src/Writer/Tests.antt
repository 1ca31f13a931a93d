-- ===== src/Writer/Tests.antt =====
-- Runs of a writer with a buffer of two messages.
use nav_control.Base.{◌≡◌, refl, [], ◌∷◌, ◌++◌, true, false, arith}
use nav_control.Go.Text.{Text}
use nav_control.Go.Lines.{IsLine, written}
use nav_control.Writer.Server.{
  WrNatsServer, Machine, no_file, open_file, answers, process_message, flush_temp_file, is_nil,
}
use nav_control.Writer.Files.{flush_temp_file-clean}
use nav_control.Writer.Reach.{Reach}

-- "{}" and "{1}"
abbrev first : Text
first = b'{' ∷ b'}' ∷ []

abbrev second : Text
second = b'{' ∷ b'1' ∷ b'}' ∷ []

first-IsLine : IsLine first
first-IsLine = record {
  some_bytes = omega arith;
  no_break = (λ e. absurd (omega (arith, e)), (λ e. absurd (omega (arith, e)), tt));
}

second-IsLine : IsLine second
second-IsLine = record {
  some_bytes = omega arith;
  no_break = (
    λ e. absurd (omega (arith, e)),
    (λ e. absurd (omega (arith, e)), (λ e. absurd (omega (arith, e)), tt)),
  );
}

-- A machine whose database refuses rows.
abbrev refusing : Machine
refusing = record {
  inserts = λ rows. false;
  creates = true;
  writes = true;
  opens = true;
  removes = true;
  pings = true;
  connecting = answers;
}

abbrev taking : Machine
taking = record refusing { inserts = λ rows. true }

-- The writer at the start.
abbrev idle : WrNatsServer
idle = record {
  size_buf = 2;
  data_buffer = [];
  has_db = true;
  db_connected = true;
  temp_file = no_file;
  contents = [];
  table = [];
  batches = [];
}

abbrev after_two : WrNatsServer
after_two = process_message (λ t. true) second (process_message (λ t. true) first idle)

abbrev filled : WrNatsServer
unfolding written
filled = record idle { temp_file = open_file; contents = written (first ∷ second ∷ []) }

flush_temp_file-clean_example : flush_temp_file taking filled ≡ record filled {
  temp_file = no_file;
  contents = [];
  table = filled.table ++ (first ∷ second ∷ []);
}
unfolding written is_nil
flush_temp_file-clean_example =
    flush_temp_file-clean taking (λ t. refl) filled (first ∷ second ∷ []) refl refl refl refl refl
      (first-IsLine, (second-IsLine, tt)) (omega arith)
