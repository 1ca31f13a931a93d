-- ===== src/Writer/Reach.antt =====
-- rwnats.go: what stays true of a writer, whatever comes in whatever order.
use nav_control.Base.{ℕ, ◌≡◌, List, [], ◌∷◌, ◌++◌, Bool, true, if◌then◌else◌}
use nav_control.Go.Text.{Text}
use nav_control.Writer.Server.{
  no_file, open_file, WrNatsServer, Machine, process_message, monitor_connections, run_batch,
}
use nav_control.Writer.Held.{IsClean}
use nav_control.Go.Lines.{IsLine}

-- What happens to the writer, with the messages that arrive.
pub data Step : List Text → WrNatsServer → WrNatsServer → Type 0 where
  arrives :
      (is_json : Text → Bool) (t : Text) (w : WrNatsServer)
      → is_json t ≡ true
      → IsLine t
      → Step (t ∷ []) w (process_message is_json t w)
  runs :
      (m : Machine) (i : ℕ) (w : WrNatsServer)
      → m.creates ≡ true
      → m.writes ≡ true
      → Step [] w (run_batch m i w)
  ticks : (m : Machine) (w : WrNatsServer) → IsClean m w → Step [] w (monitor_connections m w)

-- From the state that `Init` leaves, with the messages that arrived on the way.
pub data Reach : List Text → WrNatsServer → Type 0 where
  starts :
      (size_buf : ℕ) (has_db db_connected created : Bool)
      → Reach [] (record {
        size_buf = size_buf;
        data_buffer = [];
        has_db = has_db;
        db_connected = db_connected;
        temp_file = if created then open_file else no_file;
        contents = [];
        table = [];
        batches = [];
      })
  next :
      {received more : List Text} {w u : WrNatsServer}
      → Reach received w
      → Step more w u
      → Reach (received ++ more) u
