-- ===== src/Writer/Server.antt =====
-- rwnats.go: the buffer, the batches, the file for bad times, and the connection to the database.
use nav_control.Base.{
  ℕ, zero, suc, List, [], ◌∷◌, ◌++◌, length, take, drop, Option, none, some, Bool, true, false,
  ◌&&◌, if◌then◌else◌, leb,
}
use nav_control.Go.Text.{Text}
use nav_control.Go.Lines.{split_lines}

-- `tempFile`: nil, a file that is open for writing, or one that was closed.
pub data TempFile : Type 0 where
  no_file open_file closed_file : TempFile

-- `WrNatsServer`, with the contents of the file, the rows of the table, and the batches whose goroutine has
-- not run yet. `has_db` tells that `db` is not nil.
pub record WrNatsServer : Type 0 where
  pub size_buf : ℕ
  pub data_buffer : List Text
  pub has_db : Bool
  pub db_connected : Bool
  pub temp_file : TempFile
  pub contents : Text
  pub table : List Text
  pub batches : List (List Text)

-- How `connectToDB` gets on: no pool, a pool that does not answer, or one that does.
pub data Connecting : Type 0 where
  bad_config no_pool no_answer answers : Connecting

-- What the machine does: whether an INSERT of these rows succeeds, which fails as a whole; and whether the
-- file can be created, written, opened for reading, and removed.
pub record Machine : Type 0 where
  pub inserts : List Text → Bool
  pub creates : Bool
  pub writes : Bool
  pub opens : Bool
  pub removes : Bool
  pub pings : Bool
  pub connecting : Connecting

-- `createTempFile`
unfoldable pub create_temp_file : Machine → WrNatsServer → WrNatsServer
create_temp_file m w = record w { temp_file = if m.creates then open_file else no_file }

-- `writeToTempFile`: what cannot be written is logged and dropped.
unfoldable pub write_open : Machine → Text → TempFile → WrNatsServer → WrNatsServer
write_open m item no_file w = w
write_open m item closed_file w = w
write_open m item open_file w =
    if m.writes then record w { contents = w.contents ++ (item ++ (b'\n' ∷ [])) } else w

unfoldable pub write_to_temp_file : Machine → Text → WrNatsServer → WrNatsServer
write_to_temp_file m item w = write_open m item w.temp_file w

-- `for _, item := range data { w.writeToTempFile(item) }`
unfoldable pub write_items : Machine → List Text → WrNatsServer → WrNatsServer
write_items m [] w = w
write_items m (item ∷ items) w = write_items m items (write_to_temp_file m item w)

unfoldable pub is_nil : TempFile → Bool
is_nil no_file = true
is_nil open_file = false
is_nil closed_file = false

-- `if w.tempFile == nil { w.createTempFile() }`, and the loop.
unfoldable pub store : Machine → List Text → WrNatsServer → WrNatsServer
store m items w = write_items m items (if is_nil w.temp_file then create_temp_file m w else w)

-- `writeBatchToDB`
unfoldable pub write_batch_to_db : Machine → List Text → WrNatsServer → WrNatsServer
write_batch_to_db m [] w = if w.db_connected then w else store m [] w
write_batch_to_db m (item ∷ items) w =
    if w.db_connected && m.inserts (item ∷ items)
    then record w { table = w.table ++ (item ∷ items) }
    else store m (item ∷ items) w

-- `handleMessage`
unfoldable pub handle_message : Text → WrNatsServer → WrNatsServer
handle_message item w =
    let buffer = w.data_buffer ++ (item ∷ []) in
    if leb w.size_buf (length buffer)
    then record w { data_buffer = []; batches = w.batches ++ (buffer ∷ []) }
    else record w { data_buffer = buffer }

-- `processMessage`, and the body of the subscription with JetStream: `is_json` is `isValidJSON`.
unfoldable pub process_message : (is_json : Text → Bool) → Text → WrNatsServer → WrNatsServer
process_message is_json item w = if is_json item then handle_message item w else w

-- The loop over `file.Read(buf)`, with a buffer of so many bytes: each part is split by itself.
unfoldable pub read_lines : (fuel size : ℕ) → Text → List Text
read_lines zero size s = []
read_lines (suc fuel) size [] = []
read_lines (suc fuel) size (b ∷ s) =
    split_lines (take size (b ∷ s)) ++ read_lines fuel size (drop size (b ∷ s))

-- `writeToDB` of each line that is not empty, up to the first that fails; whether all went well.
unfoldable pub write_lines : Machine → List Text → WrNatsServer → Bool × WrNatsServer
write_lines m [] w = (true, w)
write_lines m ([] ∷ lines) w = write_lines m lines w
write_lines m ((b ∷ line) ∷ lines) w =
    let next = write_lines m lines (record w { table = w.table ++ ((b ∷ line) ∷ []) }) in
    if m.inserts ((b ∷ line) ∷ []) then next else (false, w)

unfoldable pub after_lines : Machine → Bool × WrNatsServer → WrNatsServer
after_lines m (false, w) = w
after_lines m (true, w) = if m.removes then record w { temp_file = no_file; contents = [] } else w

abbrev pub buf_size : ℕ
buf_size = 1024

-- `flushTempFile`: the file is closed first, and stays closed where something fails.
unfoldable pub flush_temp_file : Machine → WrNatsServer → WrNatsServer
flush_temp_file m w =
    if is_nil w.temp_file
    then w
    else if w.db_connected
    then (let closed = record w { temp_file = closed_file } in
        if m.opens
        then after_lines m
            (write_lines m (read_lines (length w.contents) buf_size w.contents) closed)
        else closed)
    else w

-- `connectToDB`
unfoldable pub connect_to_db : Machine → Connecting → WrNatsServer → WrNatsServer
connect_to_db m bad_config w = record w { db_connected = false }
connect_to_db m no_pool w = record w { db_connected = false; has_db = false }
connect_to_db m no_answer w = record w { db_connected = false; has_db = true }
connect_to_db m answers w = flush_temp_file m (record w { db_connected = true; has_db = true })

-- A tick of `MonitorConnections`: the database.
unfoldable pub check_db : Machine → WrNatsServer → WrNatsServer
check_db m w =
    if w.has_db
    then (if m.pings
        then (if w.db_connected then w else flush_temp_file m (record w { db_connected = true }))
        else connect_to_db m m.connecting (record w { db_connected = false }))
    else w

-- A tick: what is in the buffer goes to a goroutine.
unfoldable pub start_batch : List Text → WrNatsServer → WrNatsServer
start_batch [] w = w
start_batch (item ∷ items) w =
    if w.db_connected
    then record w { data_buffer = []; batches = w.batches ++ ((item ∷ items) ∷ []) }
    else w

unfoldable pub start_buffer : WrNatsServer → WrNatsServer
start_buffer w = start_batch w.data_buffer w

-- A tick of `MonitorConnections`, of what concerns the database.
unfoldable pub monitor_connections : Machine → WrNatsServer → WrNatsServer
monitor_connections m w = start_buffer (check_db m w)

-- `Close`, of what it does with the buffer, which it does not empty, and the file.
unfoldable pub close_buffer : Machine → List Text → WrNatsServer → WrNatsServer
close_buffer m [] w = w
close_buffer m (item ∷ items) w =
    if w.db_connected
    then write_batch_to_db m (item ∷ items) w
    else if is_nil w.temp_file
    then w
    else write_items m (item ∷ items) w

unfoldable pub close_file : TempFile → TempFile
close_file no_file = no_file
close_file open_file = closed_file
close_file closed_file = closed_file

unfoldable pub close : Machine → WrNatsServer → WrNatsServer
close m w =
    let left = close_buffer m w.data_buffer w in
    record left { temp_file = close_file left.temp_file }

-- The goroutine of the i-th batch.
unfoldable pub without_batch : ℕ → List (List Text) → Option (List Text × List (List Text))
without_batch i [] = none
without_batch zero (b ∷ bs) = some (b, bs)
without_batch (suc i) (b ∷ bs) = elim (without_batch i bs) [
  | none ↦ none
  | some (c, cs) ↦ some (c, b ∷ cs)
]

unfoldable pub run_batch : Machine → ℕ → WrNatsServer → WrNatsServer
run_batch m i w = elim (without_batch i w.batches) [
  | none ↦ w
  | some (items, batches) ↦ write_batch_to_db m items (record w { batches = batches })
]
