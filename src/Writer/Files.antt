-- ===== src/Writer/Files.antt =====
-- rwnats.go: what is written to the file is read back from it, line by line.
use nav_control.Base.{
  ℕ, zero, suc, ◌≤◌, ◌≡◌, ◌≢◌, refl, sym, ap, ◌∙◌, List, [], ◌∷◌, ◌++◌, length, append_assoc,
  append-nil, length-append, true, false, if◌then◌else◌, arith, All, if-true, if-false,
}
use nav_control.Go.Text.{Text}
use nav_control.Go.Lines.{IsLine, written, split_lines, split_lines-written, take-all, drop-all}
use nav_control.Writer.Server.{
  TempFile, no_file, open_file, closed_file, WrNatsServer, Machine, create_temp_file, write_open,
  write_to_temp_file, write_items, is_nil, store, read_lines, write_lines, after_lines, buf_size,
  flush_temp_file,
}

-- A file that one call of Read takes whole.
read_lines-small :
    (size : ℕ) (b : ℕ) (s : Text)
    → length (b ∷ s) ≤ size
    → read_lines (length (b ∷ s)) size (b ∷ s) ≡ split_lines (b ∷ s)
unfolding read_lines
read_lines-small size b s h =
    rw (take-all size (b ∷ s) h, drop-all size (b ∷ s) h)
      (ap (λ l. split_lines (b ∷ s) ++ l) (none_left (length s)) ∙ append-nil _)
  where
    none_left : (k : ℕ) → read_lines k size [] ≡ []
    none_left zero = refl
    none_left (suc k) = refl

module _ (m : Machine) (inserts : (t : Text) → m.inserts (t ∷ []) ≡ true) where
  write_lines-none :
      (w : WrNatsServer) → write_lines m [] w ≡ (true, record w { table = w.table ++ [] })
  unfolding write_lines
  write_lines-none w = ap (λ t. (true, record w { table = t })) (sym (append-nil w.table))

  write_lines-rows :
      (ts : List Text) (w : WrNatsServer)
      → All IsLine ts
      → write_lines m (ts ++ ([] ∷ [])) w ≡ (true, record w { table = w.table ++ ts })
  unfolding write_lines
  write_lines-rows [] w h = ap (λ t. (true, record w { table = t })) (sym (append-nil w.table))
  write_lines-rows ([] ∷ ts) w (h, hs) = absurd (omega (arith, h.some_bytes))
  write_lines-rows ((b ∷ t) ∷ ts) w (h, hs) = rw (inserts (b ∷ t)) (
      write_lines-rows ts (record w { table = w.table ++ ((b ∷ t) ∷ []) }) hs
      ∙ ap (λ rows. (true, record w { table = rows })) (append_assoc w.table ((b ∷ t) ∷ []) ts))

  write_lines-written :
      (s : Text) (ts : List Text) (w : WrNatsServer)
      → s ≡ written ts
      → All IsLine ts
      → length s ≤ buf_size
      → write_lines m (read_lines (length s) buf_size s) w
        ≡ (true, record w { table = w.table ++ ts })
  unfolding read_lines
  write_lines-written [] [] w e lines small = write_lines-none w
  write_lines-written [] (t ∷ ts) w e lines small = absurd (
      unfold written in
      omega (arith, ap (length {A = ℕ}) e, length-append t ((b'\n' ∷ []) ++ written ts)))
  write_lines-written (b ∷ s) ts w e lines small =
      ap (λ l. write_lines m l w)
        (read_lines-small buf_size b s small ∙ ap split_lines e ∙ split_lines-written ts lines)
      ∙ write_lines-rows ts w lines

  -- If there is a file, with the lines of some records that are not empty and have no line breaks,
  -- at most 1024 bytes of them, the database is connected and takes each row, and the file can be
  -- opened and removed, then a flush adds these records to the table in order, empties the file and
  -- forgets it.
  pub flush_temp_file-clean :
      (w : WrNatsServer) (ts : List Text)
      → is_nil w.temp_file ≡ false
      → w.db_connected ≡ true
      → m.opens ≡ true
      → m.removes ≡ true
      → w.contents ≡ written ts
      → All IsLine ts
      → length w.contents ≤ buf_size
      → flush_temp_file m w ≡ record w { temp_file = no_file; contents = []; table = w.table ++ ts }
  unfolding flush_temp_file after_lines
  flush_temp_file-clean w ts there connected opens removes own lines small =
      if-false _ _ there
      ∙ if-true _ _ connected
      ∙ if-true _ _ opens
      ∙ ap (after_lines m)
          (write_lines-written w.contents ts (record w { temp_file = closed_file }) own lines small)
      ∙ if-true _ _ removes

module _ (m : Machine) (creates : m.creates ≡ true) (writes : m.writes ≡ true) where
  write_to_temp_file-open :
      (t : Text) (w : WrNatsServer)
      → w.temp_file ≡ open_file
      → write_to_temp_file m t w ≡ record w { contents = w.contents ++ (t ++ (b'\n' ∷ [])) }
  unfolding write_to_temp_file write_open
  write_to_temp_file-open t w e = ap (λ k. write_open m t k w) e ∙ if-true _ _ writes

  write_items-open :
      (ts : List Text) (w : WrNatsServer)
      → w.temp_file ≡ open_file
      → write_items m ts w ≡ record w { contents = w.contents ++ written ts }
  unfolding write_items written
  write_items-open [] w e = ap (λ c. record w { contents = c }) (sym (append-nil w.contents))
  write_items-open (t ∷ ts) w e =
      ap (write_items m ts) (write_to_temp_file-open t w e)
      ∙ write_items-open ts (record w { contents = w.contents ++ (t ++ (b'\n' ∷ [])) }) e
      ∙ ap (λ c. record w { contents = c })
          (append_assoc w.contents (t ++ (b'\n' ∷ [])) (written ts)
            ∙ ap (◌++◌ w.contents) (append_assoc t (b'\n' ∷ []) (written ts)))

  opened-open :
      (w : WrNatsServer) (k : TempFile)
      → k ≡ w.temp_file
      → k ≢ closed_file
      → (if is_nil k then create_temp_file m w else w) ≡ record w { temp_file = open_file }
  unfolding is_nil create_temp_file
  opened-open w no_file e h = rw creates refl
  opened-open w open_file e h = ap (λ k. record w { temp_file = k }) (sym e)
  opened-open w closed_file e h = absurd (h refl)

  -- A file that is not closed takes them all.
  pub store-open :
      (ts : List Text) (w : WrNatsServer)
      → w.temp_file ≢ closed_file
      → store m ts w ≡ record w { temp_file = open_file; contents = w.contents ++ written ts }
  unfolding store
  store-open ts w h =
      ap (write_items m ts) (opened-open w w.temp_file refl h)
      ∙ write_items-open ts (record w { temp_file = open_file }) refl
