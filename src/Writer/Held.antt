-- ===== src/Writer/Held.antt =====
-- rwnats.go: a message goes to the buffer and a batch, and from there to the table or the file.
use nav_control.Base.{
  ℕ, ◌+◌, ◌≤◌, ◌≡◌, ◌≢◌, sym, ap, subst, ◌∙◌, inl, inr, List, [], ◌∷◌, ◌++◌, length, true, leb,
  arith, All, Bool-cases, Option-cases,
}
use nav_control.Go.Text.{Text}
use nav_control.Writer.Server.{
  closed_file, WrNatsServer, Machine, write_batch_to_db, handle_message, buf_size, without_batch,
  run_batch,
}
use nav_control.Writer.Counts.{
  count, count_batches, count-append, count_batches-append, All-append, write_batch_to_db-goes,
  without_batch-split,
}
use nav_control.Go.Lines.{IsLine, written, written-append}

-- How often a message is held, where the file has these records.
unfoldable pub held : Text → (file : List Text) → WrNatsServer → ℕ
held x file w =
    count x w.table + (count x w.data_buffer + (count_batches x w.batches + count x file))

-- Each message that arrived is held as often as it arrived. The file can be written and read.
pub record Conserves (received : List Text) (w : WrNatsServer) : Type 0 where
  pub file : List Text
  pub own : w.contents ≡ written file
  pub lines : All IsLine file
  pub buffered : All IsLine w.data_buffer
  pub pending : All (All IsLine) w.batches
  pub not_closed : w.temp_file ≢ closed_file
  pub total : (x : Text) → held x file w ≡ count x received

-- What a flush needs: the file is read whole, each row is taken, and the file can be removed.
pub record IsClean (m : Machine) (w : WrNatsServer) : Type 0 where
  pub opens : m.opens ≡ true
  pub removes : m.removes ≡ true
  pub inserts : (t : Text) → m.inserts (t ∷ []) ≡ true
  pub small : length w.contents ≤ buf_size

module _ {received : List Text} where
  pub handle_message-Conserves :
      (t : Text) (w : WrNatsServer)
      → IsLine t
      → Conserves received w
      → Conserves (received ++ (t ∷ [])) (handle_message t w)
  unfolding handle_message
  handle_message-Conserves t w line v =
      let buffer = w.data_buffer ++ (t ∷ []) in
      let more : All IsLine buffer =
        All-append IsLine w.data_buffer (t ∷ []) v.buffered (line, tt) in
      elim (Bool-cases (leb w.size_buf (length buffer))) [
        | inl full ↦
            rw (handle_message, full)
              (record {
                file = v.file;
                own = v.own;
                lines = v.lines;
                buffered = tt;
                pending = All-append (All IsLine) w.batches (buffer ∷ []) v.pending (more, tt);
                not_closed = v.not_closed;
                total = λ x.
                    unfold held count count_batches in
                    omega (
                      arith,
                      v.total x,
                      count-append x received (t ∷ []),
                      count-append x w.data_buffer (t ∷ []),
                      count_batches-append x w.batches (buffer ∷ []),
                    );
              })
        | inr room ↦
            rw (handle_message, room)
              (record {
                file = v.file;
                own = v.own;
                lines = v.lines;
                buffered = more;
                pending = v.pending;
                not_closed = v.not_closed;
                total = λ x.
                    unfold held in
                    omega (
                      arith,
                      v.total x,
                      count-append x received (t ∷ []),
                      count-append x w.data_buffer (t ∷ []),
                    );
              })
      ]

  write_batch_to_db-Conserves :
      (m : Machine) (b : List Text) (bs : List (List Text)) (w : WrNatsServer)
      → m.creates ≡ true
      → m.writes ≡ true
      → All IsLine b
      → All (All IsLine) bs
      → ((x : Text) → count_batches x w.batches ≡ count x b + count_batches x bs)
      → Conserves received w
      → Conserves received (write_batch_to_db m b (record w { batches = bs }))
  write_batch_to_db-Conserves m b bs w creates writes line lines split v =
      let u = record w { batches = bs } in
      elim (write_batch_to_db-goes m b u creates writes v.not_closed) [
        | inl e ↦ subst (Conserves received) (sym e) (record {
          file = v.file;
          own = v.own;
          lines = v.lines;
          buffered = v.buffered;
          pending = lines;
          not_closed = v.not_closed;
          total = λ x. unfold held in omega (arith, v.total x, split x, count-append x w.table b);
        })
        | inr e ↦ subst (Conserves received) (sym e) (record {
          file = v.file ++ b;
          own = ap (λ c. c ++ written b) v.own ∙ sym (written-append v.file b);
          lines = All-append IsLine v.file b v.lines line;
          buffered = v.buffered;
          pending = lines;
          not_closed = λ e. cc;
          total = λ x. unfold held in omega (arith, v.total x, split x, count-append x v.file b);
        })
      ]

  pub run_batch-Conserves :
      (m : Machine) (i : ℕ) (w : WrNatsServer)
      → m.creates ≡ true
      → m.writes ≡ true
      → Conserves received w
      → Conserves received (run_batch m i w)
  unfolding run_batch
  run_batch-Conserves m i w creates writes v = elim (Option-cases (without_batch i w.batches)) [
    | inl unknown ↦ rw (run_batch, unknown) v
    | inr ((b, bs), found) ↦
        let (line, lines, split) = without_batch-split i w.batches bs b found v.pending in
        rw (run_batch, found)
          (write_batch_to_db-Conserves m b bs w creates writes line lines split v)
  ]
