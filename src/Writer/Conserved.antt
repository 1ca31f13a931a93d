-- ===== src/Writer/Conserved.antt =====
-- rwnats.go: a flush of the file and the ticks of the monitor keep each message.
use nav_control.Base.{
  ◌≡◌, refl, sym, ap, subst, inl, inr, List, [], ◌∷◌, Bool, true, false, arith, All, Bool-cases,
  if-true, if-false,
}
use nav_control.Go.Text.{Text}
use nav_control.Writer.Server.{
  WrNatsServer, Machine, Connecting, bad_config, no_pool, no_answer, answers, is_nil,
  flush_temp_file, connect_to_db, check_db, start_batch,
}
use nav_control.Writer.Counts.{count, count_batches, count-append, count_batches-append, All-append}
use nav_control.Go.Lines.{IsLine, written}
use nav_control.Writer.Files.{flush_temp_file-clean}
use nav_control.Writer.Held.{Conserves, held, IsClean}

module _ {received : List Text} where
  flush_temp_file-Conserves :
      (m : Machine) (w : WrNatsServer)
      → w.db_connected ≡ true
      → IsClean m w
      → Conserves received w
      → Conserves received (flush_temp_file m w)
  unfolding flush_temp_file
  flush_temp_file-Conserves m w connected clean v = elim (Bool-cases (is_nil w.temp_file)) [
    | inl nil ↦ rw (flush_temp_file, if-true _ _ nil) v
    | inr there ↦
        subst (Conserves received)
          (sym (
            flush_temp_file-clean m clean.inserts w v.file there connected clean.opens clean.removes
              v.own v.lines clean.small))
          (record {
            file = [];
            own = unfold written in refl;
            lines = tt;
            buffered = v.buffered;
            pending = v.pending;
            not_closed = λ e. cc;
            total =
                λ x. unfold held count in omega (arith, v.total x, count-append x w.table v.file);
          })
  ]

  flags-Conserves :
      (w : WrNatsServer) (has_db db_connected : Bool)
      → Conserves received w
      → Conserves received (record w { has_db = has_db; db_connected = db_connected })
  flags-Conserves w has_db db_connected v = record {
    file = v.file;
    own = v.own;
    lines = v.lines;
    buffered = v.buffered;
    pending = v.pending;
    not_closed = v.not_closed;
    total = λ x. unfold held in v.total x;
  }

  connect_to_db-Conserves :
      (m : Machine) (c : Connecting) (w : WrNatsServer)
      → IsClean m w
      → Conserves received w
      → Conserves received (connect_to_db m c w)
  unfolding connect_to_db
  connect_to_db-Conserves m bad_config w clean v = flags-Conserves w w.has_db false v
  connect_to_db-Conserves m no_pool w clean v = flags-Conserves w false false v
  connect_to_db-Conserves m no_answer w clean v = flags-Conserves w true false v
  connect_to_db-Conserves m answers w clean v =
      flush_temp_file-Conserves m (record w { db_connected = true; has_db = true }) refl
        (record {
          opens = clean.opens;
          removes = clean.removes;
          inserts = clean.inserts;
          small = clean.small;
        })
        (flags-Conserves w true true v)

  pub check_db-Conserves :
      (m : Machine) (w : WrNatsServer)
      → IsClean m w
      → Conserves received w
      → Conserves received (check_db m w)
  unfolding check_db
  check_db-Conserves m w clean v = elim (Bool-cases w.has_db) [
    | inr none_yet ↦ rw (check_db, if-false _ _ none_yet) v
    | inl there ↦ elim (Bool-cases m.pings) [
      | inr lost ↦
          rw (check_db, if-true _ _ there, if-false _ _ lost)
            (connect_to_db-Conserves m m.connecting (record w { db_connected = false })
              (record {
                opens = clean.opens;
                removes = clean.removes;
                inserts = clean.inserts;
                small = clean.small;
              })
              (flags-Conserves w w.has_db false v))
      | inl reachable ↦ elim (Bool-cases w.db_connected) [
        | inl known ↦ rw (check_db, if-true _ _ there, if-true _ _ reachable, if-true _ _ known) v
        | inr new ↦
            rw (check_db, if-true _ _ there, if-true _ _ reachable, if-false _ _ new)
              (flush_temp_file-Conserves m (record w { db_connected = true }) refl
                (record {
                  opens = clean.opens;
                  removes = clean.removes;
                  inserts = clean.inserts;
                  small = clean.small;
                })
                (flags-Conserves w w.has_db true v))
      ]
    ]
  ]

  pub start_batch-Conserves :
      (buffer : List Text) (w : WrNatsServer)
      → buffer ≡ w.data_buffer
      → Conserves received w
      → Conserves received (start_batch buffer w)
  unfolding start_batch
  start_batch-Conserves [] w e v = v
  start_batch-Conserves (t ∷ ts) w e v = elim (Bool-cases w.db_connected) [
    | inr away ↦ rw (start_batch, if-false _ _ away) v
    | inl there ↦
        rw (start_batch, if-true _ _ there)
          (record {
            file = v.file;
            own = v.own;
            lines = v.lines;
            buffered = tt;
            pending =
                All-append (All IsLine) w.batches ((t ∷ ts) ∷ []) v.pending
                  (subst (All IsLine) (sym e) v.buffered, tt);
            not_closed = v.not_closed;
            total = λ x.
                unfold held count_batches count in
                omega (
                  arith,
                  v.total x,
                  ap (count x) e,
                  count_batches-append x w.batches ((t ∷ ts) ∷ []),
                );
          })
  ]
