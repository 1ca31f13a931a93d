-- ===== src/Writer/Services/InStep.antt =====
-- grpcserver.go: the map of writers and the list in the configuration.
use nav_control.Base.{
  ℕ, ◌+◌, ◌-◌, ◌%◌, ◌^◌, ◌≡◌, ◌≢◌, refl, sym, ap, subst, ◌∙◌, List, [], ◌∷◌, ◌++◌, append-nil,
  append_assoc, some, Bool, true, false, arith, find, member, without, IsDistinct,
  IsDistinct-without, IsDistinct-last, Option-cases, inl, inr,
}
use nav_control.Writer.Nats.{Writing, start_writer}
use nav_control.Writer.Config.{Writer, WriteService, GrpcServer, World, written_writer, configured}
use nav_control.Writer.Services.{
  set_writer, start_writers, start_grpc_server, keys, max_id, following_id, after_start, add_write,
  delete_write, set_same, down_write, up_write, tick_writer, tick_deleted, save_config,
}
use nav_control.Writer.Services.Keys.{
  ids, keys-put-fresh, keys-put-same, keys-remove, ids-delete_writer, ids-last, member-before,
  place, max_id-above, member-above,
}

-- The largest identifier is not the largest int32.
unfoldable pub HasRoom : GrpcServer → Type 0
HasRoom s = max_id 0 (keys s.wr_nats_map) % 2 ^ 32 ≢ 2 ^ 31 - 1

following_id-fresh :
    (s : GrpcServer) → HasRoom s → member (following_id s) (keys s.wr_nats_map) ≡ false
unfolding following_id HasRoom
following_id-fresh s room =
    let (first, others) =
      max_id-above (max_id 0 (keys s.wr_nats_map)) 0 (keys s.wr_nats_map) refl in
    member-above (following_id s) (place (max_id 0 (keys s.wr_nats_map))) (keys s.wr_nats_map)
      others (omega (arith, room))

-- The map has the identifiers of the configuration, in the same order, each once.
pub record IsInStep (s : GrpcServer) : Type 0 where
  pub same : keys s.wr_nats_map ≡ ids s.writers
  pub distinct : IsDistinct (ids s.writers)

set_same-IsInStep :
    (id : ℕ) (v w : Writing) (s : GrpcServer)
    → find id s.wr_nats_map ≡ some v
    → IsInStep s
    → IsInStep (set_same id w s)
unfolding set_same
set_same-IsInStep id v w s there i = record {
  same = keys-put-same id w v s.wr_nats_map there ∙ i.same;
  distinct = i.distinct;
}

after_start-IsInStep :
    (world : World) (req : WriteService) (s : GrpcServer) (started : Bool × Writing)
    → HasRoom s
    → IsInStep s
    → IsInStep (after_start world req s started).1
unfolding after_start set_writer save_config written_writer
after_start-IsInStep world req s (false, w) room i = i
after_start-IsInStep world req s (true, w) room i =
    let fresh = following_id-fresh s room in
    record {
      same =
          keys-put-fresh (following_id s) w s.wr_nats_map fresh
          ∙ ap (λ ks. ks ++ (following_id s ∷ [])) i.same
          ∙ sym (ids-last s.writers _);
      distinct = subst IsDistinct (sym (ids-last s.writers _)) (
          IsDistinct-last (following_id s) (ids s.writers)
            (subst (λ ks. member (following_id s) ks ≡ false) i.same fresh) i.distinct);
    }

module _ (world : World) (s : GrpcServer) (i : IsInStep s) where
  add_write-IsInStep : (req : WriteService) → HasRoom s → IsInStep (add_write world req s).1
  unfolding add_write
  add_write-IsInStep req room = elim (Option-cases (find req.id_writer s.wr_nats_map)) [
    | inl absent ↦ rw (add_write, absent) (after_start-IsInStep world req s _ room i)
    | inr (w, there) ↦ rw (add_write, there) i
  ]

  delete_write-IsInStep : (req : WriteService) → IsInStep (delete_write world req s).1
  unfolding delete_write
  delete_write-IsInStep req = elim (Option-cases (find req.id_writer s.wr_nats_map)) [
    | inl absent ↦ rw (delete_write, absent) i
    | inr (w, there) ↦
        let removed = ids-delete_writer req.id_writer s.writers i.distinct in
        rw (delete_write, there)
          (record {
            same =
                keys-remove req.id_writer s.wr_nats_map
                ∙ ap (without req.id_writer) i.same
                ∙ sym removed;
            distinct =
                subst IsDistinct (sym removed)
                  (IsDistinct-without req.id_writer (ids s.writers) i.distinct);
          })
  ]

  down_write-IsInStep : (id : ℕ) → IsInStep (down_write world id s).1
  unfolding down_write
  down_write-IsInStep id = elim (Option-cases (find id s.wr_nats_map)) [
    | inl absent ↦ rw (down_write, absent) i
    | inr (w, there) ↦ rw (down_write, there) (set_same-IsInStep id w _ s there i)
  ]

  up_write-IsInStep : (id : ℕ) → IsInStep (up_write world id s).1
  unfolding up_write
  up_write-IsInStep id = elim (Option-cases (find id s.wr_nats_map)) [
    | inl absent ↦ rw (up_write, absent) i
    | inr (w, there) ↦ rw (up_write, there) (set_same-IsInStep id w _ s there i)
  ]

  tick_writer-IsInStep : (id : ℕ) → IsInStep (tick_writer world id s)
  unfolding tick_writer
  tick_writer-IsInStep id = elim (Option-cases (find id s.wr_nats_map)) [
    | inl absent ↦ rw (tick_writer, absent) i
    | inr (w, there) ↦ rw (tick_writer, there) (set_same-IsInStep id w _ s there i)
  ]

start_writers-keys :
    (worlds : ℕ → World) (n : ℕ) (rs : List Writer) (s : GrpcServer)
    → IsDistinct (keys s.wr_nats_map ++ ids rs)
    → (keys (start_writers worlds n rs s).wr_nats_map ≡ keys s.wr_nats_map ++ ids rs)
      × ((start_writers worlds n rs s).writers ≡ s.writers)
unfolding start_writers ids set_writer
start_writers-keys worlds n [] s d = (sym (append-nil _), refl)
start_writers-keys worlds n (r ∷ rs) s d =
    let started = start_writer (worlds n).broker (worlds n).machine (configured (worlds n) s r) in
    let next = set_writer r.id_writer started.1 s in
    let put_last : keys next.wr_nats_map ≡ keys s.wr_nats_map ++ (r.id_writer ∷ []) =
      keys-put-fresh r.id_writer started.1 s.wr_nats_map
        (member-before r.id_writer (keys s.wr_nats_map) (ids rs) d) in
    let joined : (keys next.wr_nats_map ++ ids rs) ≡ keys s.wr_nats_map ++ (r.id_writer ∷ ids rs) =
      ap (λ ks. ks ++ ids rs) put_last
      ∙ append_assoc (keys s.wr_nats_map) (r.id_writer ∷ []) (ids rs) in
    let (more, kept) =
      start_writers-keys worlds (n + 1) rs next (subst IsDistinct (sym joined) d) in
    (more ∙ joined, kept)

start_grpc_server-IsInStep :
    (worlds : ℕ → World) (s : GrpcServer)
    → s.wr_nats_map ≡ []
    → IsDistinct (ids s.writers)
    → IsInStep (start_grpc_server worlds s)
unfolding start_grpc_server
start_grpc_server-IsInStep worlds s empty d =
    let none_yet : keys s.wr_nats_map ≡ [] = ap keys empty ∙ unfold keys in refl in
    let (same, kept) =
      start_writers-keys worlds 0 s.writers s
        (subst (λ ks. IsDistinct (ks ++ ids s.writers)) (sym none_yet) d) in
    record {
      same = same ∙ ap (λ ks. ks ++ ids s.writers) none_yet ∙ sym (ap ids kept);
      distinct = subst (λ rs. IsDistinct (ids rs)) (sym kept) d;
    }

-- A call, or a tick of a goroutine. A writer is added where the largest identifier is not the largest int32.
pub data Step : GrpcServer → GrpcServer → Type 0 where
  adds :
      (world : World) (req : WriteService) (s : GrpcServer)
      → HasRoom s
      → Step s (add_write world req s).1
  deletes :
      (world : World) (req : WriteService) (s : GrpcServer) → Step s (delete_write world req s).1
  downs : (world : World) (id : ℕ) (s : GrpcServer) → Step s (down_write world id s).1
  ups : (world : World) (id : ℕ) (s : GrpcServer) → Step s (up_write world id s).1
  ticks : (world : World) (id : ℕ) (s : GrpcServer) → Step s (tick_writer world id s)
  late_ticks : (world : World) (s : GrpcServer) → Step s (tick_deleted world s)

pub data Reach : GrpcServer → Type 0 where
  starts :
      (worlds : ℕ → World) (s : GrpcServer)
      → s.wr_nats_map ≡ []
      → IsDistinct (ids s.writers)
      → Reach (start_grpc_server worlds s)
  next : {s t : GrpcServer} → Reach s → Step s t → Reach t

Step-IsInStep : {s t : GrpcServer} → Step s t → IsInStep s → IsInStep t
unfolding tick_deleted
Step-IsInStep (adds world req s room) i = add_write-IsInStep world s i req room
Step-IsInStep (deletes world req s) i = delete_write-IsInStep world s i req
Step-IsInStep (downs world id s) i = down_write-IsInStep world s i id
Step-IsInStep (ups world id s) i = up_write-IsInStep world s i id
Step-IsInStep (ticks world id s) i = tick_writer-IsInStep world s i id
Step-IsInStep (late_ticks world s) i = record { same = i.same; distinct = i.distinct }

-- From a start with an empty map and a configuration of distinct identifiers, after any sequence of
-- calls that add, delete, stop and start writers, with any outcome of NATS, database and disk, and
-- of ticks, each addition where the largest identifier is not the largest int32, the identifiers in
-- the map are those in the configuration, in the same order, and they are distinct.
pub Reach-IsInStep : {s : GrpcServer} → Reach s → IsInStep s
Reach-IsInStep (starts worlds s empty d) = start_grpc_server-IsInStep worlds s empty d
Reach-IsInStep (next reach step) = Step-IsInStep step (Reach-IsInStep reach)
