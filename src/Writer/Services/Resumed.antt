-- ===== src/Writer/Services/Resumed.antt =====
-- grpcserver.go and rwnats.go: a writer that is deleted or put down comes back.
use nav_control.Base.{
  ℕ, ◌<◌, ◌≡◌, ◌≢◌, refl, ap, ◌∙◌, List, [], ◌∷◌, ◌++◌, none, some, true, false, ltb, ◌==◌, arith,
  find, find-remove, Bool-cases, inl, inr, if-true,
}
use nav_control.Writer.Server.{Machine, monitor_connections}
use nav_control.Writer.Nats.{
  Link, no_link, open_link, closed_link, Writing, Broker, connect_to_nats, start_subscription,
  drop_link, close_writer, resubscribe, check_nats, tick,
}
use nav_control.Writer.Config.{GrpcServer, World, WriteService}
use nav_control.Writer.Services.{delete_write, tick_deleted, tick_all}

-- A broker that is there for the writer.
pub record IsUp (b : Broker) : Type 0 where
  pub connects : b.connects ≡ true
  pub jet_stream : b.jet_stream ≡ true
  pub has_stream : b.has_stream ≡ true
  pub subscribes : b.subscribes ≡ true

module _ (b : Broker) (up : IsUp b) where
  connect_to_nats-up :
      (w : Writing) → connect_to_nats b w ≡ record w { link = open_link; nats_connected = true }
  unfolding connect_to_nats
  connect_to_nats-up w = elim (Bool-cases w.is_jet_stream) [
    | inl stream ↦ rw (connect_to_nats, up.connects, stream, up.jet_stream) refl
    | inr plain ↦ rw (connect_to_nats, up.connects, plain) refl
  ]

  start_subscription-up :
      (w : Writing)
      → w.nats_connected ≡ true
      → start_subscription b w ≡ (true, record w { subscribed = true })
  unfolding start_subscription
  start_subscription-up w connected = elim (Bool-cases w.is_jet_stream) [
    | inl stream ↦ rw (start_subscription, connected, stream, up.has_stream, up.subscribes) refl
    | inr plain ↦ rw (start_subscription, connected, plain, up.subscribes) refl
  ]

  check_nats-closed :
      (w : Writing)
      → check_nats b closed_link w
        ≡ record w { link = open_link; nats_connected = true; subscribed = true }
  unfolding check_nats resubscribe
  check_nats-closed w =
      ap (resubscribe b) (connect_to_nats-up (record w { nats_connected = false }))
      ∙ ap (λ r. r.1)
          (start_subscription-up (record w { link = open_link; nats_connected = true }) refl)

  tick-closed :
      (m : Machine) (w : Writing)
      → w.link ≡ closed_link
      → 0 < w.monitors
      → tick b m w ≡ record w {
        link = open_link;
        nats_connected = true;
        subscribed = true;
        server = monitor_connections m w.server;
      }
  unfolding tick
  tick-closed m w closed runs =
      let some_run : ltb 0 w.monitors ≡ true = ground (arith, runs) in
      if-true _ _ some_run
      ∙ ap {A = Writing} (λ c. record c { server = monitor_connections m c.server })
          (ap (λ k. check_nats b k w) closed ∙ check_nats-closed w)

drop_link-closed : (k : Link) → k ≢ no_link → drop_link k ≡ closed_link
unfolding drop_link
drop_link-closed no_link h = absurd (h refl)
drop_link-closed open_link h = refl
drop_link-closed closed_link h = refl

tick_all-last :
    (world : World) (w : Writing) (ws : List Writing)
    → tick_all world (ws ++ (w ∷ []))
      ≡ tick_all world ws ++ (tick world.broker world.machine w ∷ [])
unfolding tick_all
tick_all-last world w [] = refl
tick_all-last world w (v ∷ ws) =
    ap (◌∷◌ (tick world.broker world.machine v)) (tick_all-last world w ws)

-- A writer in the map with a connection and a goroutine is not in the map after it is deleted, but
-- at the next tick, where NATS is up, it is connected and subscribed again, as the last of the
-- deleted ones.
pub delete_write-resumes :
    (world later : World) (req : WriteService) (s : GrpcServer) (w : Writing)
    → find req.id_writer s.wr_nats_map ≡ some w
    → w.link ≢ no_link
    → 0 < w.monitors
    → IsUp later.broker
    → (back : Writing) × ((tick_deleted later (delete_write world req s).1).deleted
        ≡ tick_all later s.deleted ++ (back ∷ []))
      × (find req.id_writer (tick_deleted later (delete_write world req s).1).wr_nats_map ≡ none)
      × (back.subscribed ≡ true)
      × (back.link ≡ open_link)
unfolding delete_write tick_deleted close_writer
delete_write-resumes world later req s w there linked runs up =
    let closed = close_writer world.machine w in
    let resumed =
      tick-closed later.broker up later.machine closed (drop_link-closed w.link linked) runs in
    (
      tick later.broker later.machine closed,
      rw (delete_write, there) (tick_all-last later closed s.deleted),
      rw (delete_write, there)
          (find-remove req.id_writer req.id_writer s.wr_nats_map
            ∙ if-true _ _ (same req.id_writer)),
      ap (λ v. v.subscribed) resumed,
      ap (λ v. v.link) resumed,
    )
  where
    same : (k : ℕ) → (k == k) ≡ true
    same k = ground arith
