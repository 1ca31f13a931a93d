-- ===== src/Receiver/Refine.antt =====
-- manager.go: every operation refines the machine of a single port.
use nav_control.Base.{
  ℕ, ◌≡◌, refl, sym, ap, ◌∙◌, none, some, true, false, Map, find, put, remove, List, member, arith,
  ◌⊎◌, inl, inr, Bool-cases, Option-cases, if-true, if-false, eq→==, without,
}
use nav_control.Receiver.Instance.{
  Kind, PortError, Environment, kind_of_name, new_instance, start, listen_failed,
}
use nav_control.Receiver.Manager.{
  PortInfo, PortDefinition, Ports, done, failed, added, started, stopped, deleted, add_port,
  new_info, start_port, stop_port, delete_port, change_port_description,
}
use nav_control.Receiver.Sound.{is_open, IsSound, HasStream, stop-active}
use nav_control.Receiver.Runs.{
  CanListen, start-listens, add_port-IsSound, change_port_description-IsSound, start_port-IsSound,
  stop_port-IsSound, delete_port-IsSound,
}
use nav_control.Receiver.View.{
  absent, closed, opened, mode_of, view, view-put, view-remove, Command, adding, changing, starting,
  stopping, deleting, target, is_blocked, has_no_kind, next, run, is_done, Refines, without_answer,
}

-- A put at the target.
put-Refines :
    (env : Environment) (c : Command) (s : Ports) (info : PortInfo) (bound : List ℕ)
    → next c (view (target c) s.ports) ≡ some (mode_of info.active)
    → Refines env c s (done tt, record s { ports = put (target c) info s.ports; bound = bound })
unfolding Refines
put-Refines env c s info bound e = inl (record {
  succeeds = refl;
  allowed =
      e
      ∙ ap some (
          sym (
            view-put (target c) (target c) info s.ports
            ∙ if-true _ (view (target c) s.ports) (eq→== (target c) (target c) refl)));
  others = λ p other. view-put p (target c) info s.ports ∙ if-false _ _ other;
})

remove-Refines :
    (env : Environment) (c : Command) (s : Ports) (bound : List ℕ)
    → next c (view (target c) s.ports) ≡ some absent
    → Refines env c s (done tt, record s { ports = remove (target c) s.ports; bound = bound })
unfolding Refines
remove-Refines env c s bound e = inl (record {
  succeeds = refl;
  allowed =
      e
      ∙ ap some (
          sym (
            view-remove (target c) (target c) s.ports
            ∙ if-true _ (view (target c) s.ports) (eq→== (target c) (target c) refl)));
  others = λ p other. view-remove p (target c) s.ports ∙ if-false _ _ other;
})

-- A failure that leaves the state.
same-Refines :
    (env : Environment) (c : Command) (s : Ports) (e : PortError)
    → (next c (view (target c) s.ports) ≡ none) ⊎ (is_blocked env c s ≡ true)
    → Refines env c s (failed e, s)
unfolding Refines is_done
same-Refines env c s e why = inr (record { fails = refl; unchanged = refl; reason = why })

unknown-view : (port : ℕ) (m : Map PortInfo) → find port m ≡ none → view port m ≡ absent
unfolding view
unknown-view port m e = rw (view, e) refl

known-view :
    (port : ℕ) (m : Map PortInfo) (info : PortInfo)
    → find port m ≡ some info
    → view port m ≡ mode_of info.active
unfolding view
known-view port m info e = rw (view, e) refl

module _ (port : ℕ) (s : Ports) where
  mode-active :
      (info : PortInfo)
      → find port s.ports ≡ some info
      → info.active ≡ true
      → view port s.ports ≡ opened
  unfolding mode_of
  mode-active info e active = known-view port s.ports info e ∙ if-true _ _ active

  mode-idle :
      (info : PortInfo)
      → find port s.ports ≡ some info
      → info.active ≡ false
      → view port s.ports ≡ closed
  unfolding mode_of
  mode-idle info e idle = known-view port s.ports info e ∙ if-false _ _ idle

  pub stop_port-Refines :
      (env : Environment) → IsSound s → Refines env (stopping port) s (stop_port port s)
  unfolding stop_port target next stopped mode_of
  stop_port-Refines env h = elim (Option-cases (find port s.ports)) [
    | inl unknown ↦
        rw (stop_port, unknown)
          (same-Refines env (stopping port) s _ (inl (rw (unknown-view port s.ports unknown) refl)))
    | inr (info, e) ↦ elim (Bool-cases info.active) [
      | inl active ↦
          rw (stop_port, e, if-true _ _ active, stop-active info port s active e h)
            (put-Refines env (stopping port) s _ (without port s.bound)
              (rw (mode-active info e active) refl))
      | inr idle ↦
          rw (stop_port, e, if-false _ _ idle)
            (same-Refines env (stopping port) s _ (inl (rw (mode-idle info e idle) refl)))
    ]
  ]

  pub delete_port-Refines :
      (env : Environment) → IsSound s → Refines env (deleting port) s (delete_port port s)
  unfolding delete_port target next deleted
  delete_port-Refines env h = elim (Option-cases (find port s.ports)) [
    | inl unknown ↦
        rw (delete_port, unknown)
          (same-Refines env (deleting port) s _ (inl (rw (unknown-view port s.ports unknown) refl)))
    | inr (info, e) ↦ elim (Bool-cases info.active) [
      | inl active ↦
          rw (delete_port, e, if-true _ _ active, stop-active info port s active e h)
            (remove-Refines env (deleting port) s (without port s.bound)
              (rw (mode-active info e active) refl))
      | inr idle ↦
          rw (delete_port, e, if-false _ _ idle)
            (remove-Refines env (deleting port) s s.bound (rw (mode-idle info e idle) refl))
    ]
  ]

  pub start_port-Refines :
      (env : Environment)
      → HasStream env s
      → IsSound s
      → Refines env (starting port) s (start_port env port s)
  unfolding start_port target next is_blocked has_no_kind mode_of HasStream started is_open start
  start_port-Refines env streams h = elim (Option-cases (find port s.ports)) [
    | inl unknown ↦
        rw (start_port, unknown)
          (same-Refines env (starting port) s _ (inl (rw (unknown-view port s.ports unknown) refl)))
    | inr (info, e) ↦ elim (Option-cases (kind_of_name info.protocol)) [
      | inl other ↦
          rw (start_port, e, other)
            (same-Refines env (starting port) s _ (inr (ground (arith, e, other))))
      | inr (k, ek) ↦ elim (Bool-cases info.active) [
        | inl active ↦
            rw (start_port, e, ek, if-true _ _ active)
              (same-Refines env (starting port) s _ (inl (rw (mode-active info e active) refl)))
        | inr idle ↦
            let free : member port s.bound ≡ false = ground (arith, h.opens port, e, idle) in
            rw (start_port, e, ek, if-false _ _ idle) (starts info k free (mode-idle info e idle))
      ]
    ]
  ]
    where
      starts :
          (info : PortInfo) (k : Kind)
          → member port s.bound ≡ false
          → view port s.ports ≡ closed
          → Refines env
              (starting port)
              s
              (started info port s (start env s.is_jet_stream port (new_instance k) s.bound))
      starts info k free idle =
          let instance = new_instance k in
          elim (Bool-cases (env.listens port)) [
            | inl listens ↦
                rw (start-listens env s.is_jet_stream port instance s.bound free listens streams)
                  (put-Refines env (starting port) s _ _ (rw idle refl))
            | inr fails ↦
                let refused : start env s.is_jet_stream port instance s.bound
                    ≡ (some listen_failed, record instance { listener = none }, s.bound) =
                  ground (arith, free, fails) in
                rw refused (same-Refines env (starting port) s _ (inr (ground (arith, fails))))
          ]

module _ (env : Environment) (req : PortDefinition) (s : Ports) where
  change-Refines : Refines env (changing req) s (run env (changing req) s)
  unfolding run change_port_description target next without_answer mode_of is_done Refines
  change-Refines = elim (Option-cases (find req.port_receiver s.ports)) [
    | inl unknown ↦
        rw (change_port_description, unknown)
          (inr (record {
            fails = refl;
            unchanged = refl;
            reason = inl (rw (unknown-view req.port_receiver s.ports unknown) refl);
          }))
    | inr (info, e) ↦
        rw (change_port_description, e) (put-Refines env (changing req) s _ s.bound (keeps info e))
  ]
    where
      keeps :
          (info : PortInfo)
          → find req.port_receiver s.ports ≡ some info
          → next (changing req) (view req.port_receiver s.ports) ≡ some (mode_of info.active)
      keeps info e = elim (Bool-cases info.active) [
        | inl active ↦ rw (mode-active req.port_receiver s info e active, active) refl
        | inr idle ↦ rw (mode-idle req.port_receiver s info e idle, idle) refl
      ]

  add_port-Refines :
      HasStream env s
      → CanListen env req
      → IsSound s
      → Refines env (adding req) s (add_port env req s)
  unfolding add_port added target next is_blocked has_no_kind HasStream CanListen new_info is_open
      mode_of
  add_port-Refines streams listens h = elim (Option-cases (find req.port_receiver s.ports)) [
    | inr (info, e) ↦ rw (add_port, e) (same-Refines env (adding req) s _ (inl (in_use_lem info e)))
    | inl free ↦ elim (Option-cases (kind_of_name req.protocol)) [
      | inl other ↦
          rw (add_port, free, other)
            (same-Refines env (adding req) s _ (inr (rw (has_no_kind, other) refl)))
      | inr (k, ek) ↦ elim (Bool-cases req.active) [
        | inr idle ↦
            rw (add_port, free, ek, if-false _ _ idle)
              (put-Refines env (adding req) s (new_info req k) s.bound
                (rw (unknown-view req.port_receiver s.ports free) refl))
        | inl active ↦
            let closed : member req.port_receiver s.bound ≡ false =
              ground (arith, h.opens req.port_receiver, free) in
            rw
              (
                add_port,
                free,
                ek,
                if-true _ _ active,
                start-listens env s.is_jet_stream req.port_receiver (new_instance k) s.bound closed
                    (listens active) streams,
              )
              (put-Refines env (adding req) s _ _
                (rw (unknown-view req.port_receiver s.ports free) refl))
      ]
    ]
  ]
    where
      in_use_lem :
          (info : PortInfo)
          → find req.port_receiver s.ports ≡ some info
          → next (adding req) (view req.port_receiver s.ports) ≡ none
      in_use_lem info e = elim (Bool-cases info.active) [
        | inl active ↦ rw (mode-active req.port_receiver s info e active) refl
        | inr idle ↦ rw (mode-idle req.port_receiver s info e idle) refl
      ]

-- What a call that binds a port needs: JetStream comes up, and the port of a new entry can be bound.
unfoldable pub CanRun : Environment → Command → Ports → Type 0
CanRun env (adding req) s = HasStream env s × CanListen env req
CanRun env (changing req) s = Unit {0}
CanRun env (starting port) s = HasStream env s
CanRun env (stopping port) s = Unit {0}
CanRun env (deleting port) s = Unit {0}

-- On a sound state, where JetStream comes up and the port of a new active entry can be bound, each
-- operation either succeeds, moves its port to the mode that the machine of a single port says, and
-- leaves the modes of the other ports, or fails, changes nothing, and was not allowed in that mode,
-- or blocked by an unknown protocol or a port that cannot be bound.
pub run-Refines :
    (env : Environment) (c : Command) (s : Ports)
    → CanRun env c s
    → IsSound s
    → Refines env c s (run env c s)
unfolding run CanRun
run-Refines env (adding req) s can h = add_port-Refines env req s can.0 can.1 h
run-Refines env (changing req) s can h = change-Refines env req s
run-Refines env (starting port) s can h = start_port-Refines port s env can h
run-Refines env (stopping port) s can h = stop_port-Refines port s env h
run-Refines env (deleting port) s can h = delete_port-Refines port s env h

pub run-IsSound :
    (env : Environment) (c : Command) (s : Ports)
    → CanRun env c s
    → IsSound s
    → IsSound (run env c s).1
unfolding run CanRun
run-IsSound env (adding req) s can h = add_port-IsSound env req s can.0 can.1 h
run-IsSound env (changing req) s can h = change_port_description-IsSound req s h
run-IsSound env (starting port) s can h = start_port-IsSound env port s can h
run-IsSound env (stopping port) s can h = stop_port-IsSound port s h
run-IsSound env (deleting port) s can h = delete_port-IsSound port s h
