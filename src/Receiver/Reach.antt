-- ===== src/Receiver/Reach.antt =====
-- PortManager.Start and the calls after it: the states that the receiver reaches.
use nav_control.Base.{
  IsDistinct, find, ℕ, ◌≡◌, refl, ◌∙◌, List, [], ◌∷◌, none, Bool, true, false, if◌then◌else◌, ◌==◌,
  member, arith, inl, inr, eq→==, if-true,
}
use nav_control.Receiver.Instance.{Environment}
use nav_control.Receiver.Manager.{PortDefinition, Ports, add_port}
use nav_control.Receiver.Config.{Receiver, cfg_to_proto}
use nav_control.Receiver.Sound.{IsSound, HasStream, is_open}
use nav_control.Receiver.Runs.{CanListen}
use nav_control.Receiver.View.{
  Mode, absent, closed, opened, view, is_known, adding, target, run, next, is_done, is_blocked,
  has_no_kind, IsAccepted, IsRefused, Refines,
}
use nav_control.Receiver.Refine.{CanRun, run-Refines, run-IsSound}
use nav_control.Receiver.Numbers.{numbers}
use nav_control.Receiver.Synced.{IsSynced, saves, change_of, known-accepted}
use nav_control.Receiver.Control.{Server, init_ports, start_manager}
use nav_control.Receiver.Invariant.{Request, handle, Serves, handle-IsSynced}

-- Each configured port has a known protocol, and can be bound if it is active.
unfoldable pub Configured : Environment → List Receiver → Type 0
Configured env [] = Unit {0}
Configured env (r ∷ rs) =
    (has_no_kind r.protocol ≡ false)
    × (r.active ≡ true → env.listens r.port_receiver ≡ true)
    × Configured env rs

-- A port that is not there is added.
add_port-known :
    (env : Environment) (req : PortDefinition) (m : Ports) (p : ℕ)
    → HasStream env m
    → CanListen env req
    → has_no_kind req.protocol ≡ false
    → is_known (view req.port_receiver m.ports) ≡ false
    → IsSound m
    → is_known (view p (add_port env req m).1.ports)
      ≡ (if req.port_receiver == p then true else is_known (view p m.ports))
unfolding CanRun run Refines saves change_of target is_blocked next is_done is_known
add_port-known env req m p streams listens kind free h =
    elim (run-Refines env (adding req) m (streams, listens) h) [
      | inl ok ↦ added_lem ok
      | inr refused ↦ absurd (not_refused refused)
    ]
  where
    added_lem :
        IsAccepted env (adding req) m (add_port env req m)
        → is_known (view p (add_port env req m).1.ports)
          ≡ (if req.port_receiver == p then true else is_known (view p m.ports))
    added_lem ok = known-accepted env (adding req) req m (add_port env req m) p refl ok

    allows : (n : Mode) → is_known n ≡ false → next (adding req) n ≡ none → ⊥
    allows absent free e = ground (arith, e)
    allows closed free e = ground (arith, free)
    allows opened free e = ground (arith, free)

    not_refused : IsRefused env (adding req) m (add_port env req m) → ⊥
    not_refused refused = elim refused.reason [
      | inl blocked ↦ allows (view req.port_receiver m.ports) free blocked
      | inr blocked ↦ ground (arith, blocked, kind)
    ]

pub init_ports-known :
    (env : Environment) (rs : List Receiver) (m : Ports)
    → env.streams ≡ true
    → Configured env rs
    → IsDistinct (numbers rs)
    → ((p : ℕ) → member p (numbers rs) ≡ true → is_known (view p m.ports) ≡ false)
    → IsSound m
    → IsSound (init_ports env rs m)
      × ((p : ℕ)
          → is_known (view p (init_ports env rs m).ports)
            ≡ (if member p (numbers rs) then true else is_known (view p m.ports)))
unfolding init_ports Configured numbers IsDistinct member cfg_to_proto CanRun run CanListen
    HasStream
init_ports-known env [] m streams configured d free h = (h, λ p. refl)
init_ports-known env (r ∷ rs) m streams configured d free h =
    let req = cfg_to_proto r in
    let m1 = (add_port env req m).1 in
    let own : is_known (view r.port_receiver m.ports) ≡ false =
      free r.port_receiver (if-true _ _ (eq→== r.port_receiver r.port_receiver refl)) in
    let h1 : IsSound m1 = run-IsSound env (adding req) m (λ jet. streams, configured.1) h in
    let known1 : (p : ℕ)
        → is_known (view p m1.ports)
          ≡ (if r.port_receiver == p then true else is_known (view p m.ports)) =
      λ p. add_port-known env req m p (λ jet. streams) configured.1 configured.0 own h in
    let later =
      init_ports-known env rs m1 streams configured.2 d.1 (λ p e. free_later p e (known1 p)) h1 in
    (later.0, λ p. later.1 p ∙ both p (known1 p))
  where
    free_later :
        (p : ℕ) {b : Bool}
        → member p (numbers rs) ≡ true
        → b ≡ (if r.port_receiver == p then true else is_known (view p m.ports))
        → b ≡ false
    free_later p e k = ground (arith, d.0, e, k, free p)

    both :
        (p : ℕ) {b : Bool}
        → b ≡ (if r.port_receiver == p then true else is_known (view p m.ports))
        → (if member p (numbers rs) then true else b)
          ≡ (if member p (r.port_receiver ∷ numbers rs) then true else is_known (view p m.ports))
    both p k = ground (arith, k)

empty-IsSound : (jet : Bool) → IsSound (record { ports = []; bound = []; is_jet_stream = jet })
unfolding is_open find member
empty-IsSound jet = record {
  entries = λ port info e. absurd (ground (arith, e));
  opens = λ port. refl;
}

pub start_manager-IsSynced :
    (env : Environment) (jet : Bool) (rs : List Receiver)
    → env.streams ≡ true
    → Configured env rs
    → IsDistinct (numbers rs)
    → IsSynced (start_manager env jet rs)
unfolding start_manager is_known view find
start_manager-IsSynced env jet rs streams configured d =
    let empty : Ports = record { ports = []; bound = []; is_jet_stream = jet } in
    let started =
      init_ports-known env rs empty streams configured d (λ p e. refl) (empty-IsSound jet) in
    record { sound = started.0; distinct = d; synced = λ p. started.1 p ∙ ground arith }

-- A call, on a machine that serves it.
pub data Step : Server → Server → Type 0 where
  call :
      (env : Environment) (request : Request) (s : Server)
      → Serves env request
      → Step s (handle env request s).1

pub data Reach (s : Server) : Server → Type 0 where
  here : Reach s s
  next_call : {t u : Server} → Reach s t → Step t u → Reach s u

Step-IsSynced : {t u : Server} → Step t u → IsSynced t → IsSynced u
Step-IsSynced (call env request s serves) h = handle-IsSynced env request s serves h

pub Reach-IsSynced : {s t : Server} → IsSynced s → Reach s t → IsSynced t
Reach-IsSynced h here = h
Reach-IsSynced h (next_call before step) = Step-IsSynced step (Reach-IsSynced h before)

-- If JetStream comes up, and the configuration at the start names distinct ports, each with a known
-- protocol and free if active, then after the start and any sequence of calls, each on a machine
-- where JetStream comes up for an opening and also the port of an active creation can be bound, the
-- manager and the configuration are in step: the bound ports are the active ones, entries stand
-- under their own numbers and listen there, and the configuration names each port of the manager
-- once and no other.
pub start_manager-Reach-IsSynced :
    (env : Environment) (jet : Bool) (rs : List Receiver) (s : Server)
    → env.streams ≡ true
    → Configured env rs
    → IsDistinct (numbers rs)
    → Reach (start_manager env jet rs) s
    → IsSynced s
start_manager-Reach-IsSynced env jet rs s streams configured d reached =
    Reach-IsSynced (start_manager-IsSynced env jet rs streams configured d) reached
