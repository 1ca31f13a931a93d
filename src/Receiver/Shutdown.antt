-- ===== src/Receiver/Shutdown.antt =====
-- manager.go: the end of the manager, and what happens when NATS is lost.
use nav_control.Base.{
  ℕ, ◌≡◌, sym, ap, subst, ◌∙◌, List, [], ◌∷◌, Option, none, some, Bool, true, false, if◌then◌else◌,
  ◌==◌, Map, find, member, member-without, arith, inl, inr, Bool-cases, Option-cases, if-true,
}
use nav_control.Go.Text.{Text}
use nav_control.Receiver.Instance.{Instance, Environment, stop, close_listener}
use nav_control.Receiver.Manager.{PortInfo, Ports, start_port, stop_port}
use nav_control.Receiver.Config.{Receiver}
use nav_control.Receiver.Control.{Server}
use nav_control.Receiver.Sound.{IsSound, is_open}

-- The loop of `PortManager.Stop`, which logs the errors. The entries stay active.
unfoldable pub stop_all : Map PortInfo → List ℕ → Map PortInfo × List ℕ
stop_all [] bound = ([], bound)
stop_all ((port, info) ∷ m) bound =
    let stopped = stop info.instance bound in
    let later = stop_all m (if info.active then stopped.2 else bound) in
    (
      (port, if info.active then (record info { instance = stopped.1 }) else info) ∷ later.0,
      later.1,
    )

-- `Stop`
unfoldable pub stop_manager : Ports → Ports
stop_manager s = record s {
  ports = (stop_all s.ports s.bound).0;
  bound = (stop_all s.ports s.bound).1;
}

-- The two loops of `reconnect`, before and after the connection to NATS is made again.
unfoldable pub stop_active : List Receiver → Ports → Ports
stop_active [] m = m
stop_active (r ∷ rs) m = stop_active rs (if r.active then (stop_port r.port_receiver m).1 else m)

unfoldable pub start_active : Environment → List Receiver → Ports → Ports
start_active env [] m = m
start_active env (r ∷ rs) m =
    start_active env rs (if r.active then (start_port env r.port_receiver m).1 else m)

unfoldable pub set_status : Text → List Receiver → List Receiver
set_status status [] = []
set_status status (r ∷ rs) =
    (if r.active then (record r { status = status }) else r) ∷ set_status status rs

-- "disconnected Nats" and "ok"
abbrev pub disconnected_status : Text
disconnected_status =
    b'd' ∷ b'i' ∷ b's' ∷ b'c' ∷ b'o' ∷ b'n' ∷ b'n' ∷ b'e' ∷ b'c' ∷ b't' ∷ b'e' ∷ b'd' ∷ b' ' ∷ b'N'
    ∷ b'a' ∷ b't' ∷ b's' ∷ []

abbrev pub ok_status : Text
ok_status = b'o' ∷ b'k' ∷ []

-- `reconnect`, once NATS answers
unfoldable pub reconnect : Environment → Server → Server
reconnect env s =
    let lost = set_status disconnected_status s.receivers in
    record s {
      manager = start_active env lost (stop_active s.receivers s.manager);
      receivers = set_status ok_status lost;
    }

-- Stopping an instance frees ports and takes none.
stop-shrinks :
    (p : ℕ) (instance : Instance) (bound : List ℕ)
    → member p bound ≡ false
    → member p (stop instance bound).2 ≡ false
unfolding stop close_listener
stop-shrinks p instance bound free = shrinks instance.listener
  where
    shrinks : (listener : Option ℕ) → member p (close_listener listener bound).1 ≡ false
    shrinks none = free
    shrinks (some port) = ground (arith, free, member-without p port bound)

stop_all-shrinks :
    (p : ℕ) (m : Map PortInfo) (bound : List ℕ)
    → member p bound ≡ false
    → member p (stop_all m bound).1 ≡ false
unfolding stop_all
stop_all-shrinks p [] bound free = free
stop_all-shrinks p ((port, info) ∷ m) bound free = stop_all-shrinks p m _ (kept info.active)
  where
    kept :
        (active : Bool) → member p (if active then (stop info.instance bound).2 else bound) ≡ false
    kept true = stop-shrinks p info.instance bound free
    kept false = free

-- The listener of a port is closed with its instance.
stop-closes :
    (p : ℕ) (instance : Instance) (bound : List ℕ)
    → instance.listener ≡ some p
    → member p (stop instance bound).2 ≡ false
unfolding stop close_listener
stop-closes p instance bound listens =
    rw (close_listener, listens) (ground (arith, member-without p p bound))

-- The listener of an active port is closed.
stop_all-closes :
    (p : ℕ) (m : Map PortInfo) (info : PortInfo) (bound : List ℕ)
    → find p m ≡ some info
    → info.active ≡ true
    → info.instance.listener ≡ some p
    → member p (stop_all m bound).1 ≡ false
unfolding stop_all find stop close_listener
stop_all-closes p [] info bound e active listens = absurd (ground (arith, e))
stop_all-closes p ((port, i) ∷ m) info bound e active listens = elim (Bool-cases (port == p)) [
  | inl same ↦
      let own : i ≡ info = ground (arith, same, e) in
      stop_all-shrinks p m _ (
        subst (λ x. member p (if x.active then (stop x.instance bound).2 else bound) ≡ false)
          (sym own)
          (ap (member p) (if-true (stop info.instance bound).2 bound active)
            ∙ stop-closes p info.instance bound listens))
  | inr other ↦ stop_all-closes p m info _ (ground (arith, other, e)) active listens
]

-- After Stop on a sound state the process has no port bound.
pub stop_manager-frees : (s : Ports) → IsSound s → (p : ℕ) → member p (stop_manager s).bound ≡ false
unfolding stop_manager is_open
stop_manager-frees s h p = elim (Option-cases (find p s.ports)) [
  | inl unknown ↦
      let closed : member p s.bound ≡ false = ground (arith, h.opens p, unknown) in
      stop_all-shrinks p s.ports s.bound closed
  | inr (info, e) ↦ elim (Bool-cases info.active) [
    | inl active ↦
        stop_all-closes p s.ports info s.bound e active ((h.entries p info e).listening active)
    | inr idle ↦
        let closed : member p s.bound ≡ false = ground (arith, h.opens p, e, idle) in
        stop_all-shrinks p s.ports s.bound closed
  ]
]
