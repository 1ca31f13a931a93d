-- ===== src/Receiver/Sound.antt =====
-- manager.go: the ports that the process has bound are those whose entries are active.
use nav_control.Base.{
  ℕ, ◌≡◌, refl, sym, ap, subst, ◌∙◌, List, [], ◌∷◌, Option, none, some, Bool, true, false,
  if◌then◌else◌, ◌==◌, Map, find, put, remove, find-put, find-remove, member, without,
  member-without, arith, ◌⊎◌, inl, inr, Bool-cases, ==→eq,
}
use nav_control.Receiver.Instance.{
  Kind, Instance, PortError, Environment, listen_failed, new_instance, start, stop, close_listener,
}
use nav_control.Receiver.Manager.{PortInfo, Ports, started, stopped, deleted}

unfoldable pub is_open : ℕ → Map PortInfo → Bool
is_open port m = elim (find port m) [ none ↦ false | some info ↦ info.active ]

-- An entry under its number, with its listener on that port if it is active.
pub record IsEntry (port : ℕ) (info : PortInfo) : Type 0 where
  pub own_number : info.port_number ≡ port
  pub listening : info.active ≡ true → info.instance.listener ≡ some port

pub record IsSound (s : Ports) : Type 0 where
  pub entries : (port : ℕ) (info : PortInfo) → find port s.ports ≡ some info → IsEntry port info
  pub opens : (port : ℕ) → member port s.bound ≡ is_open port s.ports

is_open-put :
    (p port : ℕ) (info : PortInfo) (m : Map PortInfo)
    → is_open p (put port info m) ≡ (if port == p then info.active else is_open p m)
unfolding is_open
is_open-put p port info m = ground (arith, find-put p port info m)

is_open-remove :
    (p port : ℕ) (m : Map PortInfo)
    → is_open p (remove port m) ≡ (if port == p then false else is_open p m)
unfolding is_open
is_open-remove p port m = ground (arith, find-remove p port m)

module _ (s : Ports) (port : ℕ) (bound : List ℕ) (h : IsSound s) where
  pub IsSound-put :
      (info : PortInfo)
      → IsEntry port info
      → ((p : ℕ) → member p bound ≡ (if port == p then info.active else member p s.bound))
      → IsSound (record s { ports = put port info s.ports; bound = bound })
  IsSound-put info entry binds = record {
    entries = λ p i e. kept p i (sym (find-put p port info s.ports) ∙ e);
    opens = λ p.
        binds p
        ∙ ap (λ b. if port == p then info.active else b) (h.opens p)
        ∙ sym (is_open-put p port info s.ports);
  }
    where
      kept :
          (p : ℕ) (i : PortInfo)
          → (if port == p then some info else find p s.ports) ≡ some i
          → IsEntry p i
      kept p i e = elim (Bool-cases (port == p)) [
        | inl same ↦
            let own : info ≡ i = ground (arith, same, e) in
            subst (λ x. IsEntry p x) own (subst (λ q. IsEntry q info) (==→eq port p same) entry)
        | inr other ↦
            let old : find p s.ports ≡ some i = ground (arith, other, e) in h.entries p i old
      ]

  pub IsSound-remove :
      ((p : ℕ) → member p bound ≡ (if port == p then false else member p s.bound))
      → IsSound (record s { ports = remove port s.ports; bound = bound })
  IsSound-remove binds = record {
    entries = λ p i e. kept p i (sym (find-remove p port s.ports) ∙ e);
    opens = λ p.
        binds p
        ∙ ap (λ b. if port == p then false else b) (h.opens p)
        ∙ sym (is_open-remove p port s.ports);
  }
    where
      kept :
          (p : ℕ) (i : PortInfo)
          → (if port == p then none else find p s.ports) ≡ some i
          → IsEntry p i
      kept p i e = let old : find p s.ports ≡ some i = ground (arith, e) in h.entries p i old

-- JetStream is not used, or it comes up.
unfoldable pub HasStream : Environment → Ports → Type 0
HasStream env s = s.is_jet_stream ≡ true → env.streams ≡ true

-- The three ends of `Start`.
pub start-cases :
    (env : Environment) (jet : Bool) (port : ℕ) (instance : Instance) (bound : List ℕ)
    → (start env jet port instance bound
        ≡ (some listen_failed, record instance { listener = none }, bound))
      ⊎ (((jet ≡ true) × (env.streams ≡ false))
          ⊎ (start env jet port instance bound
              ≡ (none, record instance { listener = some port }, port ∷ bound)))
unfolding start
start-cases env jet port instance bound = ground arith

pub started-IsSound :
    (env : Environment) (info : PortInfo) (k : Kind) (port : ℕ) (s : Ports)
    → HasStream env s
    → find port s.ports ≡ some info
    → IsSound s
    → IsSound (started info port s (start env s.is_jet_stream port (new_instance k) s.bound)).1
unfolding started HasStream
started-IsSound env info k port s streams e h =
    elim (start-cases env s.is_jet_stream port (new_instance k) s.bound) [
      | inl refused ↦ keeps refused h
      | inr (inl (jet, down)) ↦ absurd (ground (arith, streams jet, down))
      | inr (inr listens) ↦ keeps listens (
          IsSound-put s port (port ∷ s.bound) h _
            (record { own_number = (h.entries port info e).own_number; listening = λ a. refl })
            (λ p. unfold member in refl))
    ]
  where
    keeps :
        {r : Option PortError × Instance × List ℕ}
        → start env s.is_jet_stream port (new_instance k) s.bound ≡ r
        → IsSound (started info port s r).1
        → IsSound (started info port s (start env s.is_jet_stream port (new_instance k) s.bound)).1
    keeps e = subst (λ r. IsSound (started info port s r).1) (sym e)

-- `Stop` succeeds on an active port.
pub stop-active :
    (info : PortInfo) (port : ℕ) (s : Ports)
    → info.active ≡ true
    → find port s.ports ≡ some info
    → IsSound s
    → stop info.instance s.bound
      ≡ (none, record info.instance { cancelled = true; connections = [] }, without port s.bound)
unfolding stop close_listener is_open
stop-active info port s active e h =
    let opened : member port s.bound ≡ true = ground (arith, h.opens port, e, active) in
    rw ((h.entries port info e).listening active, opened) refl

pub stopped-IsSound :
    (info : PortInfo) (port : ℕ) (s : Ports)
    → info.active ≡ true
    → find port s.ports ≡ some info
    → IsSound s
    → IsSound (stopped info port s (stop info.instance s.bound)).1
unfolding stopped
stopped-IsSound info port s active e h =
    subst (λ r. IsSound (stopped info port s r).1) (sym (stop-active info port s active e h))
      (IsSound-put s port (without port s.bound) h _
        (record { own_number = (h.entries port info e).own_number; listening = λ a. cc })
        (λ p. member-without p port s.bound))

pub deleted-IsSound :
    (info : PortInfo) (port : ℕ) (s : Ports)
    → info.active ≡ true
    → find port s.ports ≡ some info
    → IsSound s
    → IsSound (deleted info port s (stop info.instance s.bound)).1
unfolding deleted
deleted-IsSound info port s active e h =
    subst (λ r. IsSound (deleted info port s r).1) (sym (stop-active info port s active e h))
      (IsSound-remove s port (without port s.bound) h (λ p. member-without p port s.bound))
