-- ===== src/Receiver/View.antt =====
-- What a client of the manager sees of a port, and the machine that each operation is meant to be.
use nav_control.Base.{
  ℕ, ◌≡◌, Option, none, some, Bool, true, false, if◌then◌else◌, ◌==◌, Map, find, put, remove,
  find-put, find-remove, arith, ◌⊎◌,
}
use nav_control.Go.Text.{Text}
use nav_control.Receiver.Instance.{Environment, kind_of_name}
use nav_control.Receiver.Manager.{
  PortInfo, PortDefinition, Ports, Reply, done, failed, crashed, add_port, start_port, stop_port,
  delete_port, change_port_description,
}

pub data Mode : Type 0 where
  absent closed opened : Mode

unfoldable pub mode_of : Bool → Mode
mode_of active = if active then opened else closed

unfoldable pub view : ℕ → Map PortInfo → Mode
view port m = elim (find port m) [ none ↦ absent | some info ↦ mode_of info.active ]

unfoldable pub is_known : Mode → Bool
is_known absent = false
is_known closed = true
is_known opened = true

pub view-put :
    (p port : ℕ) (info : PortInfo) (m : Map PortInfo)
    → view p (put port info m) ≡ (if port == p then mode_of info.active else view p m)
unfolding view
view-put p port info m = ground (arith, find-put p port info m)

pub view-remove :
    (p port : ℕ) (m : Map PortInfo)
    → view p (remove port m) ≡ (if port == p then absent else view p m)
unfolding view
view-remove p port m = ground (arith, find-remove p port m)

-- The operations of the manager that change the ports.
pub data Command : Type 0 where
  adding changing : PortDefinition → Command
  starting stopping deleting : ℕ → Command

unfoldable pub target : Command → ℕ
target (adding req) = req.port_receiver
target (changing req) = req.port_receiver
target (starting port) = port
target (stopping port) = port
target (deleting port) = port

unfoldable pub has_no_kind : Text → Bool
has_no_kind protocol = elim (kind_of_name protocol) [ none ↦ true | some k ↦ false ]

-- The machine does not let the port be bound, or there is no protocol of that name.
unfoldable pub is_blocked : Environment → Command → Ports → Bool
is_blocked env (adding req) s = has_no_kind req.protocol
is_blocked env (changing req) s = false
is_blocked env (starting port) s =
    let unsupported : Bool = elim (find port s.ports) [
      | none ↦ false
      | some info ↦ has_no_kind info.protocol
    ] in
    if env.listens port then unsupported else true
is_blocked env (stopping port) s = false
is_blocked env (deleting port) s = false

-- The mode that an operation leads to, if it is allowed in this one.
unfoldable pub next : Command → Mode → Option Mode
next (adding req) absent = some (mode_of req.active)
next (adding req) closed = none
next (adding req) opened = none
next (changing req) absent = none
next (changing req) closed = some closed
next (changing req) opened = some opened
next (starting port) absent = none
next (starting port) closed = some opened
next (starting port) opened = none
next (stopping port) absent = none
next (stopping port) closed = none
next (stopping port) opened = some closed
next (deleting port) absent = none
next (deleting port) closed = some absent
next (deleting port) opened = some absent

unfoldable pub without_answer {ℓ} : {A : Type ℓ} → Reply A → Reply (Unit {0})
without_answer (done a) = done tt
without_answer (failed e) = failed e
without_answer crashed = crashed

unfoldable pub run : Environment → Command → Ports → Reply (Unit {0}) × Ports
run env (adding req) s = add_port env req s
run env (changing req) s =
    let changed = change_port_description req s in (without_answer changed.0, changed.1)
run env (starting port) s = start_port env port s
run env (stopping port) s = stop_port port s
run env (deleting port) s = delete_port port s

unfoldable pub is_done {ℓ} : {A : Type ℓ} → Reply A → Bool
is_done (done a) = true
is_done (failed e) = false
is_done crashed = false

module _ (env : Environment) (c : Command) (s : Ports) (r : Reply (Unit {0}) × Ports) where
  -- The operation succeeds, moves its port as the machine says, and leaves the others.
  pub record IsAccepted : Type 0 where
    pub succeeds : r.0 ≡ done tt
    pub allowed : next c (view (target c) s.ports) ≡ some (view (target c) r.1.ports)
    pub others : (p : ℕ) → (target c == p) ≡ false → view p r.1.ports ≡ view p s.ports

  -- The operation does not succeed and changes nothing.
  pub record IsRefused : Type 0 where
    pub fails : is_done r.0 ≡ false
    pub unchanged : r.1 ≡ s
    pub reason : (next c (view (target c) s.ports) ≡ none) ⊎ (is_blocked env c s ≡ true)

unfoldable pub Refines : Environment → Command → Ports → Reply (Unit {0}) × Ports → Type 0
Refines env c s r = IsAccepted env c s r ⊎ IsRefused env c s r
