-- ===== src/Receiver/Synced.antt =====
-- grpcserver.go: the ports of the manager and those of the configuration stay the same set.
use nav_control.Base.{
  IsDistinct, IsDistinct-without, IsDistinct-last, member-last, ℕ, ◌≡◌, refl, sym, ap, subst, ◌∙◌,
  List, some, Bool, true, false, if◌then◌else◌, ◌==◌, member, member-without, arith, inl, inr,
  Bool-cases, ==→eq,
}
use nav_control.Receiver.Instance.{Environment}
use nav_control.Receiver.Manager.{PortDefinition, Ports, Reply, done, failed, crashed}
use nav_control.Receiver.Config.{Receiver, Change, add, edit, delete, save_config_port}
use nav_control.Receiver.Sound.{IsSound}
use nav_control.Receiver.View.{
  Mode, mode_of, view, is_known, Command, adding, changing, starting, stopping, deleting, target,
  next, run, is_done, IsAccepted, Refines,
}
use nav_control.Receiver.Refine.{CanRun, run-Refines, run-IsSound}
use nav_control.Receiver.Numbers.{numbers, numbers-add, numbers-edit, numbers-delete}
use nav_control.Receiver.Control.{Server, saved, and_save}

pub record IsSynced (s : Server) : Type 0 where
  pub sound : IsSound s.manager
  pub distinct : IsDistinct (numbers s.receivers)
  pub synced : (p : ℕ) → is_known (view p s.manager.ports) ≡ member p (numbers s.receivers)

-- What a saved change does to the set of port numbers.
unfoldable pub saves : Change → PortDefinition → ℕ → Bool → Bool
saves add req p b = if req.port_receiver == p then true else b
saves edit req p b = b
saves delete req p b = if req.port_receiver == p then false else b

pub member-saves :
    (change : Change) (req : PortDefinition) (rs : List Receiver) (p : ℕ)
    → IsDistinct (numbers rs)
    → member p (numbers (save_config_port change req rs))
      ≡ saves change req p (member p (numbers rs))
unfolding saves
member-saves add req rs p d = rw (numbers-add req rs) (member-last p req.port_receiver (numbers rs))
member-saves edit req rs p d = rw (numbers-edit req rs) refl
member-saves delete req rs p d =
    rw (numbers-delete req rs d) (member-without p req.port_receiver (numbers rs))

-- A change that adds only a port that is not there.
unfoldable pub Fits : Change → PortDefinition → List Receiver → Type 0
Fits add req rs = member req.port_receiver (numbers rs) ≡ false
Fits edit req rs = Unit {0}
Fits delete req rs = Unit {0}

pub IsDistinct-saves :
    (change : Change) (req : PortDefinition) (rs : List Receiver)
    → Fits change req rs
    → IsDistinct (numbers rs)
    → IsDistinct (numbers (save_config_port change req rs))
unfolding Fits
IsDistinct-saves add req rs fits d =
    rw (numbers-add req rs) (IsDistinct-last req.port_receiver (numbers rs) fits d)
IsDistinct-saves edit req rs fits d = rw (numbers-edit req rs) d
IsDistinct-saves delete req rs fits d =
    rw (numbers-delete req rs d) (IsDistinct-without req.port_receiver (numbers rs) d)

-- The change that each operation is saved as.
unfoldable pub change_of : Command → Change
change_of (adding req) = add
change_of (changing req) = edit
change_of (starting port) = edit
change_of (stopping port) = edit
change_of (deleting port) = delete

-- What the machine of a port does to whether it is known.
known-next :
    (c : Command) (req : PortDefinition) (p : ℕ) (m n : Mode)
    → (req.port_receiver == p) ≡ true
    → next c m ≡ some n
    → is_known n ≡ saves (change_of c) req p (is_known m)
unfolding saves change_of next is_known mode_of
known-next (adding a) req p m n same e = ground (arith, same, e)
known-next (changing a) req p m n same e = ground (arith, same, e)
known-next (starting a) req p m n same e = ground (arith, same, e)
known-next (stopping a) req p m n same e = ground (arith, same, e)
known-next (deleting a) req p m n same e = ground (arith, same, e)

saves-other :
    (change : Change) (req : PortDefinition) (p : ℕ) (b : Bool)
    → (req.port_receiver == p) ≡ false
    → saves change req p b ≡ b
unfolding saves
saves-other add req p b other = ground (arith, other)
saves-other edit req p b other = refl
saves-other delete req p b other = ground (arith, other)

-- An operation that succeeds changes the set of ports as its saved change does.
pub known-accepted :
    (env : Environment) (c : Command) (req : PortDefinition) (m : Ports)
    (r : Reply (Unit {0}) × Ports) (p : ℕ)
    → target c ≡ req.port_receiver
    → IsAccepted env c m r
    → is_known (view p r.1.ports) ≡ saves (change_of c) req p (is_known (view p m.ports))
known-accepted env c req m r p t ok = elim (Bool-cases (target c == p)) [
  | inl same ↦
      let q : target c ≡ p = ==→eq (target c) p same in
      known-next c req p _ _ (subst (λ x. (x == p) ≡ true) t same)
        (subst (λ x. next c (view x m.ports) ≡ some (view x r.1.ports)) q ok.allowed)
  | inr other ↦
      ap is_known (ok.others p other)
      ∙ sym (saves-other (change_of c) req p _ (subst (λ x. (x == p) ≡ false) t other))
]

module _ (env : Environment) (c : Command) (req : PortDefinition) (s : Server)
    (h : IsSynced s) where
  Fits-accepted :
      (r : Reply (Unit {0}) × Ports)
      → target c ≡ req.port_receiver
      → IsAccepted env c s.manager r
      → Fits (change_of c) req s.receivers
  unfolding Fits change_of next is_known mode_of
  Fits-accepted r t ok =
      fits c _ (sym (h.synced req.port_receiver))
        (subst (λ x. next c (view x s.manager.ports) ≡ some (view x r.1.ports)) t ok.allowed)
    where
      fits :
          (d : Command) {n : Mode} (m : Mode)
          → member req.port_receiver (numbers s.receivers) ≡ is_known m
          → next d m ≡ some n
          → Fits (change_of d) req s.receivers
      fits (adding a) m k e = ground (arith, k, e)
      fits (changing a) m k e = tt
      fits (starting a) m k e = tt
      fits (stopping a) m k e = tt
      fits (deleting a) m k e = tt

  accepted-IsSynced :
      (p : Ports)
      → target c ≡ req.port_receiver
      → IsAccepted env c s.manager (done tt, p)
      → IsSound p
      → IsSynced
          (record s { manager = p; receivers = save_config_port (change_of c) req s.receivers })
  accepted-IsSynced p t ok sound = record {
    sound = sound;
    distinct =
        IsDistinct-saves (change_of c) req s.receivers (Fits-accepted (done tt, p) t ok) h.distinct;
    synced = λ q.
        known-accepted env c req s.manager (done tt, p) q t ok
        ∙ ap (saves (change_of c) req q) (h.synced q)
        ∙ sym (member-saves (change_of c) req s.receivers q h.distinct);
  }

  saves-IsSynced :
      (r : Reply (Unit {0}) × Ports)
      → target c ≡ req.port_receiver
      → Refines env c s.manager r
      → IsSound r.1
      → IsSynced (and_save env (change_of c) req s r).1
  unfolding and_save saved Refines is_done
  saves-IsSynced (done u, p) t (inl ok) sound = accepted-IsSynced p t ok sound
  saves-IsSynced (done u, p) t (inr refused) sound = absurd (ground (arith, refused.fails))
  saves-IsSynced (failed e, p) t (inl ok) sound = absurd (ground (arith, ok.succeeds))
  saves-IsSynced (failed e, p) t (inr refused) sound =
      subst (λ q. IsSynced (record s { manager = q })) (sym refused.unchanged) h
  saves-IsSynced (crashed, p) t (inl ok) sound = absurd (ground (arith, ok.succeeds))
  saves-IsSynced (crashed, p) t (inr refused) sound =
      subst (λ q. IsSynced (record s { manager = q })) (sym refused.unchanged) h

  pub and_save-IsSynced :
      target c ≡ req.port_receiver
      → CanRun env c s.manager
      → IsSynced (and_save env (change_of c) req s (run env c s.manager)).1
  and_save-IsSynced t can =
      saves-IsSynced (run env c s.manager) t (run-Refines env c s.manager can h.sound)
        (run-IsSound env c s.manager can h.sound)
