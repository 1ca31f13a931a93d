-- ===== src/Receiver/Runs.antt =====
-- manager.go: every operation, in every order, leaves the bound ports and the entries in step.
use nav_control.Base.{
  ℕ, ◌≡◌, refl, sym, ap, subst, List, ◌∷◌, none, some, Bool, true, false, if◌then◌else◌, ◌==◌, find,
  member, arith, inl, inr, Bool-cases, Option-cases, if-true, if-false,
}
use nav_control.Receiver.Instance.{Instance, Environment, kind_of_name, new_instance, start}
use nav_control.Receiver.Manager.{
  PortDefinition, Ports, added, add_port, new_info, start_port, stop_port, delete_port,
  change_port_description,
}
use nav_control.Receiver.Sound.{
  IsSound, HasStream, is_open, IsSound-put, IsSound-remove, started-IsSound, stopped-IsSound,
  deleted-IsSound,
}

-- `StartPort`: also when it fails.
pub start_port-IsSound :
    (env : Environment) (port : ℕ) (s : Ports)
    → HasStream env s
    → IsSound s
    → IsSound (start_port env port s).1
unfolding start_port
start_port-IsSound env port s streams h = elim (Option-cases (find port s.ports)) [
  | inl unknown ↦ rw (start_port, unknown) h
  | inr (info, e) ↦ elim (Option-cases (kind_of_name info.protocol)) [
    | inl other ↦ rw (start_port, e, other) h
    | inr (k, ek) ↦ elim (Bool-cases info.active) [
      | inl active ↦ rw (start_port, e, ek, if-true _ _ active) h
      | inr idle ↦
          rw (start_port, e, ek, if-false _ _ idle) (started-IsSound env info k port s streams e h)
    ]
  ]
]

pub stop_port-IsSound : (port : ℕ) (s : Ports) → IsSound s → IsSound (stop_port port s).1
unfolding stop_port
stop_port-IsSound port s h = elim (Option-cases (find port s.ports)) [
  | inl unknown ↦ rw (stop_port, unknown) h
  | inr (info, e) ↦ elim (Bool-cases info.active) [
    | inl active ↦ rw (stop_port, e, if-true _ _ active) (stopped-IsSound info port s active e h)
    | inr idle ↦ rw (stop_port, e, if-false _ _ idle) h
  ]
]

pub delete_port-IsSound : (port : ℕ) (s : Ports) → IsSound s → IsSound (delete_port port s).1
unfolding delete_port is_open
delete_port-IsSound port s h = elim (Option-cases (find port s.ports)) [
  | inl unknown ↦ rw (delete_port, unknown) h
  | inr (info, e) ↦ elim (Bool-cases info.active) [
    | inl active ↦ rw (delete_port, e, if-true _ _ active) (deleted-IsSound info port s active e h)
    | inr idle ↦
        rw (delete_port, e, if-false _ _ idle)
          (IsSound-remove s port s.bound h (λ p.
            let closed : member port s.bound ≡ false = ground (arith, h.opens port, e, idle) in
            ground (arith, closed)))
  ]
]

pub change_port_description-IsSound :
    (req : PortDefinition) (s : Ports) → IsSound s → IsSound (change_port_description req s).1
unfolding change_port_description is_open
change_port_description-IsSound req s h = elim (Option-cases (find req.port_receiver s.ports)) [
  | inl unknown ↦ rw (change_port_description, unknown) h
  | inr (info, e) ↦
      let entry = h.entries req.port_receiver info e in
      let same : member req.port_receiver s.bound ≡ info.active =
        ground (arith, h.opens req.port_receiver, e) in
      rw (change_port_description, e)
        (IsSound-put s req.port_receiver s.bound h _
          (record { own_number = entry.own_number; listening = entry.listening })
          (λ p. ground (arith, same)))
]

-- The machine lets the port of an active request be bound.
unfoldable pub CanListen : Environment → PortDefinition → Type 0
CanListen env req = req.active ≡ true → env.listens req.port_receiver ≡ true

pub start-listens :
    (env : Environment) (jet : Bool) (port : ℕ) (instance : Instance) (bound : List ℕ)
    → member port bound ≡ false
    → env.listens port ≡ true
    → (jet ≡ true → env.streams ≡ true)
    → start env jet port instance bound
      ≡ (none, record instance { listener = some port }, port ∷ bound)
unfolding start
start-listens env jet port instance bound free listens streams =
    ground (arith, free, listens, streams)

pub add_port-IsSound :
    (env : Environment) (req : PortDefinition) (s : Ports)
    → HasStream env s
    → CanListen env req
    → IsSound s
    → IsSound (add_port env req s).1
unfolding add_port added is_open HasStream CanListen new_info new_instance
add_port-IsSound env req s streams listens h =
    elim (Option-cases (find req.port_receiver s.ports)) [
      | inr (info, e) ↦ rw (add_port, e) h
      | inl free ↦ elim (Option-cases (kind_of_name req.protocol)) [
        | inl other ↦ rw (add_port, free, other) h
        | inr (k, ek) ↦
            let closed : member req.port_receiver s.bound ≡ false =
              ground (arith, h.opens req.port_receiver, free) in
            elim (Bool-cases req.active) [
              | inr idle ↦
                  rw (add_port, free, ek, if-false _ _ idle)
                    (IsSound-put s req.port_receiver s.bound h _
                      (record { own_number = refl; listening = λ a. cc })
                      (λ p. ground (arith, closed)))
              | inl active ↦
                  rw (add_port, free, ek, if-true _ _ active)
                    (subst (λ r. IsSound (added (new_info req k) req.port_receiver s r).1)
                      (sym (
                        start-listens env s.is_jet_stream req.port_receiver (new_instance k) s.bound
                          closed (listens active) streams))
                      (IsSound-put s req.port_receiver (req.port_receiver ∷ s.bound) h _
                        (record { own_number = refl; listening = λ a. refl })
                        (λ p.
                          unfold member in
                          ap (λ b. if req.port_receiver == p then b else member p s.bound)
                            (sym active))))
            ]
      ]
    ]
