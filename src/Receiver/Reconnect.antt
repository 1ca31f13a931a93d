-- ===== src/Receiver/Reconnect.antt =====
-- manager.go: `reconnect` closes and opens the active ports, and keeps the configuration and the
-- ports in step.
use nav_control.Base.{
  IsDistinct, ℕ, ◌≡◌, refl, sym, ap, subst, ◌∙◌, List, [], ◌∷◌, Bool, true, false, if◌then◌else◌,
  member, arith, inl, inr,
}
use nav_control.Go.Text.{Text}
use nav_control.Receiver.Instance.{Environment}
use nav_control.Receiver.Manager.{Ports, start_port, stop_port}
use nav_control.Receiver.Config.{Receiver, cfg_to_proto}
use nav_control.Receiver.Sound.{IsSound, HasStream}
use nav_control.Receiver.View.{view, is_known, starting, stopping, target, run, Refines}
use nav_control.Receiver.Refine.{CanRun, run-Refines, run-IsSound}
use nav_control.Receiver.Numbers.{numbers}
use nav_control.Receiver.Synced.{IsSynced, known-accepted, saves, change_of}
use nav_control.Receiver.Control.{Server}
use nav_control.Receiver.Shutdown.{
  stop_active, start_active, set_status, reconnect, disconnected_status, ok_status,
}

numbers-set_status :
    (status : Text) (rs : List Receiver) → numbers (set_status status rs) ≡ numbers rs
unfolding numbers set_status
numbers-set_status status [] = refl
numbers-set_status status (r ∷ rs) = ground (arith, numbers-set_status status rs)

-- The same ports, and the listeners in step.
unfoldable pub Keeps : Ports → Ports → Type 0
Keeps m n = IsSound n × ((p : ℕ) → is_known (view p n.ports) ≡ is_known (view p m.ports))

stop_port-Keeps :
    (env : Environment) (r : Receiver) (m : Ports)
    → IsSound m
    → Keeps m (stop_port r.port_receiver m).1
unfolding Keeps CanRun run Refines saves change_of target cfg_to_proto
stop_port-Keeps env r m h =
    let c = stopping r.port_receiver in
    (
      run-IsSound env c m tt h,
      λ p. elim (run-Refines env c m tt h) [
        | inl ok ↦ known-accepted env c (cfg_to_proto r) m _ p refl ok
        | inr refused ↦ ap (λ n. is_known (view p n.ports)) refused.unchanged
      ],
    )

start_port-Keeps :
    (env : Environment) (r : Receiver) (m : Ports)
    → env.streams ≡ true
    → IsSound m
    → Keeps m (start_port env r.port_receiver m).1
unfolding Keeps CanRun run Refines saves change_of target cfg_to_proto HasStream
start_port-Keeps env r m up h =
    let c = starting r.port_receiver in
    (
      run-IsSound env c m (λ jet. up) h,
      λ p. elim (run-Refines env c m (λ jet. up) h) [
        | inl ok ↦ known-accepted env c (cfg_to_proto r) m _ p refl ok
        | inr refused ↦ ap (λ n. is_known (view p n.ports)) refused.unchanged
      ],
    )

if-Keeps : (b : Bool) (m n : Ports) → IsSound m → Keeps m n → Keeps m (if b then n else m)
unfolding Keeps
if-Keeps true m n h k = k
if-Keeps false m n h k = (h, λ p. refl)

stop_active-Keeps :
    (env : Environment) (rs : List Receiver) (m : Ports) → IsSound m → Keeps m (stop_active rs m)
unfolding Keeps stop_active
stop_active-Keeps env [] m h = (h, λ p. refl)
stop_active-Keeps env (r ∷ rs) m h =
    let first = if-Keeps r.active m _ h (stop_port-Keeps env r m h) in
    let later = stop_active-Keeps env rs _ first.0 in (later.0, λ p. later.1 p ∙ first.1 p)

start_active-Keeps :
    (env : Environment) (rs : List Receiver) (m : Ports)
    → env.streams ≡ true
    → IsSound m
    → Keeps m (start_active env rs m)
unfolding Keeps start_active
start_active-Keeps env [] m up h = (h, λ p. refl)
start_active-Keeps env (r ∷ rs) m up h =
    let first = if-Keeps r.active m _ h (start_port-Keeps env r m up h) in
    let later = start_active-Keeps env rs _ up first.0 in (later.0, λ p. later.1 p ∙ first.1 p)

-- If JetStream comes up, a manager and a configuration that are in step are so after a reconnection.
pub reconnect-IsSynced :
    (env : Environment) (s : Server) → env.streams ≡ true → IsSynced s → IsSynced (reconnect env s)
unfolding reconnect Keeps
reconnect-IsSynced env s up h =
    let lost = set_status disconnected_status s.receivers in
    let off = stop_active-Keeps env s.receivers s.manager h.sound in
    let on = start_active-Keeps env lost (stop_active s.receivers s.manager) up off.0 in
    let same : numbers (set_status ok_status lost) ≡ numbers s.receivers =
      numbers-set_status ok_status lost ∙ numbers-set_status disconnected_status s.receivers in
    record {
      sound = on.0;
      distinct = subst IsDistinct (sym same) h.distinct;
      synced = λ p. on.1 p ∙ off.1 p ∙ h.synced p ∙ ap (member p) (sym same);
    }
