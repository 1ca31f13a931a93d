-- ===== src/Receiver/Outcome.antt =====
-- grpcserver.go: what a call that is refused leaves behind.
use nav_control.Base.{◌%◌, ◌^◌, ◌+◌, ◌≡◌, ap, subst, ◌∙◌, true, false, arith, inl, inr}
use nav_control.Receiver.Instance.{Environment}
use nav_control.Receiver.Manager.{PortDefinition, Ports, Reply, done, failed, crashed}
use nav_control.Receiver.Config.{Change, add, edit, delete, new_id}
use nav_control.Receiver.Sound.{IsSound, HasStream}
use nav_control.Receiver.Runs.{CanListen}
use nav_control.Receiver.View.{
  Command, adding, changing, starting, stopping, deleting, run, is_done, Refines,
}
use nav_control.Receiver.Refine.{CanRun, run-Refines}
use nav_control.Receiver.Control.{
  Server, saved, and_save, open_port, close_port, add_new_port, delete_old_port,
}
use nav_control.Receiver.Invariant.{
  Request, opening, closing, creating, removing, describing, handle, Serves, describing-and_save,
}

-- An operation whose change can be saved either succeeds or leaves the server as it was.
and_save-same :
    (env : Environment) (c : Command) (change : Change) (req : PortDefinition) (s : Server)
    (r : Reply (Unit {0}) × Ports)
    → env.saves ≡ true
    → Refines env c s.manager r
    → is_done (and_save env change req s r).0 ≡ false
    → (and_save env change req s r).1 ≡ s
unfolding and_save saved is_done Refines
and_save-same env c change req s (done u, p) can refines e = absurd (ground (arith, can, e))
and_save-same env c change req s (failed x, p) can (inl ok) e = absurd (ground (arith, ok.succeeds))
and_save-same env c change req s (failed x, p) can (inr refused) e =
    ap (λ q. record s { manager = q }) refused.unchanged
and_save-same env c change req s (crashed, p) can (inl ok) e = absurd (ground (arith, ok.succeeds))
and_save-same env c change req s (crashed, p) can (inr refused) e =
    ap (λ q. record s { manager = q }) refused.unchanged

-- On a sound state, where the configuration can be saved, JetStream comes up and the port of an
-- active creation can be bound, a call that does not succeed leaves the manager and the
-- configuration as they were.
pub handle-refused :
    (env : Environment) (request : Request) (s : Server)
    → env.saves ≡ true
    → Serves env request
    → IsSound s.manager
    → is_done (handle env request s).0 ≡ false
    → (handle env request s).1 ≡ s
unfolding handle Serves open_port close_port add_new_port delete_old_port HasStream CanListen CanRun
    run
handle-refused env (opening req) s can streams h e =
    and_save-same env (starting req.port_receiver) edit _ s _ can
      (run-Refines env (starting req.port_receiver) s.manager (λ jet. streams) h) e
handle-refused env (closing req) s can u h e =
    and_save-same env (stopping req.port_receiver) edit _ s _ can
      (run-Refines env (stopping req.port_receiver) s.manager tt h) e
handle-refused env (creating req) s can serves h e =
    let numbered = record req { id_receiver = (new_id s.receivers + 1) % 2 ^ 32 } in
    and_save-same env (adding numbered) add _ s _ can
      (run-Refines env (adding numbered) s.manager (λ jet. serves.0, serves.1) h) e
handle-refused env (removing req) s can u h e =
    and_save-same env (deleting req.port_receiver) delete _ s _ can
      (run-Refines env (deleting req.port_receiver) s.manager tt h) e
handle-refused env (describing req) s can u h e =
    let r = describing-and_save env req s in
    ap (λ x. x.1) r
    ∙ and_save-same env (changing req) edit _ s _ can
        (run-Refines env (changing req) s.manager tt h) (subst (λ x. is_done x.0 ≡ false) r e)
