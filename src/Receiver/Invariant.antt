-- ===== src/Receiver/Invariant.antt =====
-- grpcserver.go and PortManager.Start: the state after every sequence of calls.
use nav_control.Base.{◌%◌, ◌^◌, ◌+◌, ◌≡◌, refl, sym, subst, true, false, arith}
use nav_control.Receiver.Instance.{Environment}
use nav_control.Receiver.Manager.{PortDefinition, Reply, change_port_description}
use nav_control.Receiver.Config.{edit, new_id}
use nav_control.Receiver.Sound.{HasStream}
use nav_control.Receiver.Runs.{CanListen}
use nav_control.Receiver.View.{
  adding, changing, starting, stopping, deleting, target, run, without_answer,
}
use nav_control.Receiver.Refine.{CanRun}
use nav_control.Receiver.Synced.{IsSynced, and_save-IsSynced, change_of}
use nav_control.Receiver.Control.{
  Server, and_save, open_port, close_port, add_new_port, delete_old_port, change_description,
}

-- The calls that change the state.
pub data Request : Type 0 where
  opening closing creating removing describing : PortDefinition → Request

unfoldable pub handle : Environment → Request → Server → Reply (Unit {0}) × Server
handle env (opening req) s = open_port env req s
handle env (closing req) s = close_port env req s
handle env (creating req) s = add_new_port env req s
handle env (removing req) s = delete_old_port env req s
handle env (describing req) s = change_description env req s

-- JetStream comes up, and an active port that is created can be bound.
unfoldable pub Serves : Environment → Request → Type 0
Serves env (opening req) = env.streams ≡ true
Serves env (closing req) = Unit {0}
Serves env (creating req) = (env.streams ≡ true) × CanListen env req
Serves env (removing req) = Unit {0}
Serves env (describing req) = Unit {0}

-- `change_description` as an operation whose change is saved.
pub describing-and_save :
    (env : Environment) (req : PortDefinition) (s : Server)
    → change_description env req s ≡ and_save env edit req s (run env (changing req) s.manager)
unfolding change_description and_save run without_answer change_port_description
describing-and_save env req s = ground arith

-- A call on a manager and a configuration that are in step leaves them in step, if for an opening
-- JetStream comes up, and for a creation also its port can be bound if it is active.
pub handle-IsSynced :
    (env : Environment) (request : Request) (s : Server)
    → Serves env request
    → IsSynced s
    → IsSynced (handle env request s).1
unfolding handle Serves open_port close_port add_new_port delete_old_port HasStream CanListen target
    CanRun run change_of
handle-IsSynced env (opening req) s streams h =
    and_save-IsSynced env (starting req.port_receiver) (record req { active = true }) s h refl
      (λ jet. streams)
handle-IsSynced env (closing req) s u h =
    and_save-IsSynced env (stopping req.port_receiver) (record req { active = false }) s h refl tt
handle-IsSynced env (creating req) s can h =
    let numbered = record req { id_receiver = (new_id s.receivers + 1) % 2 ^ 32 } in
    and_save-IsSynced env (adding numbered) numbered s h refl (λ jet. can.0, can.1)
handle-IsSynced env (removing req) s u h =
    and_save-IsSynced env (deleting req.port_receiver) req s h refl tt
handle-IsSynced env (describing req) s u h =
    subst (λ r. IsSynced r.1) (sym (describing-and_save env req s))
      (and_save-IsSynced env (changing req) req s h refl tt)
