-- ===== src/Receiver/Numbers.antt =====
-- manager.go: what a saved change does to the port numbers in the configuration.
use nav_control.Base.{
  ℕ, ◌≡◌, refl, ap, List, [], ◌∷◌, ◌++◌, without, arith, IsDistinct, without-absent,
}
use nav_control.Receiver.Manager.{PortDefinition}
use nav_control.Receiver.Config.{
  Receiver, find_port, set_at, delete_at, save_config_port, add, edit, delete, cfg_record,
}

unfoldable pub numbers : List Receiver → List ℕ
numbers [] = []
numbers (r ∷ rs) = r.port_receiver ∷ numbers rs

pub numbers-add :
    (req : PortDefinition) (rs : List Receiver)
    → numbers (save_config_port add req rs) ≡ numbers rs ++ (req.port_receiver ∷ [])
unfolding save_config_port numbers cfg_record
numbers-add req [] = refl
numbers-add req (r ∷ rs) = ap (◌∷◌ r.port_receiver) (numbers-add req rs)

pub numbers-edit :
    (req : PortDefinition) (rs : List Receiver)
    → numbers (save_config_port edit req rs) ≡ numbers rs
unfolding save_config_port numbers cfg_record find_port set_at
numbers-edit req [] = refl
numbers-edit req (r ∷ rs) = ground (arith, numbers-edit req rs)

pub numbers-delete :
    (req : PortDefinition) (rs : List Receiver)
    → IsDistinct (numbers rs)
    → numbers (save_config_port delete req rs) ≡ without req.port_receiver (numbers rs)
unfolding save_config_port numbers find_port delete_at IsDistinct without
numbers-delete req [] d = refl
numbers-delete req (r ∷ rs) d =
    ground (arith, d.0, without-absent req.port_receiver (numbers rs), numbers-delete req rs d.1)
