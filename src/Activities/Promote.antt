-- ===== src/Activities/Promote.antt =====
-- internal/activities/promote.go: the full rollout.
use temporalops.Base.{ℤ, pos, to_int32, String, Exec, ◌>>◌}
use temporalops.Kube.{Kube}
use temporalops.Client.{World, canary_name, stable_name, set_image, scale_deployment}

pub record PromoteInput : Type 0 where
  pub service : String
  pub image_tag : String
  pub target_replicas : ℤ

module _ (K : Kube) where
  unfoldable pub promote : PromoteInput → Exec (World K) (Unit {0})
  promote input = do
    set_image K (stable_name input.service) input.image_tag
    scale_deployment K (stable_name input.service) (to_int32 input.target_replicas)
    scale_deployment K (canary_name input.service) (pos 0)
