-- ===== src/Activities/Scale.antt =====
-- internal/activities/scale.go: the canary up, and down again as the compensation.
use temporalops.Base.{ℤ, pos, to_int32, String, Exec, pure, ◌>>=◌, ◌>>◌}
use temporalops.Kube.{Kube}
use temporalops.Client.{World, canary_name, set_image, scale_deployment, deployment_status}

pub record ScaleInput : Type 0 where
  pub service : String
  pub image_tag : String
  pub replicas : ℤ

pub record ScaleResult : Type 0 where
  pub ready_replicas : ℤ

module _ (K : Kube) where
  unfoldable pub scale_canary : ScaleInput → Exec (World K) ScaleResult
  scale_canary input = do
    set_image K (canary_name input.service) input.image_tag
    scale_deployment K (canary_name input.service) (to_int32 input.replicas)
    status ← deployment_status K (canary_name input.service)
    pure (record { ready_replicas = status.0 })

  unfoldable pub scale_down_canary : ScaleInput → Exec (World K) (Unit {0})
  scale_down_canary input = scale_deployment K (canary_name input.service) (pos 0)
