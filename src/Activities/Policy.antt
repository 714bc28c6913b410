-- ===== src/Activities/Policy.antt =====
-- internal/activities/policy.go: the policy gate.
pub mod Verdicts
use temporalops.Base.{
  String, Bool, true, false, some, Error, Result, ok, err, Exec, pure, raise, attempt, ◌>>=◌,
  if◌then◌else◌,
}
use temporalops.Kube.{Kube}
use temporalops.Client.{World, canary_name, is_infra_error, dry_run_set_image}

pub record PolicyInput : Type 0 where
  pub service : String
  pub image_tag : String
  pub simulate_reject : Bool

pub record PolicyResult : Type 0 where
  pub allowed : Bool
  pub reason : String

module _ (K : Kube) where
  -- What the error of the dry run means.
  unfoldable pub verdict : Result (Unit {0}) → Exec (World K) PolicyResult
  verdict (ok _) = pure (record { allowed = true; reason = "image admitted by cluster policy" })
  verdict (err e) =
      if is_infra_error (some e)
      then raise e
      else pure (record { allowed = false; reason = e.text })

  unfoldable pub policy_check : PolicyInput → Exec (World K) PolicyResult
  unfolding verdict
  policy_check input =
      if input.simulate_reject
      then pure (record { allowed = false; reason = "injected policy rejection" })
      else do
        dry_run ← attempt (dry_run_set_image K (canary_name input.service) input.image_tag)
        verdict dry_run
