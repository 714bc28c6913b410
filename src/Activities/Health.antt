-- ===== src/Activities/Health.antt =====
-- internal/activities/health.go: the bake.
pub mod Bake
pub mod Beats
use temporalops.Base.{
  ℕ, zero, suc, ◌+◌, ℤ, pos, pos_part, ◌<ℤ◌, ◌==ℤ◌, String, ◌<>◌, show, Bool, true, false, ◌||◌,
  Exec, pure, ◌>>=◌, ◌>>◌, if◌then◌else◌,
}
use temporalops.Kube.{Kube}
use temporalops.Client.{
  World, Heartbeat, second, progress, canary_name, api, deployment_status, record_heartbeat,
}

pub record HealthInput : Type 0 where
  pub service : String
  pub bake_seconds : ℤ
  pub simulate_fail : Bool

-- `error_rate` is in hundredths; the source has a float64 that is 0.42 or 0.
pub record HealthResult : Type 0 where
  pub healthy : Bool
  pub reason : String
  pub error_rate : ℕ

abbrev ready_text : ℤ → ℤ → String
ready_text ready desired = show ready <> "/" <> show desired

-- The judgement after the bake, from the counts of the last poll.
unfoldable pub judge : ℤ → ℤ → ℤ → HealthResult
judge bake_seconds ready desired =
    if desired ==ℤ pos 0 || ready <ℤ desired
    then record {
      healthy = false;
      reason =
          "canary "
          <> ready_text ready desired
          <> " replicas ready after "
          <> show bake_seconds
          <> "s bake";
      error_rate = 0;
    }
    else record {
      healthy = true;
      reason = "canary " <> ready_text ready desired <> " replicas ready";
      error_rate = 0;
    }

module _ (K : Kube) where
  -- The rounds that are left, and the loop's `i`.
  unfoldable pub simulated : ℕ → ℕ → Exec (World K) (Unit {0})
  simulated zero i = pure tt
  simulated (suc rounds) i = do
    api K K.wait_second
    record_heartbeat K (second (pos (i + 1)))
    simulated rounds (i + 1)

  -- The rounds that are left, and the counts so far.
  unfoldable pub bake : String → ℕ → ℤ × ℤ → Exec (World K) (ℤ × ℤ)
  bake name zero counts = pure counts
  bake name (suc rounds) counts = do
    api K K.wait_second
    status ← deployment_status K name
    record_heartbeat K (progress (ready_text status.0 status.1 <> " ready"))
    bake name rounds status

  abbrev injected : HealthResult
  injected = record { healthy = false; reason = "injected health failure"; error_rate = 42 }

  -- A loop up to a negative bound has no round, as one up to 0.
  unfoldable pub health_check : HealthInput → Exec (World K) HealthResult
  unfolding simulated bake
  health_check input =
      if input.simulate_fail then simulated (pos_part input.bake_seconds) 0 >> pure injected else do
        counts ← bake (canary_name input.service) (pos_part input.bake_seconds) (pos 0, pos 0)
        pure (judge input.bake_seconds counts.0 counts.1)
