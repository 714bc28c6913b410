-- ===== src/Workflows/Canary/Types.antt =====
-- What a deploy takes and gives: the types of canary.go, and the names of signals.go.
use temporalops.Base.{ℤ, String, Bool}
use temporalops.Workflows.Options.{Duration}

abbrev pub approve_promote_signal : String
approve_promote_signal = "approve-promote"

abbrev pub canary_status_query : String
canary_status_query = "canary-status"

pub record CanaryInput : Type 0 where
  pub service : String
  pub image_tag : String
  pub target_replicas : ℤ
  pub canary_replicas : ℤ
  pub bake_seconds : ℤ
  pub approval_timeout : Duration
  pub auto_promote : Bool
  pub simulate_policy_reject : Bool
  pub simulate_health_fail : Bool
  pub simulate_traffic_fail : Bool

-- `unset` is the empty string, which a `CanaryResult` begins with.
pub data CanaryStatus : Type 0 where
  unset promoted rolled_back timed_out policy_rejected : CanaryStatus

unfoldable pub status_text : CanaryStatus → String
status_text unset = ""
status_text promoted = "Promoted"
status_text rolled_back = "RolledBack"
status_text timed_out = "TimedOut"
status_text policy_rejected = "PolicyRejected"

pub record CanaryResult : Type 0 where
  pub service : String
  pub status : CanaryStatus
  pub reason : String
  pub actor : String
