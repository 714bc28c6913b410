-- ===== src/Workflows/Canary.antt =====
-- internal/workflows/canary.go and signals.go: the canary deploy, one function for each stage.
mod Types
unfoldable pub use Types.*
pub mod History
pub mod Phases
pub mod Ending
pub mod Approval
pub mod Balance
pub mod Cluster
pub mod Isolation
pub mod Trace
pub mod OnRecord
pub mod Course
use temporalops.Base.{
  List, ℤ, pos, String, ◌<>◌, duration_text, Bool, true, false, not, Error, Result, ok, err, Exec,
  pure, attempt, modify, ◌>>=◌, ◌>>◌, if◌then◌else◌,
}
use temporalops.Activities.Policy.{PolicyResult}
use temporalops.Activities.Scale.{ScaleResult}
use temporalops.Activities.Health.{HealthResult}
use temporalops.Workflows.Options.{
  Duration, policy_opts, scale_opts, traffic_opts, promote_opts, health_opts, alert_opts,
}
use temporalops.Workflows.Engine.{
  Engine, Run, Flow, Scope, attached, disconnected, Call, ApprovalSignal, Ready, received,
  timer_done, execute, set_phase, set_query_handler, value_of,
}
use temporalops.Workflows.Saga.{Saga, new_saga, register, compensate}

-- The handler of the status query: the closure that returns `phase`.
abbrev pub status_answer : List String → Result String
status_answer phases = ok (value_of phases)

module _ (T : Engine) where
  -- Best effort: its error is dropped.
  unfoldable pub alert : CanaryResult → Flow T (Unit {0})
  unfolding status_text
  alert res =
      attempt (
        execute T disconnected alert_opts (
          Call.alert (record {
            service = res.service;
            status = status_text res.status;
            reason = res.reason;
          })))
      >> pure tt

  -- Best effort too, but in the workflow's own context.
  unfoldable pub record_approval : String → String → String → Flow T (Unit {0})
  record_approval actor decision detail =
      attempt (
        execute T attached alert_opts
          (Call.record_approval (record { actor = actor; decision = decision; detail = detail })))
      >> pure tt

  unfoldable pub unwind : Saga T → CanaryResult → CanaryStatus → String → Flow T CanaryResult
  unfolding alert
  unwind saga res status reason = do
    compensate T saga
    alert (record res { status = status; reason = reason })
    pure (record res { status = status; reason = reason })

  -- Whatever makes the timer's future ready counts as a timeout.
  abbrev decide : Ready → ApprovalSignal × Bool
  decide (received signal) = (signal, false)
  decide (timer_done _) = (record { approve = false; actor = "" }, true)

  unfoldable pub wait_for_approval : Duration → Flow T (ApprovalSignal × Bool)
  wait_for_approval timeout s =
      let (ready, e) = T.select approve_promote_signal timeout s.engine in
      (ok (decide ready), record s { engine = e })

  -- The compensations that the stages register.
  abbrev pub scale_down : CanaryInput → Scope → Flow T (Unit {0})
  scale_down input scope = execute T scope scale_opts (
      Call.scale_down_canary (record { service = input.service; image_tag = ""; replicas = pos 0 }))

  abbrev pub shift_back : CanaryInput → Scope → Flow T (Unit {0})
  shift_back input scope = execute T scope traffic_opts (
      Call.shift_traffic_back (record {
        service = input.service;
        canary_weight = pos 0;
        target_replicas = input.target_replicas;
        simulate_fail = false;
      }))

  -- 6. Full rollout.
  promotion : CanaryInput → Saga T → CanaryResult → Result (Unit {0}) → Flow T CanaryResult
  promotion input saga res (err e) = unwind saga res rolled_back ("promote failed: " <> e.text)
  promotion input saga res (ok _) = do
    set_phase T "promoted"
    pure (record res {
      status = promoted;
      reason = "promoted to target replicas, approved by " <> res.actor;
    })

  promote_stage : CanaryInput → Saga T → CanaryResult → Flow T CanaryResult
  unfolding promotion
  promote_stage input saga res = do
    set_phase T "promote"
    rolled_out ← attempt (
        execute T attached promote_opts (
          Call.promote (record {
            service = input.service;
            image_tag = input.image_tag;
            target_replicas = input.target_replicas;
          })))
    promotion input saga res rolled_out

  -- 5. The approval gate.
  abbrev pub no_approval : CanaryInput → String
  no_approval input = "no approval within " <> duration_text input.approval_timeout

  gate : CanaryInput → Saga T → CanaryResult → ApprovalSignal × Bool → Flow T CanaryResult
  unfolding promote_stage
  gate input saga res (signal, expired) =
      if expired
      then (record_approval "" "timeout" (no_approval input)
          >> unwind saga (record res { actor = signal.actor }) timed_out (no_approval input))
      else if not signal.approve
      then (record_approval signal.actor "rejected" "promotion rejected"
          >> unwind saga (record res { actor = signal.actor }) rolled_back
              ("promotion rejected by " <> signal.actor))
      else (record_approval signal.actor "approved" "promotion approved"
          >> promote_stage input saga (record res { actor = signal.actor }))

  pub gate_stage : CanaryInput → Saga T → CanaryResult → Flow T CanaryResult
  unfolding gate
  gate_stage input saga res =
      if input.auto_promote
      then (record_approval "auto-release" "auto" "promoted via release orchestrator"
          >> promote_stage input saga (record res { actor = "auto-release" }))
      else do
        set_phase T "awaiting-approval"
        decision ← wait_for_approval input.approval_timeout
        gate input saga res decision

  -- 4. Traffic to the canary.
  shifted : CanaryInput → Saga T → CanaryResult → Result (Unit {0}) → Flow T CanaryResult
  unfolding gate_stage
  shifted input saga res (err e) = unwind saga res rolled_back ("shift traffic failed: " <> e.text)
  shifted input saga res (ok _) =
      gate_stage input (register T saga "shift-traffic-back" (shift_back input)) res

  shift_stage : CanaryInput → Saga T → CanaryResult → Flow T CanaryResult
  unfolding shifted
  shift_stage input saga res = do
    set_phase T "shift-traffic"
    shift ← attempt (
        execute T attached traffic_opts (
          Call.shift_traffic (record {
            service = input.service;
            canary_weight = pos 50;
            target_replicas = input.target_replicas;
            simulate_fail = input.simulate_traffic_fail;
          })))
    shifted input saga res shift

  -- 3. The bake.
  baked : CanaryInput → Saga T → CanaryResult → Result HealthResult → Flow T CanaryResult
  unfolding shift_stage
  baked input saga res (err e) = unwind saga res rolled_back ("health check error: " <> e.text)
  baked input saga res (ok health) =
      if health.healthy
      then shift_stage input saga res
      else unwind saga res rolled_back ("canary unhealthy: " <> health.reason)

  bake_stage : CanaryInput → Saga T → CanaryResult → Flow T CanaryResult
  unfolding baked
  bake_stage input saga res = do
    set_phase T "health-bake"
    health ← attempt (
        execute T attached (health_opts input.bake_seconds) (
          Call.health_check (record {
            service = input.service;
            bake_seconds = input.bake_seconds;
            simulate_fail = input.simulate_health_fail;
          })))
    baked input saga res health

  -- 2. The canary up.
  scaled : CanaryInput → CanaryResult → Result ScaleResult → Flow T CanaryResult
  unfolding bake_stage
  scaled input res (err e) = unwind (new_saga T) res rolled_back ("scale canary failed: " <> e.text)
  scaled input res (ok _) =
      bake_stage input (register T (new_saga T) "scale-down-canary" (scale_down input)) res

  scale_stage : CanaryInput → CanaryResult → Flow T CanaryResult
  unfolding scaled
  scale_stage input res = do
    set_phase T "scale-canary"
    up ← attempt (
        execute T attached scale_opts (
          Call.scale_canary (record {
            service = input.service;
            image_tag = input.image_tag;
            replicas = input.canary_replicas;
          })))
    scaled input res up

  -- 1. The policy gate.
  admitted : CanaryInput → CanaryResult → PolicyResult → Flow T CanaryResult
  unfolding scale_stage
  admitted input res policy = if policy.allowed then scale_stage input res else do
    set_phase T "policy-rejected"
    alert (record res { status = policy_rejected; reason = policy.reason })
    pure (record res { status = policy_rejected; reason = policy.reason })

  policy_stage : CanaryInput → CanaryResult → Flow T CanaryResult
  unfolding admitted
  policy_stage input res = do
    set_phase T "policy-check"
    policy ← execute T attached policy_opts (
        Call.policy_check (record {
          service = input.service;
          image_tag = input.image_tag;
          simulate_reject = input.simulate_policy_reject;
        }))
    admitted input res policy

  abbrev pub first_result : CanaryInput → CanaryResult
  first_result input = record { service = input.service; status = unset; reason = ""; actor = "" }

  unfoldable pub canary_deploy : CanaryInput → Flow T CanaryResult
  unfolding policy_stage unwind alert record_approval wait_for_approval
  canary_deploy input = do
    set_phase T "starting"
    set_query_handler T canary_status_query status_answer
    policy_stage input (first_result input)
