-- ===== src/Workflows/Canary/Trace/Stages.antt =====
-- Every stage of a deploy goes on by calls of the engine.
use temporalops.Base.{
  ◌≡◌, continue, [], String, ◌<>◌, Bool, not, Result, ok, err, pure, attempt, ◌>>=◌, ◌>>◌, refl,
}
use temporalops.Activities.Policy.{PolicyResult}
use temporalops.Activities.Scale.{ScaleResult}
use temporalops.Activities.Health.{HealthResult}
use temporalops.Workflows.Engine.{
  Engine, Run, Flow, listening, attached, Call, Reply, ApprovalSignal, execute, set_phase,
  set_query_handler,
}
use temporalops.Workflows.Options.{
  Duration, ActivityOptions, policy_opts, scale_opts, traffic_opts, promote_opts, health_opts,
}
use temporalops.Workflows.Saga.{Saga, new_saga, register, compensate}
use temporalops.Workflows.Canary.{
  CanaryInput, CanaryResult, CanaryStatus, policy_rejected, rolled_back, canary_status_query, alert,
  record_approval, unwind, wait_for_approval, scale_down, shift_back, promotion, promote_stage,
  gate, gate_stage, shifted, shift_stage, baked, bake_stage, scaled, scale_stage, admitted,
  policy_stage, first_result, canary_deploy, status_answer,
}
use temporalops.Workflows.Canary.History.{
  policy_call, bake_call, down_call, back_call, promote_call, shift_call, scale_call,
}
use temporalops.Workflows.Canary.Trace.{
  still, queried, selected, Traces, Follows-same, Goes, Goes-Follows, Goes-queried, Traces-pure,
  Traces-bind, Traces-phase, Traces-if, Traces-attempt, Traces-execute, Traces-new_saga,
  Traces-register,
}

module _ (T : Engine) where
  abbrev Traced : {A : Type 0} → Flow T A → Type 0
  Traced m = Traces T m

  abbrev Safe : Saga T → Type 0
  Safe saga = Traced (compensate T saga)

  then-Traces : {A B : Type 0} (m : Flow T A) (n : Flow T B) → Traced m → Traced n → Traced (m >> n)
  then-Traces m n h k = Traces-bind T m (λ _. n) h λ _. k

  attempt-Traces : {A : Type 0} (m : Flow T A) → Traced m → Traced (attempt m >> pure tt)
  attempt-Traces m h = then-Traces _ _ (Traces-attempt T m h) (Traces-pure T tt)

  alert-Traces : (res : CanaryResult) → Traced (alert T res)
  unfolding alert
  alert-Traces res = attempt-Traces _ (Traces-execute T _ _ _)

  record_approval-Traces :
      (actor decision detail : String) → Traced (record_approval T actor decision detail)
  unfolding record_approval
  record_approval-Traces actor decision detail = attempt-Traces _ (Traces-execute T _ _ _)

  unwind-Traces :
      (saga : Saga T) (res : CanaryResult) (status : CanaryStatus) (reason : String)
      → Safe saga
      → Traced (unwind T saga res status reason)
  unfolding unwind
  unwind-Traces saga res status reason h = then-Traces _ _ h (
      then-Traces _ _ (alert-Traces (record res { status = status; reason = reason }))
        (Traces-pure T _))

  wait-Traces : (d : Duration) → Traced (wait_for_approval T d)
  unfolding wait_for_approval
  wait-Traces d = record {
    at = λ s. Follows-same T s _ refl refl (selected _ d s.engine _ [] (still _));
  }

  promotion-Traces :
      (input : CanaryInput) (saga : Saga T) (res : CanaryResult) (r : Result (Unit {0}))
      → Safe saga
      → Traced (promotion T input saga res r)
  unfolding promotion
  promotion-Traces input saga res (err e) h = unwind-Traces saga res _ _ h
  promotion-Traces input saga res (ok _) h = then-Traces _ _ (Traces-phase T _) (Traces-pure T _)

  -- A phase, an activity, and what follows on its result.
  stage-Traces :
      {B : Type 0} (phase : String) (options : ActivityOptions) (c : Call)
      (f : Result (Reply c) → Flow T B)
      → ((r : Result (Reply c)) → Traced (f r))
      → Traced (set_phase T phase >> (attempt (execute T attached options c) >>= f))
  stage-Traces phase options c f k = then-Traces _ _ (Traces-phase T phase) (
      Traces-bind T (attempt (execute T attached options c)) f
        (Traces-attempt T (execute T attached options c) (Traces-execute T attached options c)) k)

  promote_stage-Traces :
      (input : CanaryInput) (saga : Saga T) (res : CanaryResult)
      → Safe saga
      → Traced (promote_stage T input saga res)
  unfolding promote_stage
  promote_stage-Traces input saga res h =
      stage-Traces "promote" promote_opts (promote_call input) (promotion T input saga res)
        λ r. promotion-Traces input saga res r h

  gate-Traces :
      (input : CanaryInput) (saga : Saga T) (res : CanaryResult) (signal : ApprovalSignal)
      (expired : Bool)
      → Safe saga
      → Traced (gate T input saga res (signal, expired))
  unfolding gate
  gate-Traces input saga res signal expired h =
      Traces-if T expired _ _
        (then-Traces _ _ (record_approval-Traces _ _ _) (unwind-Traces saga _ _ _ h))
        (Traces-if T (not signal.approve) _ _
          (then-Traces _ _ (record_approval-Traces _ _ _) (unwind-Traces saga _ _ _ h))
          (then-Traces _ _ (record_approval-Traces _ _ _) (promote_stage-Traces input saga _ h)))

  gate_stage-Traces :
      (input : CanaryInput) (saga : Saga T) (res : CanaryResult)
      → Safe saga
      → Traced (gate_stage T input saga res)
  unfolding gate_stage
  gate_stage-Traces input saga res h =
      Traces-if T input.auto_promote _ _
        (then-Traces _ _ (record_approval-Traces _ _ _)
          (promote_stage-Traces input saga (record res { actor = "auto-release" }) h))
        (then-Traces _ _ (Traces-phase T "awaiting-approval") (
          Traces-bind T (wait_for_approval T input.approval_timeout) (gate T input saga res)
            (wait-Traces input.approval_timeout) λ d. gate-Traces input saga res d.0 d.1 h))

  shift_stage-Traces :
      (input : CanaryInput) (saga : Saga T) (res : CanaryResult)
      → Safe saga
      → Traced (shift_stage T input saga res)
  unfolding shift_stage
  shift_stage-Traces input saga res h =
      stage-Traces "shift-traffic" traffic_opts (shift_call input) (shifted T input saga res) next
    where
      next : (r : Result (Unit {0})) → Traced (shifted T input saga res r)
      next (err e) = unwind-Traces saga res rolled_back ("shift traffic failed: " <> e.text) h
      next (ok _) =
          gate_stage-Traces input (register T saga "shift-traffic-back" (shift_back T input)) res (
            Traces-register T saga "shift-traffic-back" (shift_back T input)
              (λ scope. Traces-execute T scope traffic_opts (back_call input)) h)

  bake_stage-Traces :
      (input : CanaryInput) (saga : Saga T) (res : CanaryResult)
      → Safe saga
      → Traced (bake_stage T input saga res)
  unfolding bake_stage
  bake_stage-Traces input saga res h =
      stage-Traces "health-bake" (health_opts input.bake_seconds) (bake_call input)
        (baked T input saga res) next
    where
      next : (r : Result HealthResult) → Traced (baked T input saga res r)
      next (err e) = unwind-Traces saga res rolled_back ("health check error: " <> e.text) h
      next (ok health) =
          Traces-if T health.healthy _ _ (shift_stage-Traces input saga res h)
            (unwind-Traces saga res rolled_back ("canary unhealthy: " <> health.reason) h)

  scale_stage-Traces : (input : CanaryInput) (res : CanaryResult) → Traced (scale_stage T input res)
  unfolding scale_stage
  scale_stage-Traces input res =
      stage-Traces "scale-canary" scale_opts (scale_call input) (scaled T input res) next
    where
      next : (r : Result ScaleResult) → Traced (scaled T input res r)
      next (err e) =
          unwind-Traces (new_saga T) res rolled_back ("scale canary failed: " <> e.text)
            (Traces-new_saga T)
      next (ok _) =
          bake_stage-Traces input (register T (new_saga T) "scale-down-canary" (scale_down T input))
            res
            (Traces-register T (new_saga T) "scale-down-canary" (scale_down T input)
              (λ scope. Traces-execute T scope scale_opts (down_call input)) (Traces-new_saga T))

  admitted-Traces :
      (input : CanaryInput) (res : CanaryResult) (policy : PolicyResult)
      → Traced (admitted T input res policy)
  unfolding admitted
  admitted-Traces input res policy = Traces-if T policy.allowed _ _ (scale_stage-Traces input res) (
      then-Traces _ _ (Traces-phase T "policy-rejected") (
        then-Traces _ _
          (alert-Traces (record res { status = policy_rejected; reason = policy.reason }))
          (Traces-pure T _)))

  policy_stage-Traces :
      (input : CanaryInput) (res : CanaryResult) → Traced (policy_stage T input res)
  unfolding policy_stage
  policy_stage-Traces input res = then-Traces _ _ (Traces-phase T "policy-check") (
      Traces-bind T (execute T attached policy_opts (policy_call input)) (admitted T input res)
        (Traces-execute T attached policy_opts (policy_call input)) (admitted-Traces input res))

  -- The deploy from its registration of the query handler on.
  abbrev from_query : CanaryInput → Result (Unit {0}) → Run T → Result CanaryResult × Run T
  from_query input r t = continue (λ _. policy_stage T input (first_result T input)) (r, t)

  from_query-Goes :
      (input : CanaryInput) (r : Result (Unit {0})) (s t : Run T)
      → Goes T s t
      → Goes T s (from_query input r t).1
  from_query-Goes input (ok _) s t h =
      Goes-Follows T s t _ h ((policy_stage-Traces input (first_result T input)).at t)
  from_query-Goes input (err e) s t h = h

  from_query-handlers :
      (input : CanaryInput) (r : Result (Unit {0})) (t : Run T)
      → (from_query input r t).1.handlers ≡ t.handlers
  from_query-handlers input (ok _) t =
      ((policy_stage-Traces input (first_result T input)).at t).same_handlers
  from_query-handlers input (err e) t = refl

  pub canary_deploy-Goes : (input : CanaryInput) (s : Run T) → Goes T s (canary_deploy T input s).1
  unfolding canary_deploy set_query_handler
  canary_deploy-Goes input s =
      from_query-Goes input (T.set_query_handler canary_status_query s.engine).0 s _
        (Goes-queried T s _ refl (queried canary_status_query s.engine _ [] (still _)))

  -- Of the query handlers, a deploy sets the one of its status and no other.
  pub canary_deploy-handlers :
      (input : CanaryInput) (s : Run T)
      → (canary_deploy T input s).1.handlers
        ≡ listening
            (T.set_query_handler canary_status_query s.engine).0
            (record { name = canary_status_query; answer = status_answer })
            s.handlers
  unfolding canary_deploy set_query_handler
  canary_deploy-handlers input s =
      from_query-handlers input (T.set_query_handler canary_status_query s.engine).0 _
