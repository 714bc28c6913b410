-- ===== src/Workflows/Canary/Balance.antt =====
-- Every deploy balances its books: the proof goes through the stages from the last to the first.
use mathlib.Core.List.{append-nil}
use temporalops.Base.{◌≡◌, refl, sym, ap, false, List, [], ◌∷◌, ◌++◌, Result, ok, err, continue}
use temporalops.Activities.Health.{HealthResult}
use temporalops.Activities.Scale.{ScaleResult}
use temporalops.Activities.Policy.{PolicyResult}
use temporalops.Workflows.Options.{policy_opts, scale_opts, traffic_opts}
use temporalops.Workflows.Engine.{
  Engine, Run, Flow, attached, Step, step_of, execute, set_query_handler,
}
use temporalops.Workflows.Saga.{Saga, new_saga}
use temporalops.Workflows.Canary.{
  CanaryInput, CanaryResult, rolled_back, alert, shift_back, scale_down, shifted, shift_stage,
  baked, bake_stage, scaled, scale_stage, admitted, policy_stage, first_result, canary_status_query,
  canary_deploy,
}
use temporalops.Workflows.Canary.History.{
  owed, policy_call, scale_call, shift_call, promotes, new_saga-Undoes,
}
use temporalops.Workflows.Canary.Ending.{
  Ends, Standing, stand_call, stand_register, failed_call, unwind-Ends, if-Ends,
}
use temporalops.Workflows.Canary.Approval.{gate_stage-Ends}

module _ (T : Engine) (input : CanaryInput) where
  shifted-Ends :
      (saga : Saga T) (res : CanaryResult) (steps : List Step) (r : Result (Unit {0})) (s : Run T)
      → Standing T input saga steps
      → s.steps ≡ steps ++ (step_of attached traffic_opts (shift_call input) r ∷ [])
      → Ends T input (shifted T input saga res r s)
  unfolding shifted execute
  shifted-Ends saga res steps (err e) s h k =
      unwind-Ends T input saga res rolled_back _ s (λ _ _ _ c. c)
        (rw k (failed_call T input (Unit {0}) saga steps traffic_opts (shift_call input) e refl h))
  shifted-Ends saga res steps (ok _) s h k = gate_stage-Ends T input _ res s (
      rw k (
        stand_register T input saga steps _ _ (shift_back T input) traffic_opts _ refl refl refl
          (λ t. (_, _, refl)) h))

  shift_stage-Ends :
      (saga : Saga T) (res : CanaryResult) (s : Run T)
      → Standing T input saga s.steps
      → Ends T input (shift_stage T input saga res s)
  unfolding shift_stage execute
  shift_stage-Ends saga res s h = shifted-Ends saga res s.steps _ _ h refl

  baked-Ends :
      (saga : Saga T) (res : CanaryResult) (r : Result HealthResult) (s : Run T)
      → Standing T input saga s.steps
      → Ends T input (baked T input saga res r s)
  unfolding baked
  baked-Ends saga res (err e) s h = unwind-Ends T input saga res rolled_back _ s (λ _ _ _ k. k) h
  baked-Ends saga res (ok health) s h =
      if-Ends T input health.healthy _ _ s (λ _. shift_stage-Ends saga res s h)
        (λ _. unwind-Ends T input saga res rolled_back _ s (λ _ _ _ k. k) h)

  bake_stage-Ends :
      (saga : Saga T) (res : CanaryResult) (s : Run T)
      → Standing T input saga s.steps
      → Ends T input (bake_stage T input saga res s)
  unfolding bake_stage execute
  bake_stage-Ends saga res s h =
      baked-Ends saga res _ _ (stand_call T input saga s.steps _ _ _ refl refl h)

  scaled-Ends :
      (res : CanaryResult) (steps : List Step) (r : Result ScaleResult) (s : Run T)
      → Standing T input (new_saga T) steps
      → s.steps ≡ steps ++ (step_of attached scale_opts (scale_call input) r ∷ [])
      → Ends T input (scaled T input res r s)
  unfolding scaled execute
  scaled-Ends res steps (err e) s h k =
      unwind-Ends T input (new_saga T) res rolled_back _ s (λ _ _ _ c. c)
        (rw k (
          failed_call T input ScaleResult (new_saga T) steps scale_opts (scale_call input) e refl
            h))
  scaled-Ends res steps (ok _) s h k = bake_stage-Ends _ res s (
      rw k (
        stand_register T input (new_saga T) steps _ _ (scale_down T input) scale_opts _ refl refl
          refl (λ t. (_, _, refl)) h))

  scale_stage-Ends :
      (res : CanaryResult) (s : Run T)
      → Standing T input (new_saga T) s.steps
      → Ends T input (scale_stage T input res s)
  unfolding scale_stage execute
  scale_stage-Ends res s h = scaled-Ends res s.steps _ _ h refl

  admitted-Ends :
      (res : CanaryResult) (policy : PolicyResult) (s : Run T)
      → Standing T input (new_saga T) s.steps
      → owed s.steps ≡ []
      → Ends T input (admitted T input res policy s)
  unfolding admitted alert execute
  admitted-Ends res policy s h none_owed =
      let quiet : promotes s.steps ≡ false = h.quiet in
      if-Ends T input policy.allowed _ _ s (λ _. scale_stage-Ends res s h)
        λ _. record {
          fwd = s.steps;
          back = _;
          splits = refl;
          forward = h.owing.forward;
          detached = (refl, tt);
          finish = (none_owed, refl);
          allowed = λ p. cc (quiet, p);
        }

  begin : Standing T input (new_saga T) []
  begin = record { owing = record { forward = tt; owes = new_saga-Undoes T }; quiet = refl }

  policy-Ends :
      (res : CanaryResult) (r : Result PolicyResult) (s : Run T)
      → s.steps ≡ step_of attached policy_opts (policy_call input) r ∷ []
      → Ends T input (continue (admitted T input res) (r, s))
  policy-Ends res (ok policy) s k =
      admitted-Ends res policy s
        (rw k (
          stand_call T input (new_saga T) [] policy_opts (policy_call input) (ok policy) refl refl
            begin))
        (rw k)
  policy-Ends res (err e) s k = record {
    fwd = s.steps;
    back = [];
    splits = sym (append-nil s.steps);
    forward = rw k (refl, tt);
    detached = tt;
    finish = (rw k, refl);
    allowed = rw k;
  }

  policy_stage-Ends :
      (res : CanaryResult) (s : Run T) → s.steps ≡ [] → Ends T input (policy_stage T input res s)
  unfolding policy_stage execute
  policy_stage-Ends res s k =
      let r : Result PolicyResult =
        (T.execute attached policy_opts (policy_call input) s.engine).0 in
      policy-Ends res r _
        (ap (λ xs. xs ++ (step_of attached policy_opts (policy_call input) r ∷ [])) k)

  query-Ends :
      (rest : Flow T CanaryResult) (r : Result (Unit {0})) (s : Run T)
      → s.steps ≡ []
      → ((t : Run T) → t.steps ≡ [] → Ends T input (rest t))
      → Ends T input (continue (λ (_ : Unit {0}). rest) (r, s))
  query-Ends rest (ok _) s k h = h s k
  query-Ends rest (err e) s k h = record {
    fwd = [];
    back = [];
    splits = k;
    forward = tt;
    detached = tt;
    finish = (refl, refl);
    allowed = refl;
  }

  abbrev pub fresh : T.State → Run T
  fresh e = record { engine = e; phases = []; handlers = []; steps = [] }

  -- In every run of a deploy, whatever the engine answers, the activities that it asks for are the
  -- steps forward and behind them, on the disconnected context, what the outcome calls for. A
  -- promoted deploy ends with a full rollout that succeeded and takes nothing back. A rolled back or
  -- timed out one asks for the inverse of each step that succeeded and has one, newest first and
  -- once each, and then raises an alert that tells the outcome. A deploy that the policy rejects has
  -- done nothing to take back and raises the alert; one that fails with an error has done nothing to
  -- take back either, and stops. The full rollout is asked for only if the release approved it, or
  -- if the gate received a signal that approves, whose actor the result names.
  pub canary_deploy-Ends : (e : T.State) → Ends T input (canary_deploy T input (fresh e))
  unfolding canary_deploy set_query_handler
  canary_deploy-Ends e =
      query-Ends (policy_stage T input (first_result T input))
        (T.set_query_handler canary_status_query e).0 _ refl
        (policy_stage-Ends (first_result T input))
