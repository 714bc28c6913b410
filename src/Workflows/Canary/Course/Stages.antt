-- ===== src/Workflows/Canary/Course/Stages.antt =====
-- Every run of a deploy takes one of the courses: the proof goes through the stages from the last to
-- the first.
use mathlib.Core.List.{append-nil}
use temporalops.Base.{◌≡◌, refl, sym, ap, ◌∙◌, [], ◌∷◌, ◌++◌, Result, ok, err, continue}
use temporalops.Activities.Health.{HealthResult}
use temporalops.Activities.Scale.{ScaleResult}
use temporalops.Activities.Policy.{PolicyResult}
use temporalops.Workflows.Options.{policy_opts, scale_opts, traffic_opts, health_opts}
use temporalops.Workflows.Engine.{Engine, Run, is_ok, execute, set_query_handler}
use temporalops.Workflows.Saga.{Saga, new_saga}
use temporalops.Workflows.Canary.{
  CanaryInput, alert, shift_back, scale_down, shifted, shift_stage, baked, bake_stage, scaled,
  scale_stage, admitted, policy_stage, first_result, canary_status_query, canary_deploy,
}
use temporalops.Workflows.Canary.History.{
  new_saga-Undoes, register-Undoes, policy_call, scale_call, shift_call,
}
use temporalops.Workflows.Canary.Phases
use temporalops.Workflows.Canary.Balance.{fresh}
use temporalops.Workflows.Canary.Course.{
  Said, Course, no_query, no_policy, denied, not_scaled, not_baked, unhealthy, not_shifted, Takes,
  to_scale, to_bake, to_shift, policy_step, scale_step, bake_step, shift_step,
}
use temporalops.Workflows.Canary.History.{bake_call, down_call, back_call}
use temporalops.Workflows.Canary.Course.Gate.{
  Undoing, unwind-Took, steps-snoc, gate_stage-Takes, if-Takes,
}

module _ (T : Engine) (input : CanaryInput) where
  shifted-Takes :
      (saga : Saga T) (r : Result (Unit {0})) (s : Run T)
      → Undoing T input saga (down_call input ∷ [])
      → Said T input traffic_opts (shift_call input) r
      → s.phases ≡ Phases.to_shift
      → s.steps ≡ to_shift T input ++ (shift_step T input (is_ok r) ∷ [])
      → Takes T input (shifted T input saga (first_result T input) r s)
  unfolding shifted execute
  shifted-Takes saga (err e) s h said phases steps = (
    not_shifted e said,
    unwind-Took T input (not_shifted e said) saga _ _ _ _ s h refl refl phases steps,
  )
  shifted-Takes saga (ok _) s h said phases steps =
      gate_stage-Takes T input _ s
        (λ t.
          register-Undoes T saga "shift-traffic-back" (shift_back T input) traffic_opts
            (back_call input) (down_call input ∷ []) (λ u. (_, _, refl)) h t)
        phases steps

  shift_stage-Takes :
      (saga : Saga T) (s : Run T)
      → Undoing T input saga (down_call input ∷ [])
      → s.phases ≡ Phases.to_bake
      → s.steps ≡ to_shift T input
      → Takes T input (shift_stage T input saga (first_result T input) s)
  unfolding shift_stage execute
  shift_stage-Takes saga s h phases steps =
      shifted-Takes saga _ _ h (record { asked_at = s.engine; said = refl })
        (ap (λ ps. ps ++ ("shift-traffic" ∷ [])) phases) (steps-snoc T input s _ _ steps)

  baked-Takes :
      (saga : Saga T) (r : Result HealthResult) (s : Run T)
      → Undoing T input saga (down_call input ∷ [])
      → Said T input (health_opts input.bake_seconds) (bake_call input) r
      → s.phases ≡ Phases.to_bake
      → s.steps ≡ to_bake T input ++ (bake_step T input (is_ok r) ∷ [])
      → Takes T input (baked T input saga (first_result T input) r s)
  unfolding baked
  baked-Takes saga (err e) s h said phases steps = (
    not_baked e said,
    unwind-Took T input (not_baked e said) saga _ _ _ _ s h refl refl phases steps,
  )
  baked-Takes saga (ok health) s h said phases steps =
      if-Takes T input health.healthy _ _ s (λ _. shift_stage-Takes saga s h phases steps)
        λ ill.
          let course : Course T input = unhealthy health said ill in
          (course, unwind-Took T input course saga _ _ _ _ s h refl refl phases steps)

  bake_stage-Takes :
      (saga : Saga T) (s : Run T)
      → Undoing T input saga (down_call input ∷ [])
      → s.phases ≡ Phases.to_scale
      → s.steps ≡ to_bake T input
      → Takes T input (bake_stage T input saga (first_result T input) s)
  unfolding bake_stage execute
  bake_stage-Takes saga s h phases steps =
      baked-Takes saga _ _ h (record { asked_at = s.engine; said = refl })
        (ap (λ ps. ps ++ ("health-bake" ∷ [])) phases) (steps-snoc T input s _ _ steps)

  scaled-Takes :
      (r : Result ScaleResult) (s : Run T)
      → Said T input scale_opts (scale_call input) r
      → s.phases ≡ Phases.to_scale
      → s.steps ≡ to_scale T input ++ (scale_step T input (is_ok r) ∷ [])
      → Takes T input (scaled T input (first_result T input) r s)
  unfolding scaled execute
  scaled-Takes (err e) s said phases steps = (
    not_scaled e said,
    unwind-Took T input (not_scaled e said) (new_saga T) [] _ _ _ s (new_saga-Undoes T) refl refl
        phases steps,
  )
  scaled-Takes (ok _) s said phases steps =
      bake_stage-Takes _ s
        (λ t.
          register-Undoes T (new_saga T) "scale-down-canary" (scale_down T input) scale_opts
            (down_call input) [] (λ u. (_, _, refl)) (new_saga-Undoes T) t)
        phases steps

  scale_stage-Takes :
      (s : Run T)
      → s.phases ≡ Phases.to_policy
      → s.steps ≡ to_scale T input
      → Takes T input (scale_stage T input (first_result T input) s)
  unfolding scale_stage execute
  scale_stage-Takes s phases steps =
      scaled-Takes _ _ (record { asked_at = s.engine; said = refl })
        (ap (λ ps. ps ++ ("scale-canary" ∷ [])) phases) (steps-snoc T input s _ _ steps)

  admitted-Takes :
      (r : Result PolicyResult) (s : Run T)
      → Said T input policy_opts (policy_call input) r
      → s.phases ≡ Phases.to_policy
      → s.steps ≡ policy_step T input (is_ok r) ∷ []
      → Takes T input (continue (admitted T input (first_result T input)) (r, s))
  unfolding admitted alert execute
  admitted-Takes (err e) s said phases steps = (
    no_policy e said,
    record {
      back = [];
      returns = refl;
      phases = phases;
      splits = steps ∙ sym (append-nil _);
      asks = refl;
      detached = tt;
    },
  )
  admitted-Takes (ok p) s said phases steps =
      if-Takes T input p.allowed _ _ s (λ _. scale_stage-Takes s phases steps)
        λ kept_out. (
          denied p said kept_out,
          record {
            back = _;
            returns = refl;
            phases = ap (λ ps. ps ++ ("policy-rejected" ∷ [])) phases;
            splits = steps-snoc T input s _ _ steps;
            asks = refl;
            detached = (refl, tt);
          },
        )

  query-Takes :
      (r : Result (Unit {0})) (e : T.State) (s : Run T)
      → (T.set_query_handler canary_status_query e).0 ≡ r
      → s.phases ≡ "starting" ∷ []
      → s.steps ≡ []
      → Takes T input
          (continue (λ (_ : Unit {0}). policy_stage T input (first_result T input)) (r, s))
  unfolding policy_stage execute
  query-Takes (err x) e s said phases steps = (
    no_query x e said,
    record {
      back = [];
      returns = refl;
      phases = phases;
      splits = steps ∙ sym (append-nil _);
      asks = refl;
      detached = tt;
    },
  )
  query-Takes (ok _) e s said phases steps =
      admitted-Takes _ _ (record { asked_at = s.engine; said = refl })
        (ap (λ ps. ps ++ ("policy-check" ∷ [])) phases) (steps-snoc T input s _ _ steps)

  -- In every run of a deploy, whatever the engine answers, the deploy takes one of eleven courses,
  -- and the engine has given the answers that lead to it. The course tells the result with its reason
  -- and its actor, the phases that the status query shows, one after another, each step forward with
  -- its options and its success, and the calls behind them, which are all on the disconnected context.
  pub canary_deploy-Takes : (e : T.State) → Takes T input (canary_deploy T input (fresh T input e))
  unfolding canary_deploy set_query_handler
  canary_deploy-Takes e =
      query-Takes (T.set_query_handler canary_status_query e).0 e _ refl refl refl
