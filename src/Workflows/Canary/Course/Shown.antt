-- ===== src/Workflows/Canary/Course/Shown.antt =====
-- What the status query shows during a deploy and at its end.
use temporalops.Base.{
  String, ◌≡◌, refl, sym, ap, ◌∙◌, subst, none, some, List, ◌⊎◌, inl, inr, [], ◌∷◌, ◌++◌, Result,
  ok, err,
}
use temporalops.Workflows.Engine.{Engine, Run, Handler, value_of, listening, answered, query}
use temporalops.Workflows.Canary.{
  CanaryInput, CanaryResult, CanaryStatus, unset, promoted, rolled_back, timed_out, policy_rejected,
  canary_deploy, canary_status_query, status_answer,
}
use temporalops.Workflows.Canary.Phases.{
  InOrder, checks, rejects, scales, bakes, shifts, awaits, approved, released, promotes, last_phase,
}
use temporalops.Workflows.Canary.Balance.{fresh}
use temporalops.Workflows.Canary.Course.{
  Leave, by_release, by_signal, leave_phases, Course, no_query, no_policy, denied, not_scaled,
  not_baked, unhealthy, not_shifted, expired, refused, not_promoted, rolled_out, result_of,
  phases_of,
}
use temporalops.Workflows.Canary.Course.Stages.{canary_deploy-Takes}
use temporalops.Workflows.Canary.Trace.Stages.{canary_deploy-handlers}

-- The phases in which a deploy may be rolled back.
pub data RollsBackIn : String → Type 0 where
  in_scale : RollsBackIn "scale-canary"
  in_bake : RollsBackIn "health-bake"
  in_shift : RollsBackIn "shift-traffic"
  in_gate : RollsBackIn "awaiting-approval"
  in_rollout : RollsBackIn "promote"

-- The last phase goes with the status.
abbrev pub GoesWith : CanaryStatus → String → Type 0
GoesWith unset p = ⊥
GoesWith promoted p = p ≡ "promoted"
GoesWith rolled_back p = RollsBackIn p
GoesWith timed_out p = p ≡ "awaiting-approval"
GoesWith policy_rejected p = p ≡ "policy-rejected"

abbrev pub Shows : Result CanaryResult → String → Type 0
Shows (err e) p = (p ≡ "starting") ⊎ (p ≡ "policy-check")
Shows (ok r) p = GoesWith r.status p

-- A status query gets the last phase, if the handler could be set, and else finds no handler.
abbrev pub Answers : (T : Engine) → Result (Unit {0}) → Run T → Type 0
Answers T (ok _) w = query T "canary-status" w ≡ some (ok (last_phase w.phases))
Answers T (err _) w = query T "canary-status" w ≡ none

value_of-last_phase : (phases : List String) → value_of phases ≡ last_phase phases
value_of-last_phase [] = refl
value_of-last_phase (p ∷ []) = refl
value_of-last_phase (p ∷ q ∷ ps) = value_of-last_phase (q ∷ ps)

module _ (T : Engine) (input : CanaryInput) where
  abbrev status_handler : Handler
  status_handler = record { name = canary_status_query; answer = status_answer }

  listening-Answers :
      (r : Result (Unit {0})) (w : Run T)
      → w.handlers ≡ listening r status_handler []
      → Answers T r w
  listening-Answers (ok _) w h =
      ap (λ hs. answered canary_status_query hs w.phases) h
      ∙ ap (λ p. some (ok p)) (value_of-last_phase w.phases)
  listening-Answers (err e) w h = ap (λ hs. answered canary_status_query hs w.phases) h

  leave-InOrder : (why : Leave T input) → InOrder input (leave_phases T input why)
  leave-InOrder (by_release auto) =
      (refl, (checks, (scales, (bakes, (shifts, (released auto, tt))))))
  leave-InOrder (by_signal s signal human heard yes_said) =
      (refl, (checks, (scales, (bakes, (shifts, (awaits human, (approved, tt)))))))

  rolled_out-InOrder :
      (why : Leave T input) → InOrder input (leave_phases T input why ++ ("promoted" ∷ []))
  rolled_out-InOrder (by_release auto) =
      (refl, (checks, (scales, (bakes, (shifts, (released auto, (promotes, tt)))))))
  rolled_out-InOrder (by_signal s signal human heard yes_said) =
      (refl, (checks, (scales, (bakes, (shifts, (awaits human, (approved, (promotes, tt))))))))

  phases-InOrder : (course : Course T input) → InOrder input (phases_of T input course)
  phases-InOrder (no_query _ _ _) = (refl, tt)
  phases-InOrder (no_policy _ _) = (refl, (checks, tt))
  phases-InOrder (denied _ _ _) = (refl, (checks, (rejects, tt)))
  phases-InOrder (not_scaled _ _) = (refl, (checks, (scales, tt)))
  phases-InOrder (not_baked _ _) = (refl, (checks, (scales, (bakes, tt))))
  phases-InOrder (unhealthy _ _ _) = (refl, (checks, (scales, (bakes, tt))))
  phases-InOrder (not_shifted _ _) = (refl, (checks, (scales, (bakes, (shifts, tt)))))
  phases-InOrder (expired _ _ human _ _) =
      (refl, (checks, (scales, (bakes, (shifts, (awaits human, tt))))))
  phases-InOrder (refused _ _ human _ _ _) =
      (refl, (checks, (scales, (bakes, (shifts, (awaits human, tt))))))
  phases-InOrder (not_promoted why _ _ _) = leave-InOrder why
  phases-InOrder (rolled_out why _ _) = rolled_out-InOrder why

  course-Shows :
      (course : Course T input)
      → Shows (result_of T input course) (last_phase (phases_of T input course))
  course-Shows (no_query _ _ _) = inl refl
  course-Shows (no_policy _ _) = inr refl
  course-Shows (denied _ _ _) = refl
  course-Shows (not_scaled _ _) = in_scale
  course-Shows (not_baked _ _) = in_bake
  course-Shows (unhealthy _ _ _) = in_bake
  course-Shows (not_shifted _ _) = in_shift
  course-Shows (expired _ _ _ _ _) = refl
  course-Shows (refused _ _ _ _ _ _) = in_gate
  course-Shows (not_promoted (by_release _) _ _ _) = in_rollout
  course-Shows (not_promoted (by_signal _ _ _ _ _) _ _ _) = in_rollout
  course-Shows (rolled_out (by_release _) _ _) = refl
  course-Shows (rolled_out (by_signal _ _ _ _ _) _ _) = refl

  -- In every run of a deploy, whatever the engine answers, the phases that the status query shows
  -- begin with `starting`, and each follows on the one before it: the full rollout comes after the
  -- gate, or straight after the traffic shift if and only if the release approves it. The last one
  -- goes with the result: `promoted` exactly for a promoted deploy, `policy-rejected` exactly for a
  -- rejected one, `awaiting-approval` for one that timed out, the stage that failed or the gate for
  -- one that was rolled back, and one of the first two phases for a deploy that ends with an error.
  -- If the handler of the status query could be set, the query answers that last phase at the end,
  -- and else no handler is set.
  pub canary_deploy-Shows :
      (e : T.State)
      → InOrder input (canary_deploy T input (fresh T input e)).1.phases
        × Shows
            (canary_deploy T input (fresh T input e)).0
            (last_phase (canary_deploy T input (fresh T input e)).1.phases)
        × Answers T
            (T.set_query_handler canary_status_query e).0
            (canary_deploy T input (fresh T input e)).1
  canary_deploy-Shows e =
      let (course, took) = canary_deploy-Takes T input e in
      (
        subst (InOrder input) (sym took.phases) (phases-InOrder course),
        subst (λ ps. Shows (canary_deploy T input (fresh T input e)).0 (last_phase ps))
            (sym took.phases)
            (subst (λ r. Shows r (last_phase (phases_of T input course))) (sym took.returns)
              (course-Shows course)),
        listening-Answers (T.set_query_handler canary_status_query e).0 _
            (canary_deploy-handlers T input (fresh T input e)),
      )
