-- ===== src/Workflows/Orchestrator/Deploys.antt =====
-- A release whose children are canary deploys: what the two workflows promise together.
use temporalops.Base.{String, ◌≡◌, ◌≢◌, refl, sym, ◌∙◌, subst, true, List, [], ◌∷◌, Result, ok, err}
use temporalops.Workflows.Engine.{Engine}
use temporalops.Workflows.Canary.{
  CanaryInput, CanaryResult, promoted, rolled_back, timed_out, policy_rejected, canary_deploy,
}
use temporalops.Workflows.Canary.Balance.{fresh}
use temporalops.Workflows.Canary.Course.{
  Course, no_query, no_policy, denied, not_scaled, not_baked, unhealthy, not_shifted, expired,
  refused, not_promoted, rolled_out, by_release, by_signal, result_of, ended,
}
use temporalops.Workflows.Canary.Course.Stages.{canary_deploy-Takes}
use temporalops.Workflows.Orchestrator.{
  ReleaseInput, Children, child_options, child_input, fan_out, outcome, release_orchestrator,
}
use temporalops.Workflows.Orchestrator.Outcomes.{answers, release_orchestrator-answers}

-- The result of one service in a release, where nobody is asked.
pub record IsUnattended (svc : CanaryInput) (r : CanaryResult) : Type 0 where
  pub same_service : r.service ≡ svc.service
  pub never_expires : r.status ≢ timed_out
  pub by_the_release : r.status ≡ promoted → r.actor ≡ "auto-release"

-- One result for each service, in order.
abbrev pub EachUnattended : List CanaryInput → List CanaryResult → Type 0
EachUnattended [] [] = Unit {0}
EachUnattended (svc ∷ svcs) (r ∷ rs) = IsUnattended svc r × EachUnattended svcs rs
EachUnattended _ _ = ⊥

abbrev WhereOk : CanaryInput → Result CanaryResult → Type 0
WhereOk svc (ok r) = IsUnattended svc r
WhereOk svc (err e) = Unit {0}

rolled_back-IsUnattended :
    (svc : CanaryInput) (reason actor : String)
    → IsUnattended svc (ended svc rolled_back reason actor)
rolled_back-IsUnattended svc reason actor = record {
  same_service = refl;
  never_expires = λ e. cc e;
  by_the_release = λ e. cc e;
}

rejected-IsUnattended :
    (svc : CanaryInput) (reason actor : String)
    → IsUnattended svc (ended svc policy_rejected reason actor)
rejected-IsUnattended svc reason actor = record {
  same_service = refl;
  never_expires = λ e. cc e;
  by_the_release = λ e. cc e;
}

module _ (T : Engine) where
  course-WhereOk :
      (svc : CanaryInput) (course : Course T svc)
      → svc.auto_promote ≡ true
      → WhereOk svc (result_of T svc course)
  course-WhereOk svc (no_query _ _ _) auto = tt
  course-WhereOk svc (no_policy _ _) auto = tt
  course-WhereOk svc (denied _ _ _) auto = rejected-IsUnattended svc _ _
  course-WhereOk svc (not_scaled _ _) auto = rolled_back-IsUnattended svc _ _
  course-WhereOk svc (not_baked _ _) auto = rolled_back-IsUnattended svc _ _
  course-WhereOk svc (unhealthy _ _ _) auto = rolled_back-IsUnattended svc _ _
  course-WhereOk svc (not_shifted _ _) auto = rolled_back-IsUnattended svc _ _
  course-WhereOk svc (expired _ _ human _ _) auto = absurd (cc (auto, human))
  course-WhereOk svc (refused _ _ _ _ _ _) auto = rolled_back-IsUnattended svc _ _
  course-WhereOk svc (not_promoted _ _ _ _) auto = rolled_back-IsUnattended svc _ _
  course-WhereOk svc (rolled_out (by_release _) _ _) auto = record {
    same_service = refl;
    never_expires = λ e. cc e;
    by_the_release = λ _. refl;
  }
  course-WhereOk svc (rolled_out (by_signal _ _ human _ _) _ _) auto = absurd (cc (auto, human))

  -- The result of a deploy with this input, in some state of the engine.
  abbrev pub IsOfDeploy : CanaryInput → Result CanaryResult → Type 0
  IsOfDeploy svc (ok r) = (e : T.State) × ((canary_deploy T svc (fresh T svc e)).0 ≡ ok r)
  IsOfDeploy svc (err e) = Unit {0}

  outcome-IsUnattended :
      (svc : CanaryInput) (r : Result CanaryResult)
      → IsOfDeploy (child_input svc) r
      → IsUnattended svc (outcome svc.service r)
  outcome-IsUnattended svc (err x) h = record {
    same_service = refl;
    never_expires = λ e. cc e;
    by_the_release = λ e. cc e;
  }
  outcome-IsUnattended svc (ok r) (e, done) =
      let (course, took) = canary_deploy-Takes T (child_input svc) e in
      let u : IsUnattended (child_input svc) r =
        subst (WhereOk (child_input svc)) (sym took.returns ∙ done)
          (course-WhereOk (child_input svc) course refl) in
      record {
        same_service = u.same_service;
        never_expires = u.never_expires;
        by_the_release = u.by_the_release;
      }

  module _ (C : Children) where
    -- What is relied on in Temporal: a child's future belongs to the input that it was started with,
    -- and where it holds a result, it is that of the deploy with this input.
    pub record RunsDeploys : Type 1 where
      pub Of : C.Future → CanaryInput → Type 0
      pub start-Of :
          (release_id : String) (svc : CanaryInput) (s : C.State)
          → Of (C.start (child_options release_id svc) (child_input svc) s).0 (child_input svc)
      pub get-IsOfDeploy :
          (f : C.Future) (svc : CanaryInput) (s : C.State) → Of f svc → IsOfDeploy svc (C.get f s).0

    module _ (H : RunsDeploys) where
      answers-EachUnattended :
          (release_id : String) (svcs : List CanaryInput) (s t : C.State)
          → EachUnattended svcs (answers C (fan_out C release_id svcs s).0 t)
      unfolding fan_out
      answers-EachUnattended release_id [] s t = tt
      answers-EachUnattended release_id (svc ∷ svcs) s t =
          let (future, s₁) = C.start (child_options release_id svc) (child_input svc) s in
          let (got, t₁) = C.get future t in
          (
            outcome-IsUnattended svc got
                (H.get-IsOfDeploy future (child_input svc) t (H.start-Of release_id svc s)),
            answers-EachUnattended release_id svcs s₁ t₁,
          )

      -- If the children of a release are canary deploys, the release reports for each service, in
      -- order, a result of this service that has not timed out, and that is by the release itself
      -- where it is promoted: nobody is waited for.
      pub release_orchestrator-EachUnattended :
          (input : ReleaseInput) (s : C.State)
          → EachUnattended input.services (release_orchestrator C input s).0.results
      release_orchestrator-EachUnattended input s =
          subst (EachUnattended input.services) (sym (release_orchestrator-answers C input s))
            (answers-EachUnattended input.release_id input.services s _)
