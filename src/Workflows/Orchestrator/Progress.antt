-- ===== src/Workflows/Orchestrator/Progress.antt =====
-- A release whose deploys all work is promoted as a whole.
use temporalops.Base.{
  String, ◌≡◌, sym, ap, ◌∙◌, subst, inl, inr, true, List, [], ◌∷◌, All, Result, ok,
}
use temporalops.Workflows.Engine.{Engine}
use temporalops.Workflows.Canary.{CanaryInput, CanaryResult, promoted, canary_deploy}
use temporalops.Workflows.Canary.Balance.{fresh}
use temporalops.Workflows.Canary.Course.Outcomes.{
  IsSmooth, Decided, promoted_by, canary_deploy-Decided,
}
use temporalops.Workflows.Orchestrator.{
  ReleaseInput, Children, child_options, child_input, fan_out, outcome, release_orchestrator,
}
use temporalops.Workflows.Orchestrator.Outcomes.{
  answers, release_orchestrator-answers, release_orchestrator_reports,
}

abbrev WellDone : CanaryResult → Type 0
WellDone r = r.status ≡ promoted

Decided-promoted :
    (T : Engine) (svc : CanaryInput) (r : Result CanaryResult)
    → Decided T (child_input svc) r
    → r ≡ ok (promoted_by T (child_input svc) "auto-release")
Decided-promoted T svc r (inl (auto, e)) = e
Decided-promoted T svc r (inr (human, _)) = absurd (cc human)

module _ (T : Engine) (C : Children) where
  -- What is relied on in Temporal: a child that was started comes to its end, as the deploy with this
  -- input does in some state of the engine.
  pub record Completes : Type 1 where
    pub Of : C.Future → CanaryInput → Type 0
    pub start-Of :
        (release_id : String) (svc : CanaryInput) (s : C.State)
        → Of (C.start (child_options release_id svc) (child_input svc) s).0 (child_input svc)
    pub get_done :
        (f : C.Future) (svc : CanaryInput) (s : C.State)
        → Of f svc
        → (e : T.State) × ((C.get f s).0 ≡ (canary_deploy T svc (fresh T svc e)).0)

  module _ (H : Completes) where
    outcome-WellDone :
        (svc : CanaryInput) (f : C.Future) (s : C.State)
        → IsSmooth T (child_input svc)
        → H.Of f (child_input svc)
        → WellDone (outcome svc.service (C.get f s).0)
    outcome-WellDone svc f s smooth of =
        let (e, same) = H.get_done f (child_input svc) s of in
        ap (λ r. (outcome svc.service r).status)
          (same ∙ Decided-promoted T svc _ (canary_deploy-Decided T (child_input svc) e smooth))

    answers-WellDone :
        (release_id : String) (svcs : List CanaryInput) (s t : C.State)
        → All (λ svc. IsSmooth T (child_input svc)) svcs
        → All WellDone (answers C (fan_out C release_id svcs s).0 t)
    unfolding fan_out
    answers-WellDone release_id [] s t smooth = tt
    answers-WellDone release_id (svc ∷ svcs) s t smooth =
        let (future, s₁) = C.start (child_options release_id svc) (child_input svc) s in
        (
          outcome-WellDone svc future t smooth.0 (H.start-Of release_id svc s),
          answers-WellDone release_id svcs s₁ (C.get future t).1 smooth.1,
        )

    -- If each child completes as a canary deploy, and the activities of each deploy work, then the
    -- release completes with all of its services promoted.
    pub release_orchestrator_promotes :
        (input : ReleaseInput) (s : C.State)
        → All (λ svc. IsSmooth T (child_input svc)) input.services
        → (release_orchestrator C input s).0.all_promoted ≡ true
    release_orchestrator_promotes input s smooth =
        let same = release_orchestrator-answers C input s in
        let (_, _, _, _, _, all) = release_orchestrator_reports C input s in
        all.1 (
          subst (All WellDone) (sym same)
            (answers-WellDone input.release_id input.services s _ smooth))
