-- ===== src/Workflows/Orchestrator/Outcomes.antt =====
-- The release reports every service: nothing is lost, and nothing is counted twice.
use mathlib.Core.List.{append-nil, append_assoc, Perm}
use mathlib.Core.Path.{subst₂}
use text.Mathlib.TextLemmas.{append_cancel_left}
use temporalops.Base.{
  suc, String, ◌<>◌, ◌≡◌, refl, sym, ap, ◌∙◌, ◌↔◌, true, false, List, [], ◌∷◌, ◌++◌, map, length,
  All, Result, ok, err, arith, subst,
}
use temporalops.Workflows.Canary.{CanaryInput, CanaryResult, promoted, rolled_back}
use temporalops.Workflows.Orchestrator.{
  ReleaseInput, ReleaseResult, Children, terminate, Pending, is_nil, child_id, child_options,
  child_input, fan_out, outcome, add_result, fan_in, release_orchestrator,
}
use temporalops.Workflows.Orchestrator.Tallies.{
  services_where, services_where-perm, Tallies, add_result-Tallies, AllPromoted, none_left,
}

add_result-results :
    (res : CanaryResult) (r : ReleaseResult) → (add_result res r).results ≡ r.results ++ (res ∷ [])
unfolding add_result
add_result-results res r = ground arith

module _ (C : Children) where
  -- What the children come back with, asked in order.
  abbrev pub answers : List (Pending C) → C.State → List CanaryResult
  answers [] s = []
  answers (p ∷ pending) s =
      let (got, s') = C.get p.future s in outcome p.service got ∷ answers pending s'

  fan_in-results :
      (pending : List (Pending C)) (r : ReleaseResult) (s : C.State)
      → (fan_in C pending r s).0.results ≡ r.results ++ answers pending s
  unfolding fan_in
  fan_in-results [] r s = sym (append-nil r.results)
  fan_in-results (p ∷ pending) r s =
      let (got, s') = C.get p.future s in
      fan_in-results pending (add_result (outcome p.service got) r) s'
      ∙ ap (λ xs. xs ++ answers pending s') (add_result-results (outcome p.service got) r)
      ∙ append_assoc r.results (outcome p.service got ∷ []) (answers pending s')

  fan_in-Tallies :
      (pending : List (Pending C)) (r : ReleaseResult) (s : C.State)
      → Tallies r
      → Tallies (fan_in C pending r s).0
  unfolding fan_in
  fan_in-Tallies [] r s t = t
  fan_in-Tallies (p ∷ pending) r s t =
      let (got, s') = C.get p.future s in
      fan_in-Tallies pending (add_result (outcome p.service got) r) s'
        (add_result-Tallies (outcome p.service got) r t)

  length-answers :
      (pending : List (Pending C)) (s : C.State) → length (answers pending s) ≡ length pending
  length-answers [] s = refl
  length-answers (p ∷ pending) s = ap suc (length-answers pending (C.get p.future s).1)

  length-fan_out :
      (id : String) (services : List CanaryInput) (s : C.State)
      → length (fan_out C id services s).0 ≡ length services
  unfolding fan_out
  length-fan_out id [] s = refl
  length-fan_out id (svc ∷ services) s =
      ap suc (length-fan_out id services (C.start (child_options id svc) (child_input svc) s).1)

  abbrev started : ReleaseInput → C.State → List (Pending C) × C.State
  started input s = fan_out C input.release_id input.services s

  -- What the children of a release are to be: one is started for each service, in the order of the
  -- services, under the release's id and the service's name, ended with its parent and never retried,
  -- and with the service's input but for the gate, which is left out.
  abbrev pub children : String → List CanaryInput → C.State → List C.Future × C.State
  children release_id [] s = ([], s)
  children release_id (svc ∷ services) s =
      let (future, s₁) =
        C.start
          (record {
            workflow_id = release_id <> ("-" <> svc.service);
            parent_close_policy = terminate;
            maximum_attempts = 1;
          })
          (record svc { auto_promote = true }) s in
      let (rest, s₂) = children release_id services s₁ in (future ∷ rest, s₂)

  -- What is to be reported of a service by what its child came to.
  abbrev pub reported : String → Result CanaryResult → CanaryResult
  reported service (ok res) = res
  reported service (err e) = record {
    service = service;
    status = rolled_back;
    reason = "child workflow error: " <> e.text;
    actor = "";
  }

  -- Each child is waited for, in the order of the services.
  abbrev pub waited : List CanaryInput → List C.Future → C.State → List CanaryResult
  waited (svc ∷ services) (future ∷ futures) s =
      let (got, s') = C.get future s in reported svc.service got ∷ waited services futures s'
  waited _ _ s = []

  -- The child of each service is pending under the service's name.
  abbrev pending_of : List CanaryInput → List C.Future → List (Pending C)
  pending_of (svc ∷ services) (future ∷ futures) =
      record { service = svc.service; future = future } ∷ pending_of services futures
  pending_of _ _ = []

  fan_out-children :
      (id : String) (services : List CanaryInput) (s : C.State)
      → let (futures, t) = children id services s in
        fan_out C id services s ≡ (pending_of services futures, t)
  unfolding fan_out child_options child_id
  fan_out-children id [] s = refl
  fan_out-children id (svc ∷ services) s =
      let out = C.start (child_options id svc) (child_input svc) s in
      ap (λ rest. (record { service = svc.service; future = out.0 } ∷ rest.0, rest.1))
        (fan_out-children id services out.1)

  outcome-reported :
      (service : String) (r : Result CanaryResult) → outcome service r ≡ reported service r
  outcome-reported service (ok res) = refl
  outcome-reported service (err e) = refl

  answers-waited :
      (services : List CanaryInput) (futures : List C.Future) (s : C.State)
      → answers (pending_of services futures) s ≡ waited services futures s
  answers-waited [] futures s = refl
  answers-waited (svc ∷ services) [] s = refl
  answers-waited (svc ∷ services) (future ∷ futures) s =
      let (got, s') = C.get future s in
      λ i. outcome-reported svc.service got i ∷ answers-waited services futures s' i

  abbrev first : ReleaseInput → ReleaseResult
  first input = record {
    release_id = input.release_id;
    results = [];
    promoted_services = [];
    not_promoted = [];
    all_promoted = false;
  }

  pub release_orchestrator-answers :
      (input : ReleaseInput) (s : C.State)
      → (release_orchestrator C input s).0.results ≡ answers (started input s).0 (started input s).1
  unfolding release_orchestrator
  release_orchestrator-answers input s =
      fan_in-results (started input s).0 (first input) (started input s).1

  -- A release ends with one result for each service, in the order of the services, whichever
  -- children fail: of children that are started and then waited for in this order, each without its
  -- own gate, a child's own result, or as rolled back where it fails. The promoted services
  -- and the others are those of these results, each in one of the two lists. All are promoted
  -- exactly if every result says so.
  pub release_orchestrator_reports :
      (input : ReleaseInput) (s : C.State)
      → let r = (release_orchestrator C input s).0 in
        let (futures, t) = children input.release_id input.services s in
        (r.results ≡ waited input.services futures t)
        × (length r.results ≡ length input.services)
        × (r.promoted_services ≡ services_where true r.results)
        × (r.not_promoted ≡ services_where false r.results)
        × Perm (r.promoted_services ++ r.not_promoted) (map (λ x. x.service) r.results)
        × ((r.all_promoted ≡ true) ↔ All (λ x. x.status ≡ promoted) r.results)
  unfolding release_orchestrator
  release_orchestrator_reports input s =
      let (futures, s₁) = started input s in
      let r : ReleaseResult = (fan_in C futures (first input) s₁).0 in
      let t : Tallies r =
        fan_in-Tallies futures (first input) s₁
          (record { promoted_tally = refl; other_tally = refl }) in
      let same : r.results ≡ answers futures s₁ = release_orchestrator-answers input s in
      (
        same
            ∙ ap (λ out. answers out.0 out.1) (fan_out-children input.release_id input.services s)
            ∙ answers-waited input.services _ _,
        ap length same
            ∙ length-answers futures s₁
            ∙ length-fan_out input.release_id input.services s,
        t.promoted_tally,
        t.other_tally,
        subst₂ (λ xs ys. Perm (xs ++ ys) (map (λ x. x.service) r.results)) (sym t.promoted_tally)
            (sym t.other_tally) (services_where-perm r.results),
        subst (λ xs. (is_nil xs ≡ true) ↔ AllPromoted r.results) (sym t.other_tally)
            (none_left r.results),
      )

-- The children of a release have different workflow ids if their services differ.
pub child_id_injective :
    (release_id a b : String) → child_id release_id a ≡ child_id release_id b → a ≡ b
unfolding child_id
child_id_injective release_id a b e =
    append_cancel_left "-" a b (append_cancel_left release_id ("-" <> a) ("-" <> b) e)
