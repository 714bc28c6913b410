-- ===== src/Workflows/Orchestrator.antt =====
-- internal/workflows/orchestrator.go: a release of several services, one child deploy for each.
pub mod Tallies
pub mod Outcomes
pub mod Deploys
pub mod Progress
use temporalops.Base.{
  ℕ, String, ◌<>◌, ◌==◌, Bool, true, false, List, [], ◌∷◌, ◌++◌, Result, ok, err, Exec, Error,
  length, if◌then◌else◌,
}
use temporalops.Workflows.Canary.{
  CanaryInput, CanaryStatus, CanaryResult, unset, promoted, rolled_back, timed_out, policy_rejected,
}

pub record ReleaseInput : Type 0 where
  pub release_id : String
  pub services : List CanaryInput

pub record ReleaseResult : Type 0 where
  pub release_id : String
  pub results : List CanaryResult
  pub promoted_services : List String
  pub not_promoted : List String
  pub all_promoted : Bool

pub data ParentClosePolicy : Type 0 where
  terminate abandon request_cancel : ParentClosePolicy

-- `workflow.ChildWorkflowOptions`, as far as it is set.
pub record ChildOptions : Type 0 where
  pub workflow_id : String
  pub parent_close_policy : ParentClosePolicy
  pub maximum_attempts : ℕ

-- Temporal's child workflows, over an unknown state.
pub record Children : Type 1 where
  pub State : Type 0
  pub Future : Type 0
  -- `workflow.ExecuteChildWorkflow` of `CanaryDeployWorkflow`
  pub start : ChildOptions → CanaryInput → State → Future × State
  -- `future.Get`
  pub get : Future → Exec State CanaryResult

abbrev pub is_promoted : CanaryStatus → Bool
is_promoted promoted = true
is_promoted _ = false

unfoldable pub child_id : String → String → String
child_id release_id service = release_id <> ("-" <> service)

unfoldable pub child_options : String → CanaryInput → ChildOptions
child_options release_id svc = record {
  workflow_id = child_id release_id svc.service;
  parent_close_policy = terminate;
  maximum_attempts = 1;
}

-- Orchestrated services skip the gate of their own.
abbrev pub child_input : CanaryInput → CanaryInput
child_input svc = record svc { auto_promote = true }

-- A child that fails outright counts as rolled back.
abbrev pub outcome : String → Result CanaryResult → CanaryResult
outcome service (ok res) = res
outcome service (err e) = record {
  service = service;
  status = rolled_back;
  reason = "child workflow error: " <> e.text;
  actor = "";
}

unfoldable pub add_result : CanaryResult → ReleaseResult → ReleaseResult
add_result res r =
    if is_promoted res.status
    then record r {
      results = r.results ++ (res ∷ []);
      promoted_services = r.promoted_services ++ (res.service ∷ []);
    }
    else record r {
      results = r.results ++ (res ∷ []);
      not_promoted = r.not_promoted ++ (res.service ∷ []);
    }

abbrev is_nil : List String → Bool
is_nil xs = length xs == 0

module _ (C : Children) where
  pub record Pending : Type 0 where
    pub service : String
    pub future : C.Future

  -- The first loop: every child is started.
  unfoldable pub fan_out : String → List CanaryInput → C.State → List Pending × C.State
  unfolding child_options
  fan_out release_id [] s = ([], s)
  fan_out release_id (svc ∷ services) s =
      let (future, s₁) = C.start (child_options release_id svc) (child_input svc) s in
      let (rest, s₂) = fan_out release_id services s₁ in
      (record { service = svc.service; future = future } ∷ rest, s₂)

  -- The second loop: every child is waited for.
  unfoldable pub fan_in : List Pending → ReleaseResult → C.State → ReleaseResult × C.State
  unfolding add_result
  fan_in [] r s = (r, s)
  fan_in (p ∷ pending) r s =
      let (got, s') = C.get p.future s in fan_in pending (add_result (outcome p.service got) r) s'

  unfoldable pub release_orchestrator : ReleaseInput → C.State → ReleaseResult × C.State
  unfolding fan_out fan_in
  release_orchestrator input s =
      let (futures, s₁) = fan_out input.release_id input.services s in
      let (r, s₂) =
        fan_in futures
          (record {
            release_id = input.release_id;
            results = [];
            promoted_services = [];
            not_promoted = [];
            all_promoted = false;
          })
          s₁ in
      (record r { all_promoted = is_nil r.not_promoted }, s₂)
