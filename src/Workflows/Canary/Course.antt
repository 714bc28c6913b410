-- ===== src/Workflows/Canary/Course.antt =====
-- The courses that a deploy may take, as a table: what the engine has answered, and for each course
-- the result, the phases, the steps forward and what is asked for behind them.
pub mod Gate
pub mod Stages
pub mod Outcomes
pub mod Attribution
pub mod Shown
use temporalops.Base.{
  pos, String, ◌<>◌, duration_text, ◌≡◌, Bool, true, false, Option, Error, Result, ok, err, List,
  [], ◌∷◌, ◌++◌, All,
}
use temporalops.Activities.Policy.{PolicyResult}
use temporalops.Activities.Health.{HealthResult}
use temporalops.Workflows.Options.{
  ActivityOptions, policy_opts, scale_opts, traffic_opts, promote_opts, health_opts, alert_opts,
}
use temporalops.Workflows.Engine.{
  Engine, Run, attached, Call, Reply, Step, ApprovalSignal, received, timer_done,
}
use temporalops.Workflows.Canary.{
  CanaryInput, CanaryResult, CanaryStatus, unset, promoted, rolled_back, timed_out, policy_rejected,
  approve_promote_signal, canary_status_query, no_approval, first_result,
}
use temporalops.Workflows.Canary.Phases
use temporalops.Workflows.Canary.History.{
  calls, IsDetached, bake_call, approval_call, down_call, back_call, policy_call, scale_call,
  shift_call, promote_call, alert_call,
}

abbrev pub forward_step : ActivityOptions → Call → Bool → Step
forward_step options c b = record { scope = attached; options = options; call = c; succeeded = b }

-- A result with this end.
abbrev pub ended : CanaryInput → CanaryStatus → String → String → CanaryResult
ended input status reason actor = record {
  service = input.service;
  status = status;
  reason = reason;
  actor = actor;
}

module _ (T : Engine) (input : CanaryInput) where
  -- The engine has given this answer to this call.
  pub record Said (options : ActivityOptions) (c : Call) (r : Result (Reply c)) : Type 0 where
    pub asked_at : T.State
    pub said : (T.execute attached options c asked_at).0 ≡ r

  -- Why the full rollout may be asked for.
  pub data Leave : Type 0 where
    by_release : input.auto_promote ≡ true → Leave
    by_signal :
        (e : T.State) (signal : ApprovalSignal)
        → input.auto_promote ≡ false
        → (T.select approve_promote_signal input.approval_timeout e).0 ≡ received signal
        → signal.approve ≡ true
        → Leave

  abbrev pub leave_actor : Leave → String
  leave_actor (by_release _) = "auto-release"
  leave_actor (by_signal _ signal _ _ _) = signal.actor

  abbrev pub leave_call : Leave → Call
  leave_call (by_release _) =
      approval_call "auto-release" "auto" "promoted via release orchestrator"
  leave_call (by_signal _ signal _ _ _) = approval_call signal.actor "approved" "promotion approved"

  -- The Boolean tells whether the approval was recorded without an error.
  pub data Course : Type 0 where
    no_query :
        (e : Error) (s : T.State) → (T.set_query_handler canary_status_query s).0 ≡ err e → Course
    no_policy : (e : Error) → Said policy_opts (policy_call input) (err e) → Course
    denied :
        (p : PolicyResult)
        → Said policy_opts (policy_call input) (ok p)
        → p.allowed ≡ false
        → Course
    not_scaled : (e : Error) → Said scale_opts (scale_call input) (err e) → Course
    not_baked :
        (e : Error) → Said (health_opts input.bake_seconds) (bake_call input) (err e) → Course
    unhealthy :
        (h : HealthResult)
        → Said (health_opts input.bake_seconds) (bake_call input) (ok h)
        → h.healthy ≡ false
        → Course
    not_shifted : (e : Error) → Said traffic_opts (shift_call input) (err e) → Course
    expired :
        (s : T.State) (e : Option Error)
        → input.auto_promote ≡ false
        → (T.select approve_promote_signal input.approval_timeout s).0 ≡ timer_done e
        → Bool
        → Course
    refused :
        (s : T.State) (signal : ApprovalSignal)
        → input.auto_promote ≡ false
        → (T.select approve_promote_signal input.approval_timeout s).0 ≡ received signal
        → signal.approve ≡ false
        → Bool
        → Course
    not_promoted :
        Leave → Bool → (e : Error) → Said promote_opts (promote_call input) (err e) → Course
    rolled_out : Leave → Bool → Said promote_opts (promote_call input) (ok tt) → Course

  abbrev pub result_of : Course → Result CanaryResult
  result_of (no_query e _ _) = err e
  result_of (no_policy e _) = err e
  result_of (denied p _ _) = ok (ended input policy_rejected p.reason "")
  result_of (not_scaled e _) = ok (ended input rolled_back ("scale canary failed: " <> e.text) "")
  result_of (not_baked e _) = ok (ended input rolled_back ("health check error: " <> e.text) "")
  result_of (unhealthy h _ _) = ok (ended input rolled_back ("canary unhealthy: " <> h.reason) "")
  result_of (not_shifted e _) = ok (ended input rolled_back ("shift traffic failed: " <> e.text) "")
  result_of (expired _ _ _ _ _) = ok (ended input timed_out (no_approval T input) "")
  result_of (refused _ signal _ _ _ _) =
      ok (ended input rolled_back ("promotion rejected by " <> signal.actor) signal.actor)
  result_of (not_promoted why _ e _) =
      ok (ended input rolled_back ("promote failed: " <> e.text) (leave_actor why))
  result_of (rolled_out why _ _) = ok (
      ended input promoted ("promoted to target replicas, approved by " <> leave_actor why)
        (leave_actor why))

  -- The phases up to the full rollout.
  abbrev pub leave_phases : Leave → List String
  leave_phases (by_release _) = Phases.to_shift ++ ("promote" ∷ [])
  leave_phases (by_signal _ _ _ _ _) = Phases.to_shift ++ ("awaiting-approval" ∷ "promote" ∷ [])

  -- The phases that the status query shows, oldest first.
  abbrev pub phases_of : Course → List String
  phases_of (no_query _ _ _) = "starting" ∷ []
  phases_of (no_policy _ _) = Phases.to_policy
  phases_of (denied _ _ _) = Phases.to_policy ++ ("policy-rejected" ∷ [])
  phases_of (not_scaled _ _) = Phases.to_scale
  phases_of (not_baked _ _) = Phases.to_bake
  phases_of (unhealthy _ _ _) = Phases.to_bake
  phases_of (not_shifted _ _) = Phases.to_shift
  phases_of (expired _ _ _ _ _) = Phases.to_shift ++ ("awaiting-approval" ∷ [])
  phases_of (refused _ _ _ _ _ _) = Phases.to_shift ++ ("awaiting-approval" ∷ [])
  phases_of (not_promoted why _ _ _) = leave_phases why
  phases_of (rolled_out why _ _) = leave_phases why ++ ("promoted" ∷ [])

  -- The first four steps, each with or without success.
  abbrev pub policy_step : Bool → Step
  policy_step b = forward_step policy_opts (policy_call input) b

  abbrev pub scale_step : Bool → Step
  scale_step b = forward_step scale_opts (scale_call input) b

  abbrev pub bake_step : Bool → Step
  bake_step b = forward_step (health_opts input.bake_seconds) (bake_call input) b

  abbrev pub shift_step : Bool → Step
  shift_step b = forward_step traffic_opts (shift_call input) b

  abbrev pub to_scale : List Step
  to_scale = policy_step true ∷ []

  abbrev pub to_bake : List Step
  to_bake = policy_step true ∷ scale_step true ∷ []

  abbrev pub to_shift : List Step
  to_shift = policy_step true ∷ scale_step true ∷ bake_step true ∷ []

  abbrev pub to_gate : List Step
  to_gate = policy_step true ∷ scale_step true ∷ bake_step true ∷ shift_step true ∷ []

  abbrev pub forward_of : Course → List Step
  forward_of (no_query _ _ _) = []
  forward_of (no_policy _ _) = policy_step false ∷ []
  forward_of (denied _ _ _) = to_scale
  forward_of (not_scaled _ _) = to_scale ++ (scale_step false ∷ [])
  forward_of (not_baked _ _) = to_bake ++ (bake_step false ∷ [])
  forward_of (unhealthy _ _ _) = to_shift
  forward_of (not_shifted _ _) = to_shift ++ (shift_step false ∷ [])
  forward_of (expired _ _ _ _ b) =
      to_gate ++ (forward_step alert_opts (approval_call "" "timeout" (no_approval T input)) b ∷ [])
  forward_of (refused _ signal _ _ _ b) =
      to_gate
      ++ (forward_step alert_opts (approval_call signal.actor "rejected" "promotion rejected") b
          ∷ [])
  forward_of (not_promoted why b _ _) =
      to_gate
      ++ (forward_step alert_opts (leave_call why) b
          ∷ forward_step promote_opts (promote_call input) false
          ∷ [])
  forward_of (rolled_out why b _) =
      to_gate
      ++ (forward_step alert_opts (leave_call why) b
          ∷ forward_step promote_opts (promote_call input) true
          ∷ [])

  -- The activities behind the last step forward, all on the disconnected context.
  abbrev pub undone_by : Course → List Call
  undone_by (no_query _ _ _) = []
  undone_by (no_policy _ _) = []
  undone_by (rolled_out _ _ _) = []
  undone_by (denied p _ _) = alert_call (ended input policy_rejected p.reason "") ∷ []
  undone_by (not_scaled e _) =
      alert_call (ended input rolled_back ("scale canary failed: " <> e.text) "") ∷ []
  undone_by (not_baked e _) =
      down_call input
      ∷ alert_call (ended input rolled_back ("health check error: " <> e.text) "")
      ∷ []
  undone_by (unhealthy h _ _) =
      down_call input
      ∷ alert_call (ended input rolled_back ("canary unhealthy: " <> h.reason) "")
      ∷ []
  undone_by (not_shifted e _) =
      down_call input
      ∷ alert_call (ended input rolled_back ("shift traffic failed: " <> e.text) "")
      ∷ []
  undone_by (expired _ _ _ _ _) =
      back_call input
      ∷ down_call input
      ∷ alert_call (ended input timed_out (no_approval T input) "")
      ∷ []
  undone_by (refused _ signal _ _ _ _) =
      back_call input
      ∷ down_call input
      ∷ alert_call (ended input rolled_back ("promotion rejected by " <> signal.actor) signal.actor)
      ∷ []
  undone_by (not_promoted why _ e _) =
      back_call input
      ∷ down_call input
      ∷ alert_call (ended input rolled_back ("promote failed: " <> e.text) (leave_actor why))
      ∷ []

  -- A run that took this course.
  pub record Took (course : Course) (out : Result CanaryResult × Run T) : Type 0 where
    pub back : List Step
    pub returns : out.0 ≡ result_of course
    pub phases : out.1.phases ≡ phases_of course
    pub splits : out.1.steps ≡ forward_of course ++ back
    pub asks : calls back ≡ undone_by course
    pub detached : All IsDetached back

  abbrev pub Takes : Result CanaryResult × Run T → Type 0
  Takes out = (course : Course) × Took course out
