-- ===== src/Workflows/Engine.antt =====
-- Temporal as the workflows use it, which is not part of the repository: an interface over an
-- unknown state, and what a workflow keeps of its own run.
use temporalops.Base.{
  String, Bool, true, false, Option, none, some, str_eq, if◌then◌else◌, List, [], ◌∷◌, ◌++◌, Error,
  Result, ok, err, Exec, modify,
}
use temporalops.Activities.Policy.{PolicyInput, PolicyResult}
use temporalops.Activities.Scale.{ScaleInput, ScaleResult}
use temporalops.Activities.Health.{HealthInput, HealthResult}
use temporalops.Activities.Traffic.{TrafficInput}
use temporalops.Activities.Promote.{PromoteInput}
use temporalops.Activities.Notify.{AlertInput}
use temporalops.Audit.Interceptor.{ApprovalAudit}
use temporalops.Workflows.Options.{Duration, ActivityOptions}

-- The activity and its input, of `workflow.ExecuteActivity`.
pub data Call : Type 0 where
  policy_check : PolicyInput → Call
  scale_canary : ScaleInput → Call
  scale_down_canary : ScaleInput → Call
  health_check : HealthInput → Call
  shift_traffic : TrafficInput → Call
  shift_traffic_back : TrafficInput → Call
  promote : PromoteInput → Call
  alert : AlertInput → Call
  record_approval : ApprovalAudit → Call
  greet : String → Call

abbrev pub Reply : Call → Type 0
Reply (policy_check _) = PolicyResult
Reply (scale_canary _) = ScaleResult
Reply (health_check _) = HealthResult
Reply (greet _) = String
Reply _ = Unit

-- The workflow's own context, or one that its cancellation does not reach.
pub data Scope : Type 0 where
  attached disconnected : Scope

pub record ApprovalSignal : Type 0 where
  pub approve : Bool
  pub actor : String

-- The case of the selector that is ready first: a signal, or the timer's future, which may hold an
-- error (a cancelled workflow cancels its timer).
pub data Ready : Type 0 where
  received : ApprovalSignal → Ready
  timer_done : Option Error → Ready

pub record Engine : Type 1 where
  pub State : Type 0
  -- `workflow.SetQueryHandler`
  pub set_query_handler : String → Exec State (Unit {0})
  -- `workflow.ExecuteActivity(…).Get(…)`, retries included
  pub execute : Scope → ActivityOptions → (c : Call) → Exec State (Reply c)
  -- The selector over the channel of the signal of this name and a timer.
  pub select : String → Duration → State → Ready × State

-- An activity that was asked for, and whether it came back without an error.
pub record Step : Type 0 where
  pub scope : Scope
  pub options : ActivityOptions
  pub call : Call
  pub succeeded : Bool

-- A query handler: a closure over the variable `phase`. It gets the values that the variable has had
-- by the time of the query, oldest first.
pub record Handler : Type 0 where
  pub name : String
  pub answer : List String → Result String

-- What a run of a workflow keeps: the engine, the values that the variable `phase` has had, oldest
-- first, the query handlers that are set, the newest first, and the activities that it has
-- asked for, oldest first.
pub record Run (T : Engine) : Type 0 where
  pub engine : T.State
  pub phases : List String
  pub handlers : List Handler
  pub steps : List Step

abbrev pub is_ok : {A : Type 0} → Result A → Bool
is_ok (ok _) = true
is_ok (err _) = false

abbrev pub step_of : {A : Type 0} → Scope → ActivityOptions → Call → Result A → Step
step_of scope options call r = record {
  scope = scope;
  options = options;
  call = call;
  succeeded = is_ok r;
}

-- The value of a variable that has been set to these, the last of them.
abbrev pub value_of : List String → String
value_of [] = ""
value_of (p ∷ []) = p
value_of (p ∷ q ∷ ps) = value_of (q ∷ ps)

-- A handler is set if its registration comes back without an error.
abbrev pub listening : Result (Unit {0}) → Handler → List Handler → List Handler
listening (ok _) h hs = h ∷ hs
listening (err _) h hs = hs

-- What a query of this name gets from the handlers.
abbrev pub answered : String → List Handler → List String → Option (Result String)
answered name [] phases = none
answered name (h ∷ hs) phases =
    if str_eq h.name name then some (h.answer phases) else answered name hs phases

module _ (T : Engine) where
  abbrev pub Flow : Type 0 → Type 0
  Flow A = Exec (Run T) A

  unfoldable pub execute : Scope → ActivityOptions → (c : Call) → Flow (Reply c)
  execute scope options call s =
      let (r, e) = T.execute scope options call s.engine in
      (r, record s { engine = e; steps = s.steps ++ (step_of scope options call r ∷ []) })

  abbrev pub set_phase : String → Flow (Unit {0})
  set_phase phase = modify (λ s. record s { phases = s.phases ++ (phase ∷ []) })

  unfoldable pub set_query_handler : String → (List String → Result String) → Flow (Unit {0})
  set_query_handler name answer s =
      let (r, e) = T.set_query_handler name s.engine in
      (
        r,
        record s {
          engine = e;
          handlers = listening r (record { name = name; answer = answer }) s.handlers;
        },
      )

  -- A query of the run, as it is now.
  abbrev pub query : String → Run T → Option (Result String)
  query name s = answered name s.handlers s.phases
