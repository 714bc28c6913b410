-- ===== src/Workflows/Canary/Ending.antt =====
-- How a deploy may end, what holds between two of its stages, and the rules by which the stages
-- keep it.
use mathlib.Core.List.{append_assoc, map-append}
use temporalops.Base.{
  String, ◌≡◌, refl, sym, ap, ◌∙◌, subst, Bool, true, false, List, [], ◌∷◌, ◌++◌, Result, Error, ok,
  err, All, pure, ◌>>◌, continue, if◌then◌else◌, not,
}
use temporalops.Workflows.Options.{ActivityOptions, alert_opts}
use temporalops.Workflows.Engine.{
  Engine, Run, Flow, Scope, attached, disconnected, Call, Step, step_of, execute, received,
  ApprovalSignal,
}
use temporalops.Workflows.Saga.{Saga, register}
use temporalops.Workflows.Canary.{
  CanaryInput, CanaryResult, CanaryStatus, unset, promoted, rolled_back, timed_out, policy_rejected,
  approve_promote_signal, alert, unwind,
}
use temporalops.Workflows.Canary.History.{
  calls, inverse, inverse_if, owed, owed-snoc, promote_call, is_promote, promotes, promotes-snoc,
  IsForward, IsDetached, alert_call, All-append, Undoes, Asks, register-Undoes,
}

-- The last step forward is the full rollout, and it succeeded.
abbrev pub RolledOut : CanaryInput → List Step → Type 0
RolledOut input fwd =
    (before : List Step) × (last : Step) × (fwd ≡ before ++ (last ∷ []))
    × (last.call ≡ promote_call input)
    × (last.succeeded ≡ true)

-- What the steps forward and the steps back are, for each status of the result.
abbrev pub FinishAs : CanaryInput → CanaryStatus → CanaryResult → List Step → List Step → Type 0
FinishAs input unset r fwd back = ⊥
FinishAs input promoted r fwd back = RolledOut input fwd × (back ≡ [])
FinishAs input policy_rejected r fwd back = (owed fwd ≡ []) × (calls back ≡ alert_call r ∷ [])
FinishAs input rolled_back r fwd back = calls back ≡ owed fwd ++ (alert_call r ∷ [])
FinishAs input timed_out r fwd back = calls back ≡ owed fwd ++ (alert_call r ∷ [])

abbrev pub Finish : CanaryInput → Result CanaryResult → List Step → List Step → Type 0
Finish input (err e) fwd back = (owed fwd ≡ []) × (back ≡ [])
Finish input (ok r) fwd back = FinishAs input r.status r fwd back

module _ (T : Engine) (input : CanaryInput) where
  -- Who allowed the full rollout: the release, or a signal that the gate received.
  pub data Authorised : String → Type 0 where
    by_release : input.auto_promote ≡ true → Authorised "auto-release"
    by_signal :
        (e : T.State) (signal : ApprovalSignal)
        → input.auto_promote ≡ false
        → (T.select approve_promote_signal input.approval_timeout e).0 ≡ received signal
        → signal.approve ≡ true
        → Authorised signal.actor

  -- A rollout that was asked for was allowed, by the actor that the result names.
  abbrev pub Allowed : Result CanaryResult → List Step → Type 0
  Allowed (err e) fwd = promotes fwd ≡ false
  Allowed (ok r) fwd = promotes fwd ≡ true → Authorised r.actor

  pub record Ends (out : Result CanaryResult × Run T) : Type 0 where
    pub fwd : List Step
    pub back : List Step
    pub splits : out.1.steps ≡ fwd ++ back
    pub forward : All IsForward fwd
    pub detached : All IsDetached back
    pub finish : Finish input out.0 fwd back
    pub allowed : Allowed out.0 fwd

  -- The steps so far went forward, and the saga knows what they owe.
  pub record Owing (saga : Saga T) (steps : List Step) : Type 0 where
    pub forward : All IsForward steps
    pub owes : (t : Run T) → Undoes T saga (owed steps) t

  -- What holds before the last stage: the rollout has not been asked for either.
  pub record Standing (saga : Saga T) (steps : List Step) : Type 0 where
    pub owing : Owing saga steps
    pub quiet : promotes steps ≡ false

  -- A step with nothing to undo.
  pub owe_same :
      (saga : Saga T) (steps : List Step) (s : Step)
      → IsForward s
      → inverse_if s.succeeded s.call ≡ []
      → Owing saga steps
      → Owing saga (steps ++ (s ∷ []))
  owe_same saga steps s f none_owed h = record {
    forward = All-append IsForward steps (s ∷ []) h.forward (f, tt);
    owes = λ t.
        subst (λ cs. Undoes T saga cs t)
          (sym (owed-snoc steps s ∙ ap (λ xs. xs ++ owed steps) none_owed)) (h.owes t);
  }

  -- A step whose inverse is registered.
  owe_more :
      (saga : Saga T) (steps : List Step) (s : Step) (name : String)
      (fn : Scope → Flow T (Unit {0})) (options : ActivityOptions) (c : Call)
      → IsForward s
      → inverse_if s.succeeded s.call ≡ c ∷ []
      → Asks T options c fn
      → Owing saga steps
      → Owing (register T saga name fn) (steps ++ (s ∷ []))
  owe_more saga steps s name fn options c f one_owed asks h = record {
    forward = All-append IsForward steps (s ∷ []) h.forward (f, tt);
    owes = λ t.
        subst (λ cs. Undoes T (register T saga name fn) cs t)
          (sym (owed-snoc steps s ∙ ap (λ xs. xs ++ owed steps) one_owed))
          (register-Undoes T saga name fn options c (owed steps) asks h.owes t);
  }

  pub stand_register :
      (saga : Saga T) (steps : List Step) (s : Step) (name : String)
      (fn : Scope → Flow T (Unit {0})) (options : ActivityOptions) (c : Call)
      → IsForward s
      → inverse_if s.succeeded s.call ≡ c ∷ []
      → is_promote s.call ≡ false
      → Asks T options c fn
      → Standing saga steps
      → Standing (register T saga name fn) (steps ++ (s ∷ []))
  stand_register saga steps s name fn options c f one_owed other asks h = record {
    owing = owe_more saga steps s name fn options c f one_owed asks h.owing;
    quiet = promotes-snoc steps s h.quiet other;
  }

  -- A call with nothing to undo, whether or not it succeeds.
  pub owe_call :
      {A : Type 0} (saga : Saga T) (steps : List Step) (options : ActivityOptions) (c : Call)
      (r : Result A)
      → inverse c ≡ []
      → Owing saga steps
      → Owing saga (steps ++ (step_of attached options c r ∷ []))
  owe_call saga steps options c (ok a) e h = owe_same saga steps _ refl e h
  owe_call saga steps options c (err x) e h = owe_same saga steps _ refl refl h

  pub stand_call :
      {A : Type 0} (saga : Saga T) (steps : List Step) (options : ActivityOptions) (c : Call)
      (r : Result A)
      → inverse c ≡ []
      → is_promote c ≡ false
      → Standing saga steps
      → Standing saga (steps ++ (step_of attached options c r ∷ []))
  stand_call saga steps options c r e other h = record {
    owing = owe_call saga steps options c r e h.owing;
    quiet = promotes-snoc steps (step_of attached options c r) h.quiet other;
  }

  -- A call that fails leaves nothing to undo.
  pub failed_call :
      (A : Type 0) (saga : Saga T) (steps : List Step) (options : ActivityOptions) (c : Call)
      (e : Error)
      → is_promote c ≡ false
      → Standing saga steps
      → Standing saga (steps ++ (step_of {A = A} attached options c (err e) ∷ []))
  failed_call A saga steps options c e other h = record {
    owing = owe_same saga steps _ refl refl h.owing;
    quiet = promotes-snoc steps (step_of {A = A} attached options c (err e)) h.quiet other;
  }

  -- A rollback unwinds what is owed and raises the alert.
  pub unwind-Ends_of_Owing :
      (saga : Saga T) (res : CanaryResult) (status : CanaryStatus) (reason : String) (s : Run T)
      → ((r : CanaryResult) (fwd back : List Step)
          → calls back ≡ owed fwd ++ (alert_call r ∷ [])
          → FinishAs input status r fwd back)
      → (promotes s.steps ≡ true → Authorised res.actor)
      → Owing saga s.steps
      → Ends (unwind T saga res status reason s)
  unfolding unwind alert execute
  unwind-Ends_of_Owing saga res status reason s close why h =
      let u : Undoes T saga (owed s.steps) s = h.owes s in
      let r : CanaryResult = record res { status = status; reason = reason } in
      let raised : Step =
        step_of {A = Unit} disconnected alert_opts (alert_call r)
          (T.execute disconnected alert_opts (alert_call r) u.end.engine).0 in
      subst (λ out. Ends (continue (λ _. alert T r >> pure r) out)) (sym u.returns)
        (record {
          fwd = s.steps;
          back = u.back ++ (raised ∷ []);
          splits =
              ap (λ xs. xs ++ (raised ∷ [])) u.adds ∙ append_assoc s.steps u.back (raised ∷ []);
          forward = h.forward;
          detached = All-append IsDetached u.back (raised ∷ []) u.detached (refl, tt);
          finish = close r s.steps _ (
              map-append (λ (x : Step). x.call) u.back (raised ∷ [])
              ∙ ap (λ xs. xs ++ (alert_call r ∷ [])) u.asks);
          allowed = why;
        })

  pub unwind-Ends :
      (saga : Saga T) (res : CanaryResult) (status : CanaryStatus) (reason : String) (s : Run T)
      → ((r : CanaryResult) (fwd back : List Step)
          → calls back ≡ owed fwd ++ (alert_call r ∷ [])
          → FinishAs input status r fwd back)
      → Standing saga s.steps
      → Ends (unwind T saga res status reason s)
  unwind-Ends saga res status reason s close h =
      let quiet : promotes s.steps ≡ false = h.quiet in
      unwind-Ends_of_Owing saga res status reason s close (λ p. cc (quiet, p)) h.owing

  -- A branch may use its test.
  pub if-Ends :
      (b : Bool) (m n : Flow T CanaryResult) (s : Run T)
      → (b ≡ true → Ends (m s))
      → (b ≡ false → Ends (n s))
      → Ends ((if b then m else n) s)
  if-Ends true m n s h k = h refl
  if-Ends false m n s h k = k refl

pub not-false : (b : Bool) → not b ≡ false → b ≡ true
not-false true h = refl
not-false false h = cc
