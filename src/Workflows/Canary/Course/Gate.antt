-- ===== src/Workflows/Canary/Course/Gate.antt =====
-- How a run unwinds, and the courses from the gate on.
use mathlib.Core.List.{append_assoc, append-nil, map-append}
use temporalops.Base.{
  String, ◌≡◌, refl, sym, ap, ◌∙◌, subst, Bool, true, false, List, [], ◌∷◌, ◌++◌, Result, ok, err,
  ◌>>◌, pure, continue, not, if◌then◌else◌,
}
use temporalops.Workflows.Options.{promote_opts, alert_opts}
use temporalops.Workflows.Engine.{
  Engine, Run, Flow, attached, disconnected, Call, Step, step_of, is_ok, execute, Ready, received,
  timer_done,
}
use temporalops.Workflows.Saga.{Saga}
use temporalops.Workflows.Canary.{
  CanaryInput, CanaryResult, CanaryStatus, unwind, alert, record_approval, wait_for_approval,
  decide, approve_promote_signal, promotion, promote_stage, gate, gate_stage, first_result,
}
use temporalops.Workflows.Canary.History.{Undoes, All-append, IsDetached, alert_call, promote_call}
use temporalops.Workflows.Canary.Phases
use temporalops.Workflows.Canary.Ending.{not-false}
use temporalops.Workflows.Canary.Course.{
  Said, Leave, by_release, by_signal, leave_actor, leave_call, leave_phases, Course, expired,
  refused, not_promoted, rolled_out, result_of, phases_of, forward_of, undone_by, Took, Takes,
  to_gate, forward_step,
}
use temporalops.Workflows.Canary.History.{approval_call, down_call, back_call}

not-true : (b : Bool) → not b ≡ true → b ≡ false
not-true true h = cc
not-true false h = refl

module _ (T : Engine) (input : CanaryInput) where
  -- A saga that asks for these calls, whenever it is unwound.
  abbrev pub Undoing : Saga T → List Call → Type 0
  Undoing saga cs = (t : Run T) → Undoes T saga cs t

  -- A run that unwinds takes the course that ends with this result.
  pub unwind-Took :
      (course : Course T input) (saga : Saga T) (cs : List Call) (res : CanaryResult)
      (status : CanaryStatus) (reason : String) (s : Run T)
      → Undoing saga cs
      → ok (record res { status = status; reason = reason }) ≡ result_of T input course
      → cs ++ (alert_call (record res { status = status; reason = reason }) ∷ [])
        ≡ undone_by T input course
      → s.phases ≡ phases_of T input course
      → s.steps ≡ forward_of T input course
      → Took T input course (unwind T saga res status reason s)
  unfolding unwind alert execute
  unwind-Took course saga cs res status reason s undoing result undone phases steps =
      let u : Undoes T saga cs s = undoing s in
      let r : CanaryResult = record res { status = status; reason = reason } in
      let raised : Step =
        step_of disconnected alert_opts (alert_call r)
          (T.execute disconnected alert_opts (alert_call r) u.end.engine).0 in
      subst (λ out. Took T input course (continue (λ _. alert T r >> pure r) out)) (sym u.returns)
        (record {
          back = u.back ++ (raised ∷ []);
          returns = result;
          phases = u.same_phases ∙ phases;
          splits =
              ap (λ xs. xs ++ (raised ∷ [])) u.adds
              ∙ append_assoc s.steps u.back (raised ∷ [])
              ∙ ap (λ xs. xs ++ (u.back ++ (raised ∷ []))) steps;
          asks =
              map-append (λ (x : Step). x.call) u.back (raised ∷ [])
              ∙ ap (λ xs. xs ++ (alert_call r ∷ [])) u.asks
              ∙ undone;
          detached = All-append IsDetached u.back (raised ∷ []) u.detached (refl, tt);
        })

  promotion-Takes :
      (saga : Saga T) (why : Leave T input) (b : Bool) (r : Result (Unit {0})) (s : Run T)
      → Undoing saga (back_call input ∷ down_call input ∷ [])
      → Said T input promote_opts (promote_call input) r
      → s.phases ≡ leave_phases T input why
      → s.steps
        ≡ to_gate T input
          ++ (forward_step alert_opts (leave_call T input why) b
              ∷ forward_step promote_opts (promote_call input) (is_ok r)
              ∷ [])
      → Takes T input (
          promotion T input saga
            (record (first_result T input) { actor = leave_actor T input why })
            r
            s)
  unfolding promotion
  promotion-Takes saga why b (err e) s h said phases steps = (
    not_promoted why b e said,
    unwind-Took (not_promoted why b e said) saga _ _ _ _ s h refl refl phases steps,
  )
  promotion-Takes saga why b (ok tt) s h said phases steps = (
    rolled_out why b said,
    record {
      back = [];
      returns = refl;
      phases = ap (λ ps. ps ++ ("promoted" ∷ [])) phases;
      splits = steps ∙ sym (append-nil _);
      asks = refl;
      detached = tt;
    },
  )

  -- One step more.
  pub steps-snoc :
      (s : Run T) (xs : List Step) (x : Step) → s.steps ≡ xs → s.steps ++ (x ∷ []) ≡ xs ++ (x ∷ [])
  steps-snoc s xs x h = ap (λ ys. ys ++ (x ∷ [])) h

  promote_stage-Takes :
      (saga : Saga T) (why : Leave T input) (b : Bool) (s : Run T)
      → Undoing saga (back_call input ∷ down_call input ∷ [])
      → s.phases ++ ("promote" ∷ []) ≡ leave_phases T input why
      → s.steps ≡ to_gate T input ++ (forward_step alert_opts (leave_call T input why) b ∷ [])
      → Takes T input (
          promote_stage T input saga
            (record (first_result T input) { actor = leave_actor T input why })
            s)
  unfolding promote_stage execute
  promote_stage-Takes saga why b s h phases steps =
      promotion-Takes saga why b _ _ h (record { asked_at = s.engine; said = refl }) phases
        (steps-snoc s _ _ steps)

  -- Whether or not it succeeds, the approval record is one step more.
  record_approval-Takes :
      (actor decision detail : String) (rest : Flow T CanaryResult) (s : Run T)
      → s.steps ≡ to_gate T input
      → ((t : Run T) (b : Bool)
          → t.phases ≡ s.phases
          → t.steps
            ≡ to_gate T input
              ++ (forward_step alert_opts (approval_call actor decision detail) b ∷ [])
          → Takes T input (rest t))
      → Takes T input ((record_approval T actor decision detail >> rest) s)
  unfolding record_approval execute
  record_approval-Takes actor decision detail rest s steps k =
      k _ (is_ok (T.execute attached alert_opts (approval_call actor decision detail) s.engine).0)
        refl (steps-snoc s _ _ steps)

  pub if-Takes :
      (b : Bool) (m n : Flow T CanaryResult) (s : Run T)
      → (b ≡ true → Takes T input (m s))
      → (b ≡ false → Takes T input (n s))
      → Takes T input ((if b then m else n) s)
  if-Takes true m n s h k = h refl
  if-Takes false m n s h k = k refl

  gate-Takes :
      (saga : Saga T) (e : T.State) (ready : Ready) (s : Run T)
      → Undoing saga (back_call input ∷ down_call input ∷ [])
      → input.auto_promote ≡ false
      → (T.select approve_promote_signal input.approval_timeout e).0 ≡ ready
      → s.phases ≡ Phases.to_shift ++ ("awaiting-approval" ∷ [])
      → s.steps ≡ to_gate T input
      → Takes T input (gate T input saga (first_result T input) (decide T ready) s)
  unfolding gate
  gate-Takes saga e (timer_done o) s h human chosen phases steps =
      record_approval-Takes _ _ _ _ s steps λ t b same steps'.
        let course : Course T input = expired e o human chosen b in
        (course, unwind-Took course saga _ _ _ _ t h refl refl (same ∙ phases) steps')
  gate-Takes saga e (received signal) s h human chosen phases steps =
      if-Takes (not signal.approve) _ _ s
        (λ said. record_approval-Takes _ _ _ _ s steps λ t b same steps'.
          let course : Course T input =
            refused e signal human chosen (not-true signal.approve said) b in
          (course, unwind-Took course saga _ _ _ _ t h refl refl (same ∙ phases) steps'))
        λ said. record_approval-Takes _ _ _ _ s steps λ t b same steps'.
          promote_stage-Takes saga (by_signal e signal human chosen (not-false signal.approve said))
            b t h (ap (λ ps. ps ++ ("promote" ∷ [])) (same ∙ phases)) steps'

  pub gate_stage-Takes :
      (saga : Saga T) (s : Run T)
      → Undoing saga (back_call input ∷ down_call input ∷ [])
      → s.phases ≡ Phases.to_shift
      → s.steps ≡ to_gate T input
      → Takes T input (gate_stage T input saga (first_result T input) s)
  unfolding gate_stage wait_for_approval
  gate_stage-Takes saga s h phases steps =
      if-Takes input.auto_promote _ _ s
        (λ auto. record_approval-Takes _ _ _ _ s steps λ t b same steps'.
          promote_stage-Takes saga (by_release auto) b t h
            (ap (λ ps. ps ++ ("promote" ∷ [])) (same ∙ phases)) steps')
        λ human.
          gate-Takes saga s.engine _ _ h human refl
            (ap (λ ps. ps ++ ("awaiting-approval" ∷ [])) phases) steps
