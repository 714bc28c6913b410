-- ===== src/Workflows/Canary/Approval.antt =====
-- How a deploy ends from the approval gate on.
use mathlib.Core.List.{append-nil}
use temporalops.Base.{
  String, ◌≡◌, refl, sym, ◌∙◌, true, false, List, [], ◌∷◌, ◌++◌, Result, ok, err, ◌>>◌, not,
}
use temporalops.Workflows.Options.{promote_opts}
use temporalops.Workflows.Engine.{
  Engine, Run, Flow, attached, Step, step_of, execute, Ready, received, timer_done, ApprovalSignal,
}
use temporalops.Workflows.Saga.{Saga}
use temporalops.Workflows.Canary.{
  CanaryInput, CanaryResult, rolled_back, timed_out, record_approval, wait_for_approval, decide,
  approve_promote_signal, promotion, promote_stage, gate, gate_stage,
}
use temporalops.Workflows.Canary.History.{promote_call, All-append, IsForward}
use temporalops.Workflows.Canary.Ending.{
  Authorised, by_release, by_signal, Ends, Owing, Standing, owe_call, stand_call, not-false,
  unwind-Ends_of_Owing, unwind-Ends, if-Ends,
}

module _ (T : Engine) (input : CanaryInput) where
  promotion-Ends :
      (saga : Saga T) (res : CanaryResult) (steps : List Step) (s : Run T) (r : Result (Unit {0}))
      → Authorised T input res.actor
      → Owing T input saga steps
      → s.steps ≡ steps ++ (step_of attached promote_opts (promote_call input) r ∷ [])
      → Ends T input (promotion T input saga res r s)
  unfolding promotion
  promotion-Ends saga res steps s (err e) why h k =
      unwind-Ends_of_Owing T input saga res rolled_back _ s (λ _ _ _ c. c) (λ _. why)
        (rw k
          (owe_call T input {A = Unit} saga steps promote_opts (promote_call input) (err e) refl h))
  promotion-Ends saga res steps s (ok u) why h k =
      let last : Step = step_of attached promote_opts (promote_call input) (ok u) in
      record {
        fwd = steps ++ (last ∷ []);
        back = [];
        splits = k ∙ sym (append-nil _);
        forward = All-append IsForward steps (last ∷ []) h.forward (refl, tt);
        detached = tt;
        finish = ((steps, last, refl, refl, refl), refl);
        allowed = λ _. why;
      }

  promote_stage-Ends :
      (saga : Saga T) (res : CanaryResult) (s : Run T)
      → Authorised T input res.actor
      → Owing T input saga s.steps
      → Ends T input (promote_stage T input saga res s)
  unfolding promote_stage execute
  promote_stage-Ends saga res s why h =
      promotion-Ends saga res s.steps _
        (T.execute attached promote_opts (promote_call input) s.engine).0 why h refl

  -- The audit call changes what is standing as little as the wait does.
  record_approval-Ends :
      (saga : Saga T) (actor decision detail : String) (rest : Flow T CanaryResult) (s : Run T)
      → Standing T input saga s.steps
      → ((t : Run T) → Standing T input saga t.steps → Ends T input (rest t))
      → Ends T input ((record_approval T actor decision detail >> rest) s)
  unfolding record_approval execute
  record_approval-Ends saga actor decision detail rest s h k =
      k _ (stand_call T input saga s.steps _ _ _ refl refl h)

  -- What a decision that is no timeout and approves tells of the selector.
  decided :
      (ready : Ready)
      → (decide T ready).1 ≡ false
      → (decide T ready).0.approve ≡ true
      → ready ≡ received (decide T ready).0
  decided (received signal) h k = refl
  decided (timer_done o) h k = cc

  gate-Ends :
      (saga : Saga T) (res : CanaryResult) (e : T.State) (s : Run T)
      → input.auto_promote ≡ false
      → Standing T input saga s.steps
      → Ends T input (
          gate T input saga res
            (decide T (T.select approve_promote_signal input.approval_timeout e).0)
            s)
  unfolding gate
  gate-Ends saga res e s human h =
      let ready : Ready = (T.select approve_promote_signal input.approval_timeout e).0 in
      let signal : ApprovalSignal = (decide T ready).0 in
      if-Ends T input (decide T ready).1 _ _ s
        (λ _.
          record_approval-Ends saga _ _ _ _ s h
            λ t. unwind-Ends T input saga _ timed_out _ t (λ _ _ _ k. k))
        λ heard.
          if-Ends T input (not signal.approve) _ _ s
            (λ _.
              record_approval-Ends saga _ _ _ _ s h
                λ t. unwind-Ends T input saga _ rolled_back _ t (λ _ _ _ k. k))
            λ yes_said. record_approval-Ends saga _ _ _ _ s h λ t g.
              promote_stage-Ends saga (record res { actor = signal.actor }) t
                (by_signal e signal human (decided ready heard (not-false signal.approve yes_said))
                  (not-false signal.approve yes_said))
                g.owing

  pub gate_stage-Ends :
      (saga : Saga T) (res : CanaryResult) (s : Run T)
      → Standing T input saga s.steps
      → Ends T input (gate_stage T input saga res s)
  unfolding gate_stage wait_for_approval
  gate_stage-Ends saga res s h =
      if-Ends T input input.auto_promote _ _ s
        (λ auto. record_approval-Ends saga _ _ _ _ s h λ t g.
          promote_stage-Ends saga (record res { actor = "auto-release" }) t (by_release auto)
            g.owing)
        λ human. gate-Ends saga res s.engine _ human h
