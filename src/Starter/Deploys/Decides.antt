-- ===== src/Starter/Deploys/Decides.antt =====
-- From the command line to the end of a deploy: what `starter approve` sends is what the gate decides
-- by.
use temporalops.Base.{
  String, ◌≡◌, sym, ap, ◌∙◌, subst, inl, inr, Bool, false, List, [], ◌∷◌, ◌++◌, Option, Error,
  Result, ok, err,
}
use temporalops.Audit.{Sqlite}
use temporalops.Workflows.Options.{Duration}
use temporalops.Workflows.Engine.{Engine, ApprovalSignal, Ready, received, timer_done}
use temporalops.Workflows.Canary.{CanaryInput, CanaryResult, approve_promote_signal, canary_deploy}
use temporalops.Workflows.Canary.Balance.{fresh}
use temporalops.Workflows.Canary.Course.Outcomes.{IsSmooth, Decided, verdict, canary_deploy-Decided}
use temporalops.Starter.Flags.{parse, parsed}
use temporalops.Starter.Program.{Server, Surroundings, Outcome, returned, Shell}
use temporalops.Starter.Deploys.{approve_flags, run_approve, decision}
use temporalops.Starter.Deploys.Effects.{EndsWith, run_approve-Approves}

-- The first signal, the given one being the last.
abbrev pub first : List ApprovalSignal → ApprovalSignal → ApprovalSignal
first [] signal = signal
first (s ∷ _) signal = s

-- The selector takes the signal that came first, and waits for its timer if there is none.
abbrev pub TakesFirst : List ApprovalSignal → Ready → Type 0
TakesFirst [] r = (o : Option Error) × (r ≡ timer_done o)
TakesFirst (s ∷ _) r = r ≡ received s

TakesFirst-first :
    (before : List ApprovalSignal) (signal : ApprovalSignal) (r : Ready)
    → TakesFirst (before ++ (signal ∷ [])) r
    → r ≡ received (first before signal)
TakesFirst-first [] signal r h = h
TakesFirst-first (s ∷ before) signal r h = h

module _ (V : Server) (S : Sqlite) (H : Surroundings) (c : V.Client) (T : Engine) (id : String)
    (sent : V.State → List ApprovalSignal) where
  -- What is relied on in Temporal: a signal that the server takes for the workflow comes behind the
  -- earlier ones, and the gate, which waits when the server is in state `s`, gets them in order.
  pub record IsPost (s : V.State) : Type 0 where
    pub signal-Sent :
        (signal : ApprovalSignal) (t u : V.State)
        → V.signal_workflow c id "" approve_promote_signal signal t ≡ (ok tt, u)
        → sent u ≡ sent t ++ (signal ∷ [])
    pub select-TakesFirst :
        (d : Duration) (e : T.State) → TakesFirst (sent s) (T.select approve_promote_signal d e).0

  taken :
      (out : Result (Unit {0}) × V.State) (run : Outcome (Unit {0}) × Shell V S)
      → EndsWith V S out run
      → run.0 ≡ returned tt
      → out ≡ (ok tt, run.1.server)
  taken (ok a, t) run (_, server) h = λ i. (ok tt, sym server i)
  taken (err e, t) run (failed, _) h = absurd (cc (failed, h))

  -- Where a run of `starter approve` has ended well, its decision is behind the earlier ones.
  approve-Sent :
      (args : List String) (actor : String) (reject : Bool) (w t : Shell V S)
      → parse H.readers approve_flags args ≡ parsed (id, (actor, (reject, tt)))
      → run_approve V S H c args w ≡ (returned tt, t)
      → IsPost t.server
      → sent t.server ≡ sent w.server ++ (decision V S H actor reject ∷ [])
  approve-Sent args actor reject w t given ran post =
      elim (run_approve-Approves V S H c args id actor reject w given) [
        | inl (_, refused, _) ↦ absurd (cc (refused, ap (λ out. out.0) ran))
        | inr (_, _, ends) ↦
            post.signal-Sent (decision V S H actor reject) w.server t.server
              (taken _ _ ends (ap (λ out. out.0) ran) ∙ ap (λ out. (ok tt, out.1.server)) ran)
      ]

  module _ (input : CanaryInput) where
    by_first :
        (signal : ApprovalSignal) (r : Result CanaryResult)
        → input.auto_promote ≡ false
        → ((d : Duration) (e : T.State) → (T.select approve_promote_signal d e).0 ≡ received signal)
        → Decided T input r
        → r ≡ ok (verdict T input (received signal))
    by_first signal r human heard (inl (auto, _)) = absurd (cc (auto, human))
    by_first signal r human heard (inr (_, (e, h))) =
        h ∙ ap (λ ready. ok (verdict T input ready)) (heard input.approval_timeout e)

    -- If a run of `starter approve` for the workflow of a deploy has ended well, then the deploy,
    -- whose activities work and which no release approves, comes back with what the first signal
    -- decides: the one of this run if none was sent before. It is promoted by its sender if it
    -- approves, and else rolled back.
    pub approve_decides :
        (args : List String) (actor : String) (reject : Bool) (w t : Shell V S) (e : T.State)
        → parse H.readers approve_flags args ≡ parsed (id, (actor, (reject, tt)))
        → run_approve V S H c args w ≡ (returned tt, t)
        → IsPost t.server
        → IsSmooth T input
        → input.auto_promote ≡ false
        → (canary_deploy T input (fresh T input e)).0
          ≡ ok (verdict T input (received (first (sent w.server) (decision V S H actor reject))))
    approve_decides args actor reject w t e given ran post smooth human =
        by_first (first (sent w.server) (decision V S H actor reject)) _ human
          (λ d e'. TakesFirst-first (sent w.server) (decision V S H actor reject) _ (
            subst (λ box. TakesFirst box (T.select approve_promote_signal d e').0)
              (approve-Sent args actor reject w t given ran post) (post.select-TakesFirst d e')))
          (canary_deploy-Decided T input e smooth)
