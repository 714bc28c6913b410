-- ===== src/Starter/Deploys/Effects.antt =====
-- What the commands do at the Temporal server.
use text.Mathlib.TextEquality.{eq_iff}
use temporalops.Base.{
  String, ◌≡◌, ◌≢◌, refl, sym, subst, ◌⊎◌, inl, inr, Bool, true, false, not, ◌||◌, List, Result, ok,
  err, Bool-cases, str_eq,
}
use temporalops.Audit.{Sqlite}
use temporalops.Workflows.Canary.{CanaryInput}
use temporalops.Workflows.Hello.{task_queue}
use temporalops.Starter.Flags.{parse, parsed}
use temporalops.Starter.Program.{
  Server, Surroundings, Job, Outcome, returned, exited, Shell, Prog, ◌>>=◌, done, need,
}
use temporalops.Starter.Deploys.{
  approve_flags, canary_request, canary_id, run_canary, run_approve, decision,
}
use temporalops.Starter.Deploys.Lines.{canary_line, ReadsBack, canary_line-parse}

module _ (V : Server) (S : Sqlite) where
  -- The process ends with a call of the server: with its error as status 1, or well.
  abbrev pub EndsWith : {A : Type 0} → Result A × V.State → Outcome (Unit {0}) × Shell V S → Type 0
  EndsWith (ok a, s) out = (out.0 ≡ returned tt) × (out.1.server ≡ s)
  EndsWith (err e, s) out = (out.0 ≡ exited 1) × (out.1.server ≡ s)

  -- A call of the server that is followed by something that leaves the server alone.
  abbrev pub Quiet : {A : Type 0} → (A → Prog V S (Unit {0})) → Type 0
  Quiet {A} f = (a : A) (w : Shell V S) → ((f a w).0 ≡ returned tt) × ((f a w).1.server ≡ w.server)

  pub need-EndsWith :
      {A : Type 0} (what : String) (f : A → Prog V S (Unit {0})) (w : Shell V S)
      (out : Result A × V.State)
      → Quiet f
      → EndsWith out ((need what (λ _. out) >>= f) w)
  need-EndsWith what f w (ok a, s) q = q a (record w { server = s })
  need-EndsWith what f w (err e, s) q = (refl, refl)

  module _ (H : Surroundings) (c : V.Client) where
    canary_id_given : (id service : String) → id ≢ "" → canary_id V S H id service ≡ done id
    unfolding canary_id
    canary_id_given id service named = elim (Bool-cases (str_eq id "")) [
      | inl blank ↦ absurd (named ((eq_iff id "").0 blank))
      | inr given ↦ rw given
    ]

    gated_lem :
        (id : String) (input : CanaryInput) (w : Shell V S)
        → id ≢ ""
        → ReadsBack H.readers input
        → EndsWith
            (V.execute_workflow c
              (record { id = id; task_queue = task_queue })
              (Job.canary (record input { auto_promote = false }))
              w.server)
            (run_canary V S H c (canary_line id input false) w)
    unfolding run_canary canary_request
    gated_lem id input w named h =
        rw (canary_line-parse H.readers id input false h, canary_id_given id input.service named)
          (need-EndsWith "start canary" _ w
            (V.execute_workflow c (record { id = id; task_queue = task_queue })
              (Job.canary (record input { auto_promote = false })) w.server)
            (λ a t. (refl, refl)))

    -- `starter canary` with every flag named, an id and no `--wait` asks the server to start
    -- exactly this deploy, under this id and on the worker's task queue, and does nothing else to
    -- it. It exits with 1 if that fails.
    pub run_canary-EndsWith :
        (id : String) (input : CanaryInput) (w : Shell V S)
        → id ≢ ""
        → input.auto_promote ≡ false
        → ReadsBack H.readers input
        → EndsWith
            (V.execute_workflow c
              (record { id = id; task_queue = task_queue })
              (Job.canary input)
              w.server)
            (run_canary V S H c (canary_line id input false) w)
    run_canary-EndsWith id input w named gated h =
        subst
          (λ (i : CanaryInput).
            EndsWith
              (V.execute_workflow c (record { id = id; task_queue = task_queue }) (Job.canary i)
                w.server)
              (run_canary V S H c (canary_line id input false) w))
          (λ i. record input { auto_promote = sym gated i }) (gated_lem id input w named h)

    -- What `starter approve` has done: it has refused for want of an id or an actor and sent
    -- nothing, or sent this decision to this workflow.
    abbrev pub Approves :
        String → String → Bool → Shell V S → Outcome (Unit {0}) × Shell V S → Type 0
    Approves id actor reject w out =
        (((id ≡ "") ⊎ (actor ≡ "")) × (out.0 ≡ exited 1) × (out.1.server ≡ w.server))
        ⊎ ((id ≢ "")
            × (actor ≢ "")
            × EndsWith
                (V.signal_workflow c id "" "approve-promote"
                  (record { approve = not reject; actor = actor }) w.server)
                out)

    blank_or :
        (id actor : String)
        → ((id ≡ "") ⊎ (actor ≡ "")) × ((str_eq id "" || str_eq actor "") ≡ true)
          ⊎ (id ≢ "") × (actor ≢ "") × ((str_eq id "" || str_eq actor "") ≡ false)
    blank_or id actor = elim (Bool-cases (str_eq id "")) [
      | inl no_id ↦ inl (inl ((eq_iff id "").0 no_id), rw no_id)
      | inr with_id ↦ elim (Bool-cases (str_eq actor "")) [
        | inl no_actor ↦ inl (inr ((eq_iff actor "").0 no_actor), rw (with_id, no_actor))
        | inr with_actor ↦ inr (
          λ e. cc (with_id, (eq_iff id "").1 e),
          λ e. cc (with_actor, (eq_iff actor "").1 e),
          rw (with_id, with_actor),
        )
      ]
    ]

    -- With flags that are read, `starter approve` sends the decision exactly if both an id and an
    -- actor are given. Without them, and where the server refuses the signal, it exits with 1.
    pub run_approve-Approves :
        (args : List String) (id actor : String) (reject : Bool) (w : Shell V S)
        → parse H.readers approve_flags args ≡ parsed (id, (actor, (reject, tt)))
        → Approves id actor reject w (run_approve V S H c args w)
    unfolding run_approve
    run_approve-Approves args id actor reject w given = elim (blank_or id actor) [
      | inl (missing, blank) ↦ rw (given, blank) (inl (missing, refl, refl))
      | inr (with_id, with_actor, full) ↦
          rw (given, full)
            (inr (
              with_id,
              with_actor,
              need-EndsWith "signal workflow" _ w
                  (V.signal_workflow c id "" "approve-promote" (decision V S H actor reject)
                    w.server)
                  (λ a t. (refl, refl)),
            ))
    ]
