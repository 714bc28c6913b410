-- ===== src/Workflows/Canary/OnRecord.antt =====
-- What the audit log has of a deploy.
use temporalops.Base.{
  ℤ, String, ◌≡◌, sym, subst, true, false, List, [], ◌∷◌, All, Result, ok, err, Bool-cases, inl,
  inr,
}
use temporalops.Kube.{Kube}
use temporalops.Client.{World}
use temporalops.Audit.{Sqlite, Store, Row}
use temporalops.Audit.Database.{IsLawful}
use temporalops.Audit.Interceptor.{Info}
use temporalops.Audit.Expected.{start_of}
use temporalops.Worker.{run_task}
use temporalops.Worker.Logged.{
  InLog, Grows, Grows-trans, Grows-refl, Writable, IsNew, IsNew-before, IsNew-Apart, SameAttempt,
  AttemptLogged, AttemptLogged-Grows, activity_name,
}
use temporalops.Worker.Recorded.{Wraps, run_task-Wraps}
use temporalops.Workflows.Options.{Duration, ActivityOptions}
use temporalops.Workflows.Engine.{Engine, Scope, Call, Reply, Step, step_of, is_ok}
use temporalops.Workflows.Canary.{CanaryInput, canary_deploy}
use temporalops.Workflows.Canary.Balance.{fresh}
use temporalops.Workflows.Canary.Trace.{Trace, still, queried, selected, asked}
use temporalops.Workflows.Canary.Trace.Stages.{canary_deploy-Goes}

module _ (overflow : ℤ → ℤ → ℤ) (K : Kube) (S : Sqlite) (store : Store S)
    (rows : S.State → List Row) (L : IsLawful S store.db rows) where
  -- What Temporal reports of a call is what the last attempt at it came to, of which the log had no
  -- row before, under the name of the call's activity; or Temporal gave up. The log grows before and
  -- after, as by other attempts.
  pub data Reports (c : Call) (s : S.State) : Result (Reply c) → S.State → Type 0 where
    reports :
        (info : Info) (w : World K) (u t : S.State)
        → Grows S store rows L s u
        → info.activity_type ≡ activity_name c
        → IsNew S store rows L info u
        → Grows S store rows L (run_task overflow K S store info c (w, u)).1.1 t
        → Reports c s (run_task overflow K S store info c (w, u)).0 t
    given_up : (e : _) (t : S.State) → Grows S store rows L s t → Reports c s (err e) t

  -- What is relied on in Temporal, where the workers record in one log.
  pub record IsAudited (T : Engine) (log : T.State → S.State) : Type 0 where
    pub execute-Reports :
        (scope : Scope) (options : ActivityOptions) (c : Call) (e : T.State)
        → let out = T.execute scope options c e in Reports c (log e) out.0 (log out.1)
    pub query-Grows :
        (name : String) (e : T.State)
        → Grows S store rows L (log e) (log (T.set_query_handler name e).1)
    pub select-Grows :
        (name : String) (d : Duration) (e : T.State)
        → Grows S store rows L (log e) (log (T.select name d e).1)

  -- For each activity that succeeded there is an attempt of its own whose rows are in the log: no two
  -- of these attempts agree in all of workflow, run, activity and number.
  pub data OnRecord (s : S.State) : List Step → List Info → Type 0 where
    nothing_asked : OnRecord s [] []
    not_done :
        (step : Step) (rest : List Step) (infos : List Info)
        → step.succeeded ≡ false
        → OnRecord s rest infos
        → OnRecord s (step ∷ rest) infos
    recorded :
        (step : Step) (rest : List Step) (info : Info) (infos : List Info)
        → step.succeeded ≡ true
        → AttemptLogged S store rows L info step.call s
        → All (λ j. ¬ SameAttempt S store rows L info j) infos
        → OnRecord s rest infos
        → OnRecord s (step ∷ rest) (info ∷ infos)

  module _ (writable : Writable S store rows L) where
    Wraps-AttemptLogged :
        (info : Info) (c : Call) (s t : S.State) (r : Result (Reply c))
        → info.activity_type ≡ activity_name c
        → is_ok r ≡ true
        → Wraps overflow K S store rows L writable info c r s t
        → AttemptLogged S store rows L info c t
    Wraps-AttemptLogged info c s t (ok a) named succeeded h = record {
      named = named;
      start = h.start;
      approval = h.approval;
      completed = h.stop;
    }
    Wraps-AttemptLogged info c s t (err e) named succeeded h = absurd (cc succeeded)

    Reports-Grows :
        (c : Call) (s t : S.State) (r : Result (Reply c))
        → Reports c s r t
        → Grows S store rows L s t
    Reports-Grows c s t _ (reports info w u _ before _ new after) =
        let wraps = run_task-Wraps overflow K S store rows L writable info c w u new in
        Grows-trans S store rows L s u t before (Grows-trans S store rows L u _ t wraps.grows after)
    Reports-Grows c s t _ (given_up e _ g) = g

    -- The attempt that succeeded: new to the log before the call, and in it afterwards.
    abbrev Succeeded : Call → S.State → S.State → Type 0
    Succeeded c s t =
        (info : Info) × IsNew S store rows L info s × AttemptLogged S store rows L info c t

    Reports-Succeeded :
        (c : Call) (s t : S.State) (r : Result (Reply c))
        → Reports c s r t
        → is_ok r ≡ true
        → Succeeded c s t
    Reports-Succeeded c s t _ (reports info w u _ before named new after) succeeded = (
      info,
      IsNew-before S store rows L info s u before new,
      AttemptLogged-Grows S store rows L info c _ t after (
          Wraps-AttemptLogged info c u _ _ named succeeded
            (run_task-Wraps overflow K S store rows L writable info c w u new)),
    )
    Reports-Succeeded c s t _ (given_up e _ g) succeeded = absurd (cc succeeded)

    -- The attempts of some steps that come after a state of the log.
    abbrev Later : S.State → S.State → List Step → Type 0
    Later s t steps =
        (infos : List Info) × OnRecord t steps infos × All (λ j. IsNew S store rows L j s) infos

    Grows-IsNew :
        (s s' : S.State) (infos : List Info)
        → Grows S store rows L s s'
        → All (λ j. IsNew S store rows L j s') infos
        → All (λ j. IsNew S store rows L j s) infos
    Grows-IsNew s s' [] g h = tt
    Grows-IsNew s s' (j ∷ infos) g h =
        (IsNew-before S store rows L j s s' g h.0, Grows-IsNew s s' infos g h.1)

    apart :
        (i : Info) (s : S.State) (infos : List Info)
        → InLog S store rows L (start_of i) s
        → All (λ j. IsNew S store rows L j s) infos
        → All (λ j. ¬ SameAttempt S store rows L i j) infos
    apart i s [] m h = tt
    apart i s (j ∷ infos) m h =
        (λ same. IsNew-Apart S store rows L i j s m h.0 same, apart i s infos m h.1)

    -- One more step in front.
    after_call :
        (step : Step) (s u t : S.State) (rest : List Step)
        → Grows S store rows L s u
        → Grows S store rows L u t
        → (step.succeeded ≡ true → Succeeded step.call s u)
        → Later u t rest
        → Later s t (step ∷ rest)
    after_call step s u t rest before after h (infos, on, new) = elim (Bool-cases step.succeeded) [
      | inl succeeded ↦
          let (info, fresh_one, logged) = h succeeded in
          (
            info ∷ infos,
            recorded step rest info infos succeeded
                (AttemptLogged-Grows S store rows L info step.call u t after logged)
                (apart info u infos logged.start new) on,
            (fresh_one, Grows-IsNew s u infos before new),
          )
      | inr failed ↦ (infos, not_done step rest infos failed on, Grows-IsNew s u infos before new)
    ]

    module _ (T : Engine) (log : T.State → S.State) (H : IsAudited T log) where
      Trace-Grows :
          (e e' : T.State) (steps : List Step)
          → Trace T e steps e'
          → Grows S store rows L (log e) (log e')
      Trace-Grows e e' _ (still _) = Grows-refl S store rows L (log e)
      Trace-Grows e e' steps (queried name _ _ _ h) =
          Grows-trans S store rows L _ _ _ (H.query-Grows name e) (Trace-Grows _ e' steps h)
      Trace-Grows e e' steps (selected name d _ _ _ h) =
          Grows-trans S store rows L _ _ _ (H.select-Grows name d e) (Trace-Grows _ e' steps h)
      Trace-Grows e e' _ (asked scope options c _ _ steps h) =
          Grows-trans S store rows L _ _ _
            (Reports-Grows c _ _ _ (H.execute-Reports scope options c e)) (Trace-Grows _ e' steps h)

      earlier :
          (s u t : S.State) (steps : List Step)
          → Grows S store rows L s u
          → Later u t steps
          → Later s t steps
      earlier s u t steps g (infos, on, new) = (infos, on, Grows-IsNew s u infos g new)

      Trace-Later :
          (e e' : T.State) (steps : List Step) → Trace T e steps e' → Later (log e) (log e') steps
      Trace-Later e e' _ (still _) = ([], nothing_asked, tt)
      Trace-Later e e' steps (queried name _ _ _ h) =
          earlier _ _ _ steps (H.query-Grows name e) (Trace-Later _ e' steps h)
      Trace-Later e e' steps (selected name d _ _ _ h) =
          earlier _ _ _ steps (H.select-Grows name d e) (Trace-Later _ e' steps h)
      Trace-Later e e' _ (asked scope options c _ _ steps h) =
          let out = T.execute scope options c e in
          let told = H.execute-Reports scope options c e in
          after_call (step_of scope options c out.0) (log e) (log out.1) (log e') steps
            (Reports-Grows c _ _ _ told) (Trace-Grows _ e' steps h) (Reports-Succeeded c _ _ _ told)
            (Trace-Later _ e' steps h)

      -- If the database takes every statement, then at the end of a deploy, however it ends, the log
      -- has for each of its activities that succeeded an attempt, a different one for each: its
      -- start, as started, and its end, as completed, both under the activity's name, and for an
      -- approval record also the row with the decision and who made it. The
      -- database keeps its laws; the attempt that Temporal reports on is new to the log and has the
      -- name of its activity; and the log may grow by other rows meanwhile.
      pub canary_deploy-OnRecord :
          (input : CanaryInput) (e : T.State)
          → let after = (canary_deploy T input (fresh T input e)).1 in
            (infos : List Info) × OnRecord (log after.engine) after.steps infos
      canary_deploy-OnRecord input e =
          let f = canary_deploy-Goes T input (fresh T input e) in
          let (infos, on, new) = Trace-Later e _ f.more f.trace in
          (
            infos,
            subst
                (λ steps.
                  OnRecord (log (canary_deploy T input (fresh T input e)).1.engine) steps infos)
                (sym f.adds) on,
          )
