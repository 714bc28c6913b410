-- ===== src/Worker/Retries.antt =====
-- The attempts that Temporal makes at one activity: an attempt may fail, and its worker may be lost
-- at any point, also when all is done but not yet reported.
use temporalops.Base.{ℤ, String, List, ◌≡◌, refl, ap, subst, ◌∙◌, Error, Result, ok, err}
use temporalops.Kube.{Kube}
use temporalops.Kube.View.{View, Write, apply, Within}
use temporalops.Kube.View.Converge.{apply-prefix}
use temporalops.Kube.Laws.{IsLawful}
use temporalops.Client.{World, namespace}
use temporalops.Client.Plans.{Partly, Does}
use temporalops.Audit.{Sqlite, Store}
use temporalops.Audit.Interceptor.{Info}
use temporalops.Workflows.Engine.{Call, Reply}
use temporalops.Worker.{run_task}
use temporalops.Worker.Tasks.{writes_of, of_world, run_task-Does}

module _ (overflow : ℤ → ℤ → ℤ) (K : Kube) (S : Sqlite) (view : K.Cluster → View) where
  -- `Attempts store c w out`: from `w`, the attempts at `c` end with `out`. Each attempt has an
  -- `Info` and a log of its own, and may run in another worker, which has the cluster but not the
  -- cached client nor the heartbeats of the one before. What `view` does not show may change in
  -- between.
  pub data Attempts (store : Store S) (c : Call)
      : World K → Result (Reply c) × World K → Type 0 where
    last :
        (info : Info) (w : World K) (s : S.State)
        → Attempts store c w
            (of_world overflow K S view (run_task overflow K S store info c (w, s)))
    again :
        (info : Info) (w t t' : World K) (s : S.State) (e : Error)
        (out : Result (Reply c) × World K)
        → of_world overflow K S view (run_task overflow K S store info c (w, s)) ≡ (err e, t)
        → view t'.cluster ≡ view t.cluster
        → Attempts store c t' out
        → Attempts store c w out
    -- The worker is lost after a first part of the writes.
    lost :
        (w t : World K) (out : Result (Reply c) × World K)
        → Partly (writes_of overflow c) (view w.cluster) (view t.cluster)
        → Attempts store c t out
        → Attempts store c w out
    -- Temporal makes no further attempt: the call was cancelled, or a timeout of it has passed.
    given_up : (w : World K) (e : Error) → Attempts store c w (err e, w)

  Partly-again : (ws : List Write) (v v' : View) → Partly ws v v' → apply ws v' ≡ apply ws v
  Partly-again ws v v' (ps, qs, e, h) = ap (apply ws) h ∙ apply-prefix ws ps qs v e

  -- What the attempts are to reach.
  abbrev pub Reaches : List Write → World K → {A : Type 0} → Result A × World K → Type 0
  Reaches ws w (ok _, t) = view t.cluster ≡ apply ws (view w.cluster)
  Reaches ws w (err _, t) = apply ws (view t.cluster) ≡ apply ws (view w.cluster)

  Reaches-of_Does :
      {A : Type 0} (ws : List Write) (w : World K) (out : Result A × World K)
      → Does K view ws w out
      → Reaches ws w out
  Reaches-of_Does ws w (ok a, t) d = d
  Reaches-of_Does ws w (err e, t) p = Partly-again ws _ _ p

  Reaches-from :
      {A : Type 0} (ws : List Write) (w t : World K) (out : Result A × World K)
      → apply ws (view t.cluster) ≡ apply ws (view w.cluster)
      → Reaches ws t out
      → Reaches ws w out
  Reaches-from ws w t (ok a, u) e r = r ∙ e
  Reaches-from ws w t (err x, u) e r = r ∙ e

  Partly-of_failure :
      {A : Type 0} (ws : List Write) (w t : World K) (e : Error) (out : Result A × World K)
      → out ≡ (err e, t)
      → Does K view ws w out
      → Partly ws (view w.cluster) (view t.cluster)
  Partly-of_failure ws w t e out q d = subst (Does K view ws w) q d

  module _ {Mine : String → Type 0} (L : IsLawful K namespace view Mine) where
    -- However many attempts at an activity fail or are cut off by the loss of their worker, and
    -- whatever part of its writes each of them has made: if the last attempt succeeds, the
    -- deployments are as one undisturbed attempt would have left them, and if it fails or Temporal
    -- gives up, making the activity's writes once more would still bring them there. The writes are to
    -- deployments for which the API server keeps its laws; others may change meanwhile.
    pub retries_converge :
        (store : Store S) (c : Call) (w : World K) (out : Result (Reply c) × World K)
        → Within Mine (writes_of overflow c)
        → Attempts store c w out
        → Reaches (writes_of overflow c) w out
    retries_converge store c w _ mine (last info _ s) =
        Reaches-of_Does (writes_of overflow c) w _
          (run_task-Does overflow K S view L store info c w s mine)
    retries_converge store c w out mine (again info _ t t' s e _ failed same rest) =
        Reaches-from (writes_of overflow c) w t' out
          (ap (apply (writes_of overflow c)) same
            ∙ Partly-again _ _ _ (
                Partly-of_failure _ w t e _ failed
                  (run_task-Does overflow K S view L store info c w s mine)))
          (retries_converge store c t' out mine rest)
    retries_converge store c w out mine (lost _ t _ part rest) =
        Reaches-from (writes_of overflow c) w t out (Partly-again _ _ _ part)
          (retries_converge store c t out mine rest)
    retries_converge store c w _ mine (given_up _ e) = refl
