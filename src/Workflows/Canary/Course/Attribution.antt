-- ===== src/Workflows/Canary/Course/Attribution.antt =====
-- Who a promoted deploy is attributed to.
use mathlib.Core.List.{append-nil}
use temporalops.Base.{
  String, ◌≡◌, ◌≢◌, refl, sym, ap, ◌∙◌, subst, Bool, true, List, [], ◌∷◌, ◌++◌, Result, ok, err,
}
use temporalops.Workflows.Options.{alert_opts, promote_opts}
use temporalops.Workflows.Engine.{Engine, Run, ApprovalSignal, received, Step}
use temporalops.Workflows.Canary.{
  CanaryInput, CanaryResult, promoted, approve_promote_signal, canary_deploy,
}
use temporalops.Workflows.Canary.History.{calls, promote_call}
use temporalops.Workflows.Canary.Balance.{fresh}
use temporalops.Workflows.Canary.Course.{
  Leave, by_release, by_signal, leave_actor, leave_call, Course, no_query, no_policy, denied,
  not_scaled, not_baked, unhealthy, not_shifted, expired, refused, not_promoted, rolled_out,
  result_of, forward_of, undone_by, to_gate, forward_step,
}
use temporalops.Workflows.Canary.History.{approval_call}
use temporalops.Workflows.Canary.Course.Stages.{canary_deploy-Takes}

module _ (T : Engine) (input : CanaryInput) where
  -- The deploy went through the gate with this actor: an approval record that names the actor was
  -- asked for, and then the full rollout, which succeeded.
  abbrev pub AttributedTo : String → List Step → Type 0
  AttributedTo actor steps =
      (decision : String) × (detail : String) × (recorded : Bool) × (steps
        ≡ to_gate T input
          ++ (forward_step alert_opts (approval_call actor decision detail) recorded
              ∷ forward_step promote_opts (promote_call input) true
              ∷ []))

  -- Whoever signals the gate gives a name.
  abbrev pub Signed : Type 0
  Signed =
      (s : T.State) (signal : ApprovalSignal)
      → (T.select approve_promote_signal input.approval_timeout s).0 ≡ received signal
      → signal.actor ≢ ""

  abbrev Attributed : List Step → Result CanaryResult → Type 0
  Attributed steps (err e) = Unit {0}
  Attributed steps (ok r) = r.status ≡ promoted → (r.actor ≢ "") × AttributedTo r.actor steps

  leave-Attributed :
      (why : Leave T input) (b : Bool) (steps : List Step)
      → Signed
      → steps
        ≡ to_gate T input
          ++ (forward_step alert_opts (leave_call T input why) b
              ∷ forward_step promote_opts (promote_call input) true
              ∷ [])
      → (leave_actor T input why ≢ "") × AttributedTo (leave_actor T input why) steps
  leave-Attributed (by_release _) b steps signed h = ((λ e. cc e), (_, _, b, h))
  leave-Attributed (by_signal s signal _ heard _) b steps signed h =
      (signed s signal heard, (_, _, b, h))

  no_calls : (back : List Step) → calls back ≡ [] → back ≡ []
  no_calls [] h = refl
  no_calls (s ∷ back) h = absurd (cc h)

  course-Attributed :
      (course : Course T input) (back steps : List Step)
      → Signed
      → steps ≡ forward_of T input course ++ back
      → calls back ≡ undone_by T input course
      → Attributed steps (result_of T input course)
  course-Attributed (no_query _ _ _) back steps signed h k = tt
  course-Attributed (no_policy _ _) back steps signed h k = tt
  course-Attributed (denied _ _ _) back steps signed h k = λ e. absurd (cc e)
  course-Attributed (not_scaled _ _) back steps signed h k = λ e. absurd (cc e)
  course-Attributed (not_baked _ _) back steps signed h k = λ e. absurd (cc e)
  course-Attributed (unhealthy _ _ _) back steps signed h k = λ e. absurd (cc e)
  course-Attributed (not_shifted _ _) back steps signed h k = λ e. absurd (cc e)
  course-Attributed (expired _ _ _ _ _) back steps signed h k = λ e. absurd (cc e)
  course-Attributed (refused _ _ _ _ _ _) back steps signed h k = λ e. absurd (cc e)
  course-Attributed (not_promoted _ _ _ _) back steps signed h k = λ e. absurd (cc e)
  course-Attributed (rolled_out why b said) back steps signed h k = λ _.
      leave-Attributed why b steps signed (
        h
        ∙ ap (λ xs. forward_of T input (rolled_out why b said) ++ xs) (no_calls back k)
        ∙ append-nil _)

  -- Where every signal names its actor, as the starter sees to, each promoted deploy is attributed:
  -- its result names an actor, and before the full rollout, which is its last step and succeeded, it
  -- asked for an approval record that names the same actor.
  pub promoted-AttributedTo :
      (e : T.State) (r : CanaryResult) (t : Run T)
      → Signed
      → canary_deploy T input (fresh T input e) ≡ (ok r, t)
      → r.status ≡ promoted
      → (r.actor ≢ "") × AttributedTo r.actor t.steps
  promoted-AttributedTo e r t signed done =
      let (course, took) = canary_deploy-Takes T input e in
      subst (λ out. Attributed out.1.steps out.0) done
        (subst (Attributed _) (sym took.returns)
          (course-Attributed course took.back _ signed took.splits took.asks))
