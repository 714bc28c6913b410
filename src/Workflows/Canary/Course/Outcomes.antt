-- ===== src/Workflows/Canary/Course/Outcomes.antt =====
-- What follows from the courses: the end of a deploy whose activities work, and the number of its
-- steps.

use temporalops.Base.{
  ◌+◌, ◌≤◌, String, ◌<>◌, ◌≡◌, refl, sym, ap, subst, ◌⊎◌, inl, inr, Bool, true, false, List, [],
  ◌∷◌, Result, ok, err, arith, length, length-append, if◌then◌else◌,
}
use temporalops.Workflows.Options.{policy_opts, scale_opts, traffic_opts, promote_opts, health_opts}
use temporalops.Workflows.Engine.{Engine, attached, Ready, received, timer_done, Step}
use temporalops.Workflows.Canary.{
  CanaryInput, CanaryResult, promoted, rolled_back, timed_out, approve_promote_signal,
  canary_status_query, canary_deploy, no_approval,
}
use temporalops.Workflows.Canary.History.{calls, policy_call, scale_call, shift_call, promote_call}
use temporalops.Workflows.Canary.Balance.{fresh}
use temporalops.Workflows.Canary.Course.{
  by_release, by_signal, Course, no_query, no_policy, denied, not_scaled, not_baked, unhealthy,
  not_shifted, expired, refused, not_promoted, rolled_out, result_of, forward_of, undone_by, ended,
}
use temporalops.Workflows.Canary.History.{bake_call}
use temporalops.Workflows.Canary.Course.Stages.{canary_deploy-Takes}

abbrev pub Works : {A : Type 0} → (A → Bool) → Result A → Type 0
Works good (ok a) = good a ≡ true
Works good (err e) = ⊥

module _ (T : Engine) (input : CanaryInput) where
  -- The activities forward succeed: the policy admits the image, the canary is healthy.
  pub record IsSmooth : Type 0 where
    pub query : (s : T.State) → Works (λ _. true) (T.set_query_handler canary_status_query s).0
    pub policy :
        (s : T.State)
        → Works (λ p. p.allowed) (T.execute attached policy_opts (policy_call input) s).0
    pub scale :
        (s : T.State) → Works (λ _. true) (T.execute attached scale_opts (scale_call input) s).0
    pub bake :
        (s : T.State)
        → Works
            (λ h. h.healthy)
            (T.execute attached (health_opts input.bake_seconds) (bake_call input) s).0
    pub shift :
        (s : T.State) → Works (λ _. true) (T.execute attached traffic_opts (shift_call input) s).0
    pub promote :
        (s : T.State) → Works (λ _. true) (T.execute attached promote_opts (promote_call input) s).0

  abbrev pub promoted_by : String → CanaryResult
  promoted_by actor =
      ended input promoted ("promoted to target replicas, approved by " <> actor) actor

  -- What the gate makes of what the selector brings.
  abbrev pub verdict : Ready → CanaryResult
  verdict (timer_done _) = ended input timed_out (no_approval T input) ""
  verdict (received signal) =
      if signal.approve
      then promoted_by signal.actor
      else ended input rolled_back ("promotion rejected by " <> signal.actor) signal.actor

  abbrev pub Decided : Result CanaryResult → Type 0
  Decided r =
      ((input.auto_promote ≡ true) × (r ≡ ok (promoted_by "auto-release")))
      ⊎ ((input.auto_promote ≡ false)
          × ((s : T.State) × (r
                ≡ ok (verdict (T.select approve_promote_signal input.approval_timeout s).0))))

  works_err : {A : Type 0} (good : A → Bool) (r : Result A) (e : _) → Works good r → r ≡ err e → ⊥
  works_err good (ok a) e h k = cc
  works_err good (err x) e h k = h

  works_false :
      {A : Type 0} (good : A → Bool) (r : Result A) (a : A)
      → Works good r
      → r ≡ ok a
      → good a ≡ false
      → ⊥
  works_false good r a h k f = cc (f, subst (Works good) k h)

  course-Decided : (H : IsSmooth) (course : Course T input) → Decided (result_of T input course)
  course-Decided H (no_query e s k) = absurd (works_err _ _ e (H.query s) k)
  course-Decided H (no_policy e k) = absurd (works_err _ _ e (H.policy k.asked_at) k.said)
  course-Decided H (denied p k f) = absurd (works_false _ _ p (H.policy k.asked_at) k.said f)
  course-Decided H (not_scaled e k) = absurd (works_err _ _ e (H.scale k.asked_at) k.said)
  course-Decided H (not_baked e k) = absurd (works_err _ _ e (H.bake k.asked_at) k.said)
  course-Decided H (unhealthy h k f) = absurd (works_false _ _ h (H.bake k.asked_at) k.said f)
  course-Decided H (not_shifted e k) = absurd (works_err _ _ e (H.shift k.asked_at) k.said)
  course-Decided H (not_promoted why b e k) = absurd (works_err _ _ e (H.promote k.asked_at) k.said)
  course-Decided H (expired s o human k b) = inr (human, (s, ap (λ r. ok (verdict r)) (sym k)))
  course-Decided H (refused s signal human k f b) = inr (human, (s, rw (k, f)))
  course-Decided H (rolled_out (by_release auto) b k) = inl (auto, refl)
  course-Decided H (rolled_out (by_signal s signal human k yes_said) b _) =
      inr (human, (s, rw (k, yes_said)))

  -- Where the query handler is set and the activities forward succeed, the policy allowing the image
  -- and the bake finding the canary healthy, a deploy comes back with a result, and the gate alone
  -- decides which: promoted if the release approves it, and else promoted, rolled back or timed out by
  -- what the selector brings.
  pub canary_deploy-Decided :
      (e : T.State) → IsSmooth → Decided (canary_deploy T input (fresh T input e)).0
  canary_deploy-Decided e H =
      let (course, took) = canary_deploy-Takes T input e in
      subst Decided (sym took.returns) (course-Decided H course)

  length-calls : (steps : List Step) → length (calls steps) ≡ length steps
  length-calls [] = refl
  length-calls (s ∷ steps) = omega (arith, length-calls steps)

  course_bound :
      (course : Course T input)
      → length (forward_of T input course) + length (undone_by T input course) ≤ 9
  course_bound (no_query _ _ _) = omega arith
  course_bound (no_policy _ _) = omega arith
  course_bound (denied _ _ _) = omega arith
  course_bound (not_scaled _ _) = omega arith
  course_bound (not_baked _ _) = omega arith
  course_bound (unhealthy _ _ _) = omega arith
  course_bound (not_shifted _ _) = omega arith
  course_bound (expired _ _ _ _ _) = omega arith
  course_bound (refused _ _ _ _ _ _) = omega arith
  course_bound (not_promoted _ _ _ _) = omega arith
  course_bound (rolled_out _ _ _) = omega arith

  -- Every deploy comes to its end with at most nine activities, its rollback and its alert included.
  pub canary_deploy-bounded :
      (e : T.State) → length (canary_deploy T input (fresh T input e)).1.steps ≤ 9
  canary_deploy-bounded e =
      let (course, took) = canary_deploy-Takes T input e in
      omega (
        arith,
        ap length took.splits,
        length-append (forward_of T input course) took.back,
        length-calls took.back,
        ap length took.asks,
        course_bound course,
      )
