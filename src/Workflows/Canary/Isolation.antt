-- ===== src/Workflows/Canary/Isolation.antt =====
-- Deploys of different services, at the same time: each writes to the deployments of its own service.
use mathlib.Core.List.{Memᴰ}
use temporalops.Base.{All-at, ℤ, String, ◌≢◌, refl, sym, ◌∙◌, subst, inl, inr, List, [], ◌∷◌, All}
use temporalops.Kube.View.{View, Write, apply, target, Within}
use temporalops.Kube.View.Isolation.{Shuffle, Elsewhere, Agree, Shuffle-Agree}
use temporalops.Client.{canary_name, stable_name}
use temporalops.Client.Names.{Named, names_differ, canary_name_injective, stable_name_injective}
use temporalops.Worker.Tasks.{writes_of}
use temporalops.Workflows.Engine.{Engine, Call, Step}
use temporalops.Workflows.Canary.{CanaryInput, canary_deploy}
use temporalops.Workflows.Canary.History.{calls, scale_call, shift_call, promote_call, All-append}
use temporalops.Workflows.Canary.Balance.{fresh}
use temporalops.Workflows.Canary.Course.{
  Leave, by_release, by_signal, leave_call, Course, no_query, no_policy, denied, not_scaled,
  not_baked, unhealthy, not_shifted, expired, refused, not_promoted, rolled_out, forward_of,
  undone_by,
}
use temporalops.Workflows.Canary.History.{down_call, back_call}
use temporalops.Workflows.Canary.Course.Stages.{canary_deploy-Takes}

-- The write is to one of the two deployments of the service.
abbrev OnService : String → Write → Type 0
OnService service w = Named service (target w)

All-imp {ℓ κ κ'} :
    {A : Type ℓ} (P : A → Type κ) (Q : A → Type κ') (xs : List A)
    → ((x : A) → P x → Q x)
    → All P xs
    → All Q xs
All-imp P Q [] f h = tt
All-imp P Q (x ∷ xs) f (p, h) = (f x p, All-imp P Q xs f h)

module _ (overflow : ℤ → ℤ → ℤ) where
  -- One of the writes that an activity of these steps makes.
  abbrev pub IsWriteOf : List Step → Write → Type 0
  IsWriteOf steps w = (s : Step) × Memᴰ s steps × Memᴰ w (writes_of overflow s.call)

  abbrev pub Own : String → Call → Type 0
  Own service c = Within (Named service) (writes_of overflow c)

  module _ (T : Engine) (input : CanaryInput) where
    up-Own : Own input.service (scale_call input)
    up-Own = (inl refl, (inl refl, tt))

    shift-Own : Own input.service (shift_call input)
    shift-Own = (inl refl, (inr refl, tt))

    rollout-Own : Own input.service (promote_call input)
    rollout-Own = (inr refl, (inr refl, (inl refl, tt)))

    down-Own : Own input.service (down_call input)
    down-Own = (inl refl, tt)

    back-Own : Own input.service (back_call input)
    back-Own = (inl refl, (inr refl, tt))

    leave-Own : (why : Leave T input) → Own input.service (leave_call T input why)
    leave-Own (by_release _) = tt
    leave-Own (by_signal _ _ _ _ _) = tt

    abbrev pub OwnStep : Step → Type 0
    OwnStep s = Own input.service s.call

    forward-Own : (course : Course T input) → All OwnStep (forward_of T input course)
    forward-Own (no_query _ _ _) = tt
    forward-Own (no_policy _ _) = (tt, tt)
    forward-Own (denied _ _ _) = (tt, tt)
    forward-Own (not_scaled _ _) = (tt, (up-Own, tt))
    forward-Own (not_baked _ _) = (tt, (up-Own, (tt, tt)))
    forward-Own (unhealthy _ _ _) = (tt, (up-Own, (tt, tt)))
    forward-Own (not_shifted _ _) = (tt, (up-Own, (tt, (shift-Own, tt))))
    forward-Own (expired _ _ _ _ _) = (tt, (up-Own, (tt, (shift-Own, (tt, tt)))))
    forward-Own (refused _ _ _ _ _ _) = (tt, (up-Own, (tt, (shift-Own, (tt, tt)))))
    forward-Own (not_promoted why _ _ _) =
        (tt, (up-Own, (tt, (shift-Own, (leave-Own why, (rollout-Own, tt))))))
    forward-Own (rolled_out why _ _) =
        (tt, (up-Own, (tt, (shift-Own, (leave-Own why, (rollout-Own, tt))))))

    undone-Own : (course : Course T input) → All (Own input.service) (undone_by T input course)
    undone-Own (no_query _ _ _) = tt
    undone-Own (no_policy _ _) = tt
    undone-Own (rolled_out _ _ _) = tt
    undone-Own (denied _ _ _) = (tt, tt)
    undone-Own (not_scaled _ _) = (tt, tt)
    undone-Own (not_baked _ _) = (down-Own, (tt, tt))
    undone-Own (unhealthy _ _ _) = (down-Own, (tt, tt))
    undone-Own (not_shifted _ _) = (down-Own, (tt, tt))
    undone-Own (expired _ _ _ _ _) = (back-Own, (down-Own, (tt, tt)))
    undone-Own (refused _ _ _ _ _ _) = (back-Own, (down-Own, (tt, tt)))
    undone-Own (not_promoted _ _ _ _) = (back-Own, (down-Own, (tt, tt)))

    of_calls : (back : List Step) → All (Own input.service) (calls back) → All OwnStep back
    of_calls [] h = tt
    of_calls (s ∷ back) (p, h) = (p, of_calls back h)

    pub canary_deploy-Own :
        (e : T.State) → All OwnStep (canary_deploy T input (fresh T input e)).1.steps
    canary_deploy-Own e =
        let (course, took) = canary_deploy-Takes T input e in
        subst (All OwnStep) (sym took.splits) (
          All-append OwnStep (forward_of T input course) took.back (forward-Own course) (
            of_calls took.back
              (subst (All (Own input.service)) (sym took.asks) (undone-Own course))))

    -- Whatever writes of its activities a deploy makes are on its own service.
    write-OnService :
        (e : T.State) (w : Write)
        → IsWriteOf (canary_deploy T input (fresh T input e)).1.steps w
        → OnService input.service w
    write-OnService e w (s, asked, made) =
        All-at (OnService input.service) w (writes_of overflow s.call)
          (All-at OwnStep s _ (canary_deploy-Own e) asked) made

-- The two views agree on the deployments of a service.
abbrev pub SameService : String → View → View → Type 0
SameService service v v' = Agree (canary_name service) v v' × Agree (stable_name service) v v'

not_canary : (a b : String) (w : Write) → a ≢ b → OnService b w → Elsewhere (canary_name a) w
not_canary a b w differ (inl at) e = differ (canary_name_injective a b (sym e ∙ at))
not_canary a b w differ (inr at) e = names_differ a b (sym e ∙ at)

not_stable : (a b : String) (w : Write) → a ≢ b → OnService b w → Elsewhere (stable_name a) w
not_stable a b w differ (inl at) e = names_differ b a (sym at ∙ e)
not_stable a b w differ (inr at) e = differ (stable_name_injective a b (sym e ∙ at))

module _ (overflow : ℤ → ℤ → ℤ) where
  -- A write that some deploy of another service makes.
  abbrev pub ByOther : String → Write → Type 1
  ByOther service w =
      (T : Engine) × (input : CanaryInput) × (e : T.State) × (service ≢ input.service)
      × IsWriteOf overflow (canary_deploy T input (fresh T input e)).1.steps w

  -- Deploys do not disturb another service. Whatever writes are made, and however the writes of any
  -- number of deploys of other services interleave with them, each of those deploys making any of the
  -- writes of the activities that it asked for, any number of times, as with failed and repeated
  -- attempts: the two deployments of the service come out as without the other deploys.
  pub deploys_isolated :
      (service : String) (xs ys zs : List Write) (v : View)
      → All (ByOther service) ys
      → Shuffle xs ys zs
      → SameService service (apply zs v) (apply xs v)
  deploys_isolated service xs ys zs v others s = (
    Shuffle-Agree (canary_name service) v s (
        All-imp _ _ ys
          (λ w (T, input, e, differ, made).
            not_canary service input.service w differ (write-OnService overflow T input e w made))
          others),
    Shuffle-Agree (stable_name service) v s (
        All-imp _ _ ys
          (λ w (T, input, e, differ, made).
            not_stable service input.service w differ (write-OnService overflow T input e w made))
          others),
  )
