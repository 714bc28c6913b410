-- ===== src/Workflows/Canary/Cluster/Rollback.antt =====
-- What each course of a deploy leaves behind in the cluster.
use temporalops.Base.{
  ℤ, pos, to_int32, String, ◌≡◌, refl, sym, ap, ◌∙◌, subst, Bool, true, false, some, [], ◌∷◌, ◌++◌,
  All, Result,
}
use temporalops.Kube.View.{View, apply}
use temporalops.Client.{stable_name, canary_name}
use temporalops.Activities.Traffic.{at_least_one}
use temporalops.Workflows.Options.{alert_opts, promote_opts}
use temporalops.Workflows.Engine.{Engine, Run}
use temporalops.Workflows.Canary.{CanaryInput, CanaryResult, no_approval, canary_deploy}
use temporalops.Workflows.Canary.History.{scale_call, promote_call}
use temporalops.Workflows.Canary.Balance.{fresh}
use temporalops.Workflows.Canary.Course.{
  Course, no_query, no_policy, denied, not_scaled, not_baked, unhealthy, not_shifted, expired,
  refused, not_promoted, rolled_out, forward_of, undone_by, Took, to_bake, to_gate, bake_step,
  forward_step,
}
use temporalops.Workflows.Canary.History.{down_call, back_call, approval_call}
use temporalops.Workflows.Canary.Course.Stages.{canary_deploy-Takes}
use temporalops.Workflows.Canary.Cluster.{
  IsHost, Extends, canary_deploy-Extends, Leads, Leads-split,
}
use temporalops.Workflows.Canary.Cluster.Rollout.{
  InForce, names_unequal, name_self, after_promote-InForce,
}
use temporalops.Workflows.Canary.Cluster.Footprint.{
  Leads-replicas, Leads-image, replay, Leads-replay, SparesImage, SparesReplicas, BackWorks,
  back_works,
}

module _ (input : CanaryInput) where
  -- The canary has no replicas.
  abbrev pub NoCanary : View → Type 0
  NoCanary v = v.replicas (canary_name input.service) ≡ some (pos 0)

  abbrev pub SameImage : View → View → Type 0
  SameImage v v' = v'.image (stable_name input.service) ≡ v.image (stable_name input.service)

  abbrev pub SameCount : View → View → Type 0
  SameCount v v' = v'.replicas (stable_name input.service) ≡ v.replicas (stable_name input.service)

  -- The stable deployment has its target, but at least one replica.
  abbrev pub AtTarget : View → Type 0
  AtTarget v =
      v.replicas (stable_name input.service) ≡ some (to_int32 (at_least_one input.target_replicas))

module _ (overflow : ℤ → ℤ → ℤ) (T : Engine) (input : CanaryInput) where
  -- What a course leaves, from the view before it.
  abbrev pub Leaves : Course T input → View → View → Type 0
  Leaves (no_query _ _ _) v v' = v' ≡ v
  Leaves (no_policy _ _) v v' = v' ≡ v
  Leaves (denied _ _ _) v v' = v' ≡ v
  Leaves (not_scaled _ _) v v' = SameImage input v v' × SameCount input v v'
  Leaves (not_baked _ _) v v' = NoCanary input v' × SameImage input v v' × SameCount input v v'
  Leaves (unhealthy _ _ _) v v' = NoCanary input v' × SameImage input v v' × SameCount input v v'
  Leaves (not_shifted _ _) v v' = NoCanary input v' × SameImage input v v'
  Leaves (expired _ _ _ _ _) v v' = NoCanary input v' × SameImage input v v' × AtTarget input v'
  Leaves (refused _ _ _ _ _ _) v v' = NoCanary input v' × SameImage input v v' × AtTarget input v'
  Leaves (not_promoted _ _ _ _) v v' = NoCanary input v' × AtTarget input v'
  Leaves (rolled_out _ _ _) v v' = InForce input v'

  scale-SparesImage : SparesImage overflow (stable_name input.service) (scale_call input)
  scale-SparesImage o = rw (names_unequal input.service)

  scale-SparesReplicas : SparesReplicas overflow (stable_name input.service) (scale_call input)
  scale-SparesReplicas o = rw (names_unequal input.service)

  -- The compensation of the canary.
  down-Leaves :
      (u w : View)
      → w ≡ replay overflow (down_call input ∷ []) u
      → NoCanary input w × SameImage input u w × SameCount input u w
  unfolding apply
  down-Leaves u w h = (
    ap (λ (x : View). x.replicas (canary_name input.service)) h
        ∙ (rw (name_self (canary_name input.service))),
    ap (λ (x : View). x.image (stable_name input.service)) h,
    ap (λ (x : View). x.replicas (stable_name input.service)) h
        ∙ (rw (names_unequal input.service)),
  )

  -- Both compensations.
  back-Leaves :
      (u w : View)
      → w ≡ replay overflow (back_call input ∷ down_call input ∷ []) u
      → NoCanary input w × SameImage input u w × AtTarget input w
  unfolding apply
  back-Leaves u w h = (
    ap (λ (x : View). x.replicas (canary_name input.service)) h
        ∙ (rw (name_self (canary_name input.service))),
    ap (λ (x : View). x.image (stable_name input.service)) h,
    ap (λ (x : View). x.replicas (stable_name input.service)) h
        ∙ (rw (names_unequal input.service, name_self (stable_name input.service))),
  )

  -- The steps up to the bake, which leave the stable deployment alone.
  to_bake-Spares :
      (b : Bool) (v u : View)
      → Leads overflow (to_bake T input ++ (bake_step T input b ∷ [])) v u
      → SameImage input v u × SameCount input v u
  to_bake-Spares b v u h = (
    Leads-image overflow (stable_name input.service) (to_bake T input ++ (bake_step T input b ∷ []))
        v u ((λ o. refl), (scale-SparesImage, ((λ o. refl), tt))) h,
    Leads-replicas overflow (stable_name input.service)
        (to_bake T input ++ (bake_step T input b ∷ [])) v u
        ((λ o. refl), (scale-SparesReplicas, ((λ o. refl), tt))) h,
  )

  -- And the steps up to the gate, which leave its image alone.
  to_gate-Spares :
      (b : Bool) (actor decision detail : String) (v u : View)
      → Leads overflow
          (to_gate T input
            ++ (forward_step alert_opts (approval_call actor decision detail) b ∷ []))
          v
          u
      → SameImage input v u
  to_gate-Spares b actor decision detail v u h =
      Leads-image overflow (stable_name input.service)
        (to_gate T input ++ (forward_step alert_opts (approval_call actor decision detail) b ∷ []))
        v u ((λ o. refl), (scale-SparesImage, ((λ o. refl), ((λ o. refl), ((λ o. refl), tt))))) h

  leaves :
      (course : Course T input) (v u w : View)
      → Leads overflow (forward_of T input course) v u
      → w ≡ replay overflow (undone_by T input course) u
      → Leaves course v w
  unfolding apply
  leaves (no_query e s k) v u w h back = back ∙ h
  leaves (no_policy e k) v u w (x, made, h) back = back ∙ h ∙ made
  leaves (denied p k f) v u w (x, made, h) back = back ∙ h ∙ made
  leaves (not_scaled e k) v u w h back = (
    ap (λ (x : View). x.image (stable_name input.service)) back
        ∙ Leads-image overflow (stable_name input.service) (forward_of T input (not_scaled e k)) v u
            ((λ o. refl), (scale-SparesImage, tt)) h,
    ap (λ (x : View). x.replicas (stable_name input.service)) back
        ∙ Leads-replicas overflow (stable_name input.service) (forward_of T input (not_scaled e k))
            v u ((λ o. refl), (scale-SparesReplicas, tt)) h,
  )
  leaves (not_baked e k) v u w h back =
      let (none_left, image, count) = down-Leaves u w back in
      let (image', count') = to_bake-Spares false v u h in
      (none_left, image ∙ image', count ∙ count')
  leaves (unhealthy p k f) v u w h back =
      let (none_left, image, count) = down-Leaves u w back in
      let (image', count') = to_bake-Spares true v u h in
      (none_left, image ∙ image', count ∙ count')
  leaves (not_shifted e k) v u w h back =
      let (none_left, image, _) = down-Leaves u w back in
      (
        none_left,
        image
            ∙ Leads-image overflow (stable_name input.service)
                (forward_of T input (not_shifted e k)) v u
                ((λ o. refl), (scale-SparesImage, ((λ o. refl), ((λ o. refl), tt)))) h,
      )
  leaves (expired s o human k b) v u w h back =
      let (none_left, image, count) = back-Leaves u w back in
      (none_left, image ∙ to_gate-Spares b "" "timeout" (no_approval T input) v u h, count)
  leaves (refused s signal human k f b) v u w h back =
      let (none_left, image, count) = back-Leaves u w back in
      (
        none_left,
        image ∙ to_gate-Spares b signal.actor "rejected" "promotion rejected" v u h,
        count,
      )
  leaves (not_promoted why b e k) v u w h back =
      let (none_left, _, count) = back-Leaves u w back in (none_left, count)
  leaves (rolled_out why b k) v u w (v₁, _, (v₂, _, (v₃, _, (v₄, _, (v₅, _, last))))) back =
      subst (InForce input) (sym back) (
        after_promote-InForce overflow input (forward_step promote_opts (promote_call input) true)
          v₅ u refl refl last)

  module _ (view : T.State → View) (H : IsHost overflow T view input.service) where
    course-Leaves :
        (course : Course T input) (e : T.State) (out : Result CanaryResult × Run T)
        → Extends overflow T view (fresh T input e) out.1
        → (took : Took T input course out) → All (λ s. s.succeeded ≡ true) took.back
        → Leaves course (view e) (view out.1.engine)
    course-Leaves course e out x took undone =
        let (u, forward, back) =
          Leads-split overflow (forward_of T input course) took.back (view e) (view out.1.engine) (
            subst (λ xs. Leads overflow xs (view e) (view out.1.engine)) (sym x.adds ∙ took.splits)
              x.leads) in
        leaves course (view e) u (view out.1.engine) forward (
          Leads-replay overflow took.back u (view out.1.engine) undone back
          ∙ ap (λ cs. replay overflow cs u) took.asks)

    -- What a deploy leaves of the deployments, if each activity on the service's deployments has the
    -- effect of its attempts and all that is asked for on the disconnected context (the compensations
    -- and the alert) succeeds. The deploy takes one of its courses, and what is left is told by the
    -- course. Before the canary is scaled nothing has changed. A canary that was scaled is back at no
    -- replicas unless the scaling itself failed. Until the traffic is shifted the stable deployment
    -- keeps its replica count, and until the full rollout its image; after an expired or refused
    -- approval or a failed rollout it has its target count, and after a rollout that succeeded the new
    -- image is in force.
    pub canary_deploy-Leaves :
        (e : T.State)
        → All BackWorks (canary_deploy T input (fresh T input e)).1.steps
        → (course : Course T input) × Took T input course (canary_deploy T input (fresh T input e))
          × Leaves course (view e) (view (canary_deploy T input (fresh T input e)).1.engine)
    canary_deploy-Leaves e works =
        let (course, took) = canary_deploy-Takes T input e in
        (
          course,
          took,
          course-Leaves course e (canary_deploy T input (fresh T input e))
              (canary_deploy-Extends overflow T view input H e) took
              (back_works (forward_of T input course) took.back took.detached
                (subst (All BackWorks) took.splits works)),
        )
