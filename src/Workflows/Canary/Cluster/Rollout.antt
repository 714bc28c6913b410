-- ===== src/Workflows/Canary/Cluster/Rollout.antt =====
-- What a promoted deploy leaves behind.
use mathlib.Core.List.{append-nil}
use text.Mathlib.TextEquality.{eq_iff}
use temporalops.Base.{
  ℤ, pos, to_int32, String, ◌≡◌, refl, sym, ap, ◌∙◌, subst, true, false, some, List, [], ◌∷◌, ◌++◌,
  ok, str_eq,
}
use temporalops.Kube.View.{View, Write, apply}
use temporalops.Kube.View.Converge.{replicas-apply, image-apply}
use temporalops.Client.{stable_name, canary_name}
use temporalops.Kube.View.Isolation.{str_eq_miss}
use temporalops.Client.Names.{names_differ}
use temporalops.Activities.Writes.{promote_writes}
use temporalops.Workflows.Engine.{Engine, Run, Step}
use temporalops.Workflows.Canary.{CanaryInput, CanaryResult, promoted, canary_deploy}
use temporalops.Workflows.Canary.History.{promote_call}
use temporalops.Workflows.Canary.Ending.{Ends, RolledOut, FinishAs}
use temporalops.Workflows.Canary.Balance.{fresh, canary_deploy-Ends}
use temporalops.Workflows.Canary.Cluster.{
  IsHost, Extends, canary_deploy-Extends, Leads, Leads-split, After,
}

-- The deployments of a service after a full rollout.
pub record InForce (input : CanaryInput) (v : View) : Type 0 where
  pub stable_image : v.image (stable_name input.service) ≡ some input.image_tag
  pub stable_replicas :
      v.replicas (stable_name input.service) ≡ some (to_int32 input.target_replicas)
  pub canary_replicas : v.replicas (canary_name input.service) ≡ some (pos 0)

pub names_unequal : (service : String) → str_eq (canary_name service) (stable_name service) ≡ false
names_unequal service = str_eq_miss _ _ (names_differ service service)

pub name_self : (name : String) → str_eq name name ≡ true
name_self name = (eq_iff name name).1 refl

abbrev rollout : CanaryInput → List Write
rollout input = promote_writes (record {
  service = input.service;
  image_tag = input.image_tag;
  target_replicas = input.target_replicas;
})

rollout-InForce : (input : CanaryInput) (v : View) → InForce input (apply (rollout input) v)
rollout-InForce input v = record {
  stable_image =
      image-apply (stable_name input.service) (rollout input) v
      ∙ (rw (name_self (stable_name input.service)));
  stable_replicas =
      replicas-apply (stable_name input.service) (rollout input) v
      ∙ (rw (names_unequal input.service, name_self (stable_name input.service)));
  canary_replicas =
      replicas-apply (canary_name input.service) (rollout input) v
      ∙ (rw (name_self (canary_name input.service)));
}

pub after_promote-InForce :
    (overflow : ℤ → ℤ → ℤ) (input : CanaryInput) (s : Step) (v w : View)
    → s.call ≡ promote_call input
    → s.succeeded ≡ true
    → Leads overflow (s ∷ []) v w
    → InForce input w
after_promote-InForce overflow input s v w c y (u, a, same) =
    subst (InForce input) (sym (same ∙ made)) (rollout-InForce input v)
  where
    made : u ≡ apply (rollout input) v
    made = subst (λ k. After overflow k true v u) c (subst (λ b. After overflow s.call b v u) y a)

module _ (overflow : ℤ → ℤ → ℤ) (T : Engine) (view : T.State → View) where
  Ends-RolledOut :
      (input : CanaryInput) (r : CanaryResult) (t : Run T)
      → Ends T input (ok r, t)
      → r.status ≡ promoted
      → RolledOut input t.steps
  Ends-RolledOut input r t h p =
      let (rolled, none_back) = subst (λ st. FinishAs input st r h.fwd h.back) p h.finish in
      subst (RolledOut input) (sym (h.splits ∙ ap (λ xs. h.fwd ++ xs) none_back ∙ append-nil h.fwd))
        rolled

  -- If a deploy comes back as promoted, the stable deployment has the new image and its full count
  -- of replicas (the target, as an int32), and the canary has none. Each activity on these two
  -- deployments is relied on to have the effect of its attempts.
  pub promoted-InForce :
      (input : CanaryInput) (H : IsHost overflow T view input.service) (e : T.State)
      (r : CanaryResult) (t : Run T)
      → canary_deploy T input (fresh T input e) ≡ (ok r, t)
      → r.status ≡ promoted
      → InForce input (view t.engine)
  promoted-InForce input H e r t done p =
      let (before, last, splits, call, succeeded) =
        Ends-RolledOut input r t (subst (Ends T input) done (canary_deploy-Ends T input e)) p in
      let x : Extends overflow T view (fresh T input e) t =
        subst (λ out. Extends overflow T view (fresh T input e) out.1) done
          (canary_deploy-Extends overflow T view input H e) in
      let (u, early, late) =
        Leads-split overflow before (last ∷ []) (view e) (view t.engine) (
          subst (λ xs. Leads overflow xs (view e) (view t.engine)) (sym x.adds ∙ splits) x.leads) in
      after_promote-InForce overflow input last u (view t.engine) call succeeded late
