-- ===== src/Workflows/Canary/Cluster.antt =====
-- What a deploy does to the deployments: the effects of the activities that it asks for, one after
-- another.
pub mod Rollout
pub mod Footprint
pub mod Rollback
pub mod Served
use temporalops.Base.{ℤ, String, ◌≡◌, refl, subst, Bool, true, false, List, [], ◌∷◌, ◌++◌, All}
use temporalops.Kube.View.{View, apply}
use temporalops.Worker.Tasks.{writes_of}
use temporalops.Workflows.Options.{Duration, ActivityOptions}
use temporalops.Workflows.Engine.{Engine, Run, Scope, Call, Step, is_ok}
use temporalops.Workflows.Canary.{CanaryInput, canary_deploy}
use temporalops.Workflows.Canary.Balance.{fresh}
use temporalops.Workflows.Canary.Isolation.{Own, OwnStep, canary_deploy-Own}
use temporalops.Workflows.Canary.Trace.{Trace, still, queried, selected, asked}
use temporalops.Workflows.Canary.Trace.Stages.{canary_deploy-Goes}

-- The effect of an activity with all its attempts: its writes if it succeeded; if it failed, making
-- them would still lead where it should have led.
abbrev pub After : (ℤ → ℤ → ℤ) → Call → Bool → View → View → Type 0
After overflow c true v v' = v' ≡ apply (writes_of overflow c) v
After overflow c false v v' = apply (writes_of overflow c) v' ≡ apply (writes_of overflow c) v

-- The effects of a list of steps lead from one view to another.
abbrev pub Leads : (ℤ → ℤ → ℤ) → List Step → View → View → Type 0
Leads overflow [] v v' = v' ≡ v
Leads overflow (s ∷ steps) v v' =
    (u : View) × After overflow s.call s.succeeded v u × Leads overflow steps u v'

pub Leads-append :
    (overflow : ℤ → ℤ → ℤ) (xs ys : List Step) (v u w : View)
    → Leads overflow xs v u
    → Leads overflow ys u w
    → Leads overflow (xs ++ ys) v w
Leads-append overflow [] ys v u w h k = subst (λ x. Leads overflow ys x w) h k
Leads-append overflow (x ∷ xs) ys v u w (z, a, h) k = (z, a, Leads-append overflow xs ys z u w h k)

pub Leads-split :
    (overflow : ℤ → ℤ → ℤ) (xs ys : List Step) (v w : View)
    → Leads overflow (xs ++ ys) v w
    → (u : View) × Leads overflow xs v u × Leads overflow ys u w
Leads-split overflow [] ys v w h = (v, refl, h)
Leads-split overflow (x ∷ xs) ys v w (z, a, h) =
    let (u, l, r) = Leads-split overflow xs ys z w h in (u, (z, a, l), r)

module _ (overflow : ℤ → ℤ → ℤ) (T : Engine) (view : T.State → View) where
  -- What is relied on in Temporal: an activity that writes only to the deployments of this service
  -- has the effect of its attempts, and Temporal's own calls change no deployment.
  pub record IsHost (service : String) : Type 0 where
    pub execute-After :
        (scope : Scope) (options : ActivityOptions) (c : Call) (e : T.State)
        → Own overflow service c
        → let out = T.execute scope options c e in
          After overflow c (is_ok out.0) (view e) (view out.1)
    pub query-Reads : (name : String) (e : T.State) → view (T.set_query_handler name e).1 ≡ view e
    pub select-Reads :
        (name : String) (d : Duration) (e : T.State) → view (T.select name d e).1 ≡ view e

  -- The run has gone on by some steps, whose effects lead on.
  pub record Extends (s t : Run T) : Type 0 where
    pub more : List Step
    pub adds : t.steps ≡ s.steps ++ more
    pub leads : Leads overflow more (view s.engine) (view t.engine)

  Trace-Leads :
      {service : String} (H : IsHost service) (e e' : T.State) (steps : List Step)
      → Trace T e steps e'
      → All (λ s. Own overflow service s.call) steps
      → Leads overflow steps (view e) (view e')
  Trace-Leads H e e' _ (still _) own = refl
  Trace-Leads H e e' steps (queried name _ _ _ h) own =
      subst (λ v. Leads overflow steps v (view e')) (H.query-Reads name e)
        (Trace-Leads H _ e' steps h own)
  Trace-Leads H e e' steps (selected name d _ _ _ h) own =
      subst (λ v. Leads overflow steps v (view e')) (H.select-Reads name d e)
        (Trace-Leads H _ e' steps h own)
  Trace-Leads H e e' _ (asked scope options c _ _ steps h) (own, others) =
      (_, H.execute-After scope options c e own, Trace-Leads H _ e' steps h others)

  pub canary_deploy-Extends :
      (input : CanaryInput) (H : IsHost input.service) (e : T.State)
      → Extends (fresh T input e) (canary_deploy T input (fresh T input e)).1
  canary_deploy-Extends input H e =
      let f = canary_deploy-Goes T input (fresh T input e) in
      record {
        more = f.more;
        adds = f.adds;
        leads =
            Trace-Leads H e _ f.more f.trace (
              subst (All (OwnStep overflow T input)) f.adds (canary_deploy-Own overflow T input e));
      }
