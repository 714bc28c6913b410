-- ===== src/Workflows/Canary/Cluster/Footprint.antt =====
-- What some activities do not touch, and what a row of successful ones adds up to.
use temporalops.Base.{
  ℤ, String, ◌≡◌, sym, ap, ◌∙◌, subst, Bool, true, false, Option, List, [], ◌∷◌, All, ◌++◌,
}
use temporalops.Kube.View.{View, apply}
use temporalops.Kube.View.Converge.{scaled, imaged, replicas-apply, image-apply}
use temporalops.Worker.Tasks.{writes_of}
use temporalops.Workflows.Engine.{Call, Step, disconnected}
use temporalops.Workflows.Canary.History.{calls, IsDetached}
use temporalops.Workflows.Canary.Cluster.{After, Leads}

-- What is asked for on the disconnected context succeeds.
abbrev pub BackWorks : Step → Type 0
BackWorks s = s.scope ≡ disconnected → s.succeeded ≡ true

pub back_works :
    (fwd back : List Step)
    → All IsDetached back
    → All BackWorks (fwd ++ back)
    → All (λ s. s.succeeded ≡ true) back
back_works [] [] d w = tt
back_works [] (s ∷ back) d w = (w.0 d.0, back_works [] back d.1 w.1)
back_works (f ∷ fwd) back d w = back_works fwd back d w.1

module _ (overflow : ℤ → ℤ → ℤ) where
  -- The activity has no write of the replicas, or of the image, of this deployment.
  abbrev pub SparesReplicas : String → Call → Type 0
  SparesReplicas n c = (o : Option ℤ) → scaled n (writes_of overflow c) o ≡ o

  abbrev pub SparesImage : String → Call → Type 0
  SparesImage n c = (o : Option String) → imaged n (writes_of overflow c) o ≡ o

  After-replicas :
      (n : String) (c : Call) (b : Bool) (v v' : View)
      → SparesReplicas n c
      → After overflow c b v v'
      → v'.replicas n ≡ v.replicas n
  After-replicas n c true v v' spares h =
      ap (λ (x : View). x.replicas n) h
      ∙ replicas-apply n (writes_of overflow c) v
      ∙ spares (v.replicas n)
  After-replicas n c false v v' spares h =
      sym (replicas-apply n (writes_of overflow c) v' ∙ spares (v'.replicas n))
      ∙ ap (λ (x : View). x.replicas n) h
      ∙ replicas-apply n (writes_of overflow c) v
      ∙ spares (v.replicas n)

  After-image :
      (n : String) (c : Call) (b : Bool) (v v' : View)
      → SparesImage n c
      → After overflow c b v v'
      → v'.image n ≡ v.image n
  After-image n c true v v' spares h =
      ap (λ (x : View). x.image n) h ∙ image-apply n (writes_of overflow c) v ∙ spares (v.image n)
  After-image n c false v v' spares h =
      sym (image-apply n (writes_of overflow c) v' ∙ spares (v'.image n))
      ∙ ap (λ (x : View). x.image n) h
      ∙ image-apply n (writes_of overflow c) v
      ∙ spares (v.image n)

  pub Leads-replicas :
      (n : String) (steps : List Step) (v v' : View)
      → All (λ s. SparesReplicas n s.call) steps
      → Leads overflow steps v v'
      → v'.replicas n ≡ v.replicas n
  Leads-replicas n [] v v' spares h = ap (λ (x : View). x.replicas n) h
  Leads-replicas n (s ∷ steps) v v' (p, ps) (u, a, rest) =
      Leads-replicas n steps u v' ps rest ∙ After-replicas n s.call s.succeeded v u p a

  pub Leads-image :
      (n : String) (steps : List Step) (v v' : View)
      → All (λ s. SparesImage n s.call) steps
      → Leads overflow steps v v'
      → v'.image n ≡ v.image n
  Leads-image n [] v v' spares h = ap (λ (x : View). x.image n) h
  Leads-image n (s ∷ steps) v v' (p, ps) (u, a, rest) =
      Leads-image n steps u v' ps rest ∙ After-image n s.call s.succeeded v u p a

  -- The writes of these calls, one call after another.
  abbrev pub replay : List Call → View → View
  replay [] v = v
  replay (c ∷ cs) v = replay cs (apply (writes_of overflow c) v)

  pub Leads-replay :
      (steps : List Step) (v v' : View)
      → All (λ s. s.succeeded ≡ true) steps
      → Leads overflow steps v v'
      → v' ≡ replay (calls steps) v
  Leads-replay [] v v' all h = h
  Leads-replay (s ∷ steps) v v' (y, ys) (u, a, rest) =
      Leads-replay steps u v' ys rest
      ∙ ap (replay (calls steps)) (subst (λ b. After overflow s.call b v u) y a)
