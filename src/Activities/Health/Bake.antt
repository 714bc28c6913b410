-- ===== src/Activities/Health/Bake.antt =====
-- What it takes for the bake to find a canary healthy.
use temporalops.Base.{
  ℕ, ◌<◌, ℤ, pos, pos_part, ◌<ℤ◌, ◌==ℤ◌, String, ◌<>◌, ◌≡◌, refl, ◌⊎◌, false, Result, ok, err, Exec,
  continue, ◌>>◌,
}
use temporalops.Kube.{Kube}
use temporalops.Client.{World, progress, deployment_status, record_heartbeat}
use temporalops.Activities.Health.{ready_text, bake}

-- A chain that succeeds has succeeded at its first call.
pub continue-ok :
    {X A B : Type 0} (f : A → Exec X B) (out : Result A × X) (b : B) (t : X)
    → continue f out ≡ (ok b, t)
    → (a : A) × (u : X) × (out ≡ (ok a, u)) × (f a u ≡ (ok b, t))
continue-ok f (ok a, u) b t e = (a, u, refl, e)
continue-ok f (err x, u) b t e = cc

module _ (K : Kube) where
  -- A poll of the deployment has shown these counts.
  pub record Polled (name : String) (counts : ℤ × ℤ) : Type 0 where
    pub before : World K
    pub after : World K
    pub answer : deployment_status K name before ≡ (ok counts, after)

  abbrev next_round : String → ℕ → ℤ × ℤ → Exec (World K) (ℤ × ℤ)
  next_round name rounds status =
      record_heartbeat K (progress (ready_text status.0 status.1 <> " ready"))
      >> bake K name rounds status

  abbrev Last : String → ℕ → ℤ × ℤ → ℤ × ℤ → Type 0
  Last name rounds start counts =
      ((rounds ≡ 0) × (counts ≡ start)) ⊎ ((0 < rounds) × Polled name counts)

  -- What a healthy verdict stands on.
  abbrev pub Baked : String → ℤ → Type 0
  Baked name seconds =
      (0 < pos_part seconds)
      × ((counts : ℤ × ℤ) × Polled name counts
          × ((counts.1 ==ℤ pos 0) ≡ false)
          × ((counts.0 <ℤ counts.1) ≡ false))
