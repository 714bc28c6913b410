-- ===== src/Workflows/Canary/Phases.antt =====
-- The phases that the status query of a deploy shows, one after another.
use temporalops.Base.{String, ◌≡◌, true, false, List, [], ◌∷◌}
use temporalops.Workflows.Canary.{CanaryInput}

abbrev pub to_policy : List String
to_policy = "starting" ∷ "policy-check" ∷ []

abbrev pub to_scale : List String
to_scale = "starting" ∷ "policy-check" ∷ "scale-canary" ∷ []

abbrev pub to_bake : List String
to_bake = "starting" ∷ "policy-check" ∷ "scale-canary" ∷ "health-bake" ∷ []

abbrev pub to_shift : List String
to_shift = "starting" ∷ "policy-check" ∷ "scale-canary" ∷ "health-bake" ∷ "shift-traffic" ∷ []

module _ (input : CanaryInput) where
  -- Which phase may follow on which.
  pub data Next : String → String → Type 0 where
    checks : Next "starting" "policy-check"
    rejects : Next "policy-check" "policy-rejected"
    scales : Next "policy-check" "scale-canary"
    bakes : Next "scale-canary" "health-bake"
    shifts : Next "health-bake" "shift-traffic"
    awaits : input.auto_promote ≡ false → Next "shift-traffic" "awaiting-approval"
    approved : Next "awaiting-approval" "promote"
    released : input.auto_promote ≡ true → Next "shift-traffic" "promote"
    promotes : Next "promote" "promoted"

  -- Each phase but the first follows on the one before it.
  abbrev pub FollowOn : String → List String → Type 0
  FollowOn p [] = Unit
  FollowOn p (q ∷ ps) = Next p q × FollowOn q ps

  abbrev pub InOrder : List String → Type 0
  InOrder [] = ⊥
  InOrder (p ∷ ps) = (p ≡ "starting") × FollowOn p ps

-- What the query answers after these phases.
abbrev pub last_phase : List String → String
last_phase [] = ""
last_phase (p ∷ []) = p
last_phase (p ∷ q ∷ ps) = last_phase (q ∷ ps)
