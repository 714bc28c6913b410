-- ===== src/Activities/Writes.antt =====
-- The writes that each activity promises, and that it keeps the promise: all of them on success, a
-- first part on failure, from every state of the cluster.
use temporalops.Base.{
  ℕ, zero, suc, ◌+◌, ℤ, pos, to_int32, some, List, [], ◌∷◌, Result, ok, err, attempt, refl, Exec,
  String, Bool-cases, inl, inr,
}
use temporalops.Kube.{Kube}
use temporalops.Kube.View.{View, Write, scale_to, image_to, apply, Within}
use temporalops.Kube.Laws.{IsLawful}
use temporalops.Client.{
  World, namespace, canary_name, stable_name, is_infra_error, record_heartbeat, Heartbeat,
}
use temporalops.Client.Plans.{
  Makes, Does-attempt, Makes-pure, Makes-raise, Makes-bind, Makes-read, scale_deployment-Makes,
  set_image-Makes, dry_run_set_image-Makes, deployment_status-Makes,
}
use temporalops.Activities.Policy.{PolicyInput, verdict, policy_check}
use temporalops.Activities.Scale.{ScaleInput, scale_canary, scale_down_canary}
use temporalops.Activities.Health.{HealthInput, simulated, bake, health_check}
use temporalops.Activities.Traffic.{
  TrafficInput, at_least_one, split, shift_traffic, shift_traffic_back,
}
use temporalops.Activities.Promote.{PromoteInput, promote}

abbrev pub up_writes : ScaleInput → List Write
up_writes input =
    image_to (canary_name input.service) input.image_tag
    ∷ scale_to (canary_name input.service) (to_int32 input.replicas)
    ∷ []

abbrev pub down_writes : ScaleInput → List Write
down_writes input = scale_to (canary_name input.service) (pos 0) ∷ []

abbrev pub shift_writes : (ℤ → ℤ → ℤ) → TrafficInput → List Write
shift_writes overflow input =
    scale_to (canary_name input.service) (split overflow input).0
    ∷ scale_to (stable_name input.service) (split overflow input).1
    ∷ []

abbrev pub back_writes : TrafficInput → List Write
back_writes input =
    scale_to (canary_name input.service) (pos 0)
    ∷ scale_to (stable_name input.service) (to_int32 (at_least_one input.target_replicas))
    ∷ []

abbrev pub promote_writes : PromoteInput → List Write
promote_writes input =
    image_to (stable_name input.service) input.image_tag
    ∷ scale_to (stable_name input.service) (to_int32 input.target_replicas)
    ∷ scale_to (canary_name input.service) (pos 0)
    ∷ []

module _ (K : Kube) (view : K.Cluster → View) {Mine : String → Type 0}
    (L : IsLawful K namespace view Mine) where
  -- `ScaleCanary` sets the canary's image and its replica count.
  pub scale_canary-Makes :
      (input : ScaleInput)
      → Within Mine (up_writes input)
      → Makes K view (up_writes input) (scale_canary K input)
  unfolding scale_canary
  scale_canary-Makes input (mine, (mine', _)) =
      Makes-bind K view (_ ∷ []) (_ ∷ []) _ _ (set_image-Makes K view L _ _ mine) λ _.
        Makes-bind K view (_ ∷ []) [] _ _ (scale_deployment-Makes K view L _ _ mine') λ _.
          Makes-bind K view [] [] _ _ (deployment_status-Makes K view L _) λ _. Makes-pure K view _

  -- `ScaleDownCanary` sets the canary's replica count to 0.
  pub scale_down_canary-Makes :
      (input : ScaleInput)
      → Within Mine (down_writes input)
      → Makes K view (down_writes input) (scale_down_canary K input)
  unfolding scale_down_canary
  scale_down_canary-Makes input (mine, _) = scale_deployment-Makes K view L _ _ mine

  pub promote-Makes :
      (input : PromoteInput)
      → Within Mine (promote_writes input)
      → Makes K view (promote_writes input) (promote K input)
  unfolding promote
  promote-Makes input (mine, (mine', (mine'', _))) =
      Makes-bind K view (_ ∷ []) (_ ∷ _ ∷ []) _ _ (set_image-Makes K view L _ _ mine) λ _.
        Makes-bind K view (_ ∷ []) (_ ∷ []) _ _ (scale_deployment-Makes K view L _ _ mine')
          λ _. scale_deployment-Makes K view L _ _ mine''

  pub shift_traffic_back-Makes :
      (input : TrafficInput)
      → Within Mine (back_writes input)
      → Makes K view (back_writes input) (shift_traffic_back K input)
  unfolding shift_traffic_back
  shift_traffic_back-Makes input (mine, (mine', _)) =
      Makes-bind K view (_ ∷ []) (_ ∷ []) _ _ (scale_deployment-Makes K view L _ _ mine)
        λ _. scale_deployment-Makes K view L _ _ mine'

  pub shift_traffic-Makes :
      (overflow : ℤ → ℤ → ℤ) (input : TrafficInput)
      → Within Mine (shift_writes overflow input)
      → Makes K view (shift_writes overflow input) (shift_traffic overflow K input)
  unfolding shift_traffic
  shift_traffic-Makes overflow input (mine, (mine', _)) = elim (Bool-cases input.simulate_fail) [
    | inl fails ↦ rw fails (Makes-raise K view (Unit {0}) _ _)
    | inr works ↦ rw works (
        Makes-bind K view (_ ∷ []) (_ ∷ []) _ _ (scale_deployment-Makes K view L _ _ mine)
          λ _. scale_deployment-Makes K view L _ _ mine')
  ]

  Makes-attempt :
      {A : Type 0} (m : Exec (World K) A) → Makes K view [] m → Makes K view [] (attempt m)
  Makes-attempt m h = record { at = λ w. Does-attempt K view w (m w) (h.at w) }

  verdict-Makes : (r : Result (Unit {0})) → Makes K view [] (verdict K r)
  unfolding verdict
  verdict-Makes (ok _) = Makes-pure K view _
  verdict-Makes (err e) = elim (Bool-cases (is_infra_error (some e))) [
    | inl infra ↦ rw infra (Makes-raise K view _ [] e)
    | inr denied ↦ rw denied (Makes-pure K view _)
  ]

  -- `PolicyCheck` changes no deployment, whatever it finds.
  pub policy_check-Makes : (input : PolicyInput) → Makes K view [] (policy_check K input)
  unfolding policy_check
  policy_check-Makes input = elim (Bool-cases input.simulate_reject) [
    | inl rejects ↦ rw rejects (Makes-pure K view _)
    | inr checks ↦ rw checks (
        Makes-bind K view [] [] _ _ (Makes-attempt _ (dry_run_set_image-Makes K view L _ _))
          verdict-Makes)
  ]

  beat-Makes : (h : Heartbeat) → Makes K view [] (record_heartbeat K h)
  unfolding apply
  beat-Makes h = record { at = λ w. refl }

  simulated-Makes : (rounds i : ℕ) → Makes K view [] (simulated K rounds i)
  unfolding simulated
  simulated-Makes zero i = Makes-pure K view _
  simulated-Makes (suc rounds) i =
      Makes-bind K view [] [] _ _ (Makes-read K view _ L.wait-Reads)
        λ _. Makes-bind K view [] [] _ _ (beat-Makes _) λ _. simulated-Makes rounds (i + 1)

  bake-Makes :
      (name : String) (rounds : ℕ) (counts : ℤ × ℤ) → Makes K view [] (bake K name rounds counts)
  unfolding bake
  bake-Makes name zero counts = Makes-pure K view _
  bake-Makes name (suc rounds) counts =
      Makes-bind K view [] [] _ _ (Makes-read K view _ L.wait-Reads) λ _.
        Makes-bind K view [] [] _ _ (deployment_status-Makes K view L name)
          λ status. Makes-bind K view [] [] _ _ (beat-Makes _) λ _. bake-Makes name rounds status

  -- `HealthCheck` changes no deployment.
  pub health_check-Makes : (input : HealthInput) → Makes K view [] (health_check K input)
  unfolding health_check
  health_check-Makes input = elim (Bool-cases input.simulate_fail) [
    | inl fails ↦
        rw fails (Makes-bind K view [] [] _ _ (simulated-Makes _ 0) λ _. Makes-pure K view _)
    | inr works ↦ rw works (Makes-bind K view [] [] _ _ (bake-Makes _ _ _) λ _. Makes-pure K view _)
  ]
