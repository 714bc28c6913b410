-- ===== src/Activities/Health/Beats.antt =====
-- The bake comes to its end after its seconds, with one heartbeat for each.
use temporalops.Base.{
  ℕ, zero, suc, ◌+◌, ℤ, pos, pos_part, String, ◌<>◌, ◌≡◌, refl, ap, ◌∙◌, Option, none, some, List,
  [], ◌∷◌, ◌++◌, length, length-append, arith, Result, ok, err, Exec, continue, context, pure,
  ◌>>=◌, ◌>>◌, Bool-cases, inl, inr,
}
use temporalops.Kube.{Kube}
use temporalops.Client.{
  World, Heartbeat, second, progress, canary_name, api, k8s_client, deployment_status,
  record_heartbeat, namespace, or_one,
}
use temporalops.Activities.Health.{
  HealthInput, HealthResult, ready_text, judge, simulated, bake, injected, health_check,
}
use temporalops.Activities.Health.Bake.{continue-ok}

module _ (K : Kube) where
  abbrev pub beats : World K → ℕ
  beats w = length w.heartbeats

  continue-beats :
      {A B : Type 0} (f : A → Exec (World K) B) (out : Result A × World K)
      → ((a : A) (u : World K) → beats (f a u).1 ≡ beats u)
      → beats (continue f out).1 ≡ beats out.1
  continue-beats f (ok a, u) h = h a u
  continue-beats f (err e, u) h = refl

  k8s_client-beats : (w : World K) → beats (k8s_client K w).1 ≡ beats w
  unfolding k8s_client
  k8s_client-beats w = go w.cached refl
    where
      go : (o : Option (Result K.Clientset)) → w.cached ≡ o → beats (k8s_client K w).1 ≡ beats w
      go none h = rw h
      go (some r) h = rw h

  -- A poll records no heartbeat itself.
  deployment_status-beats :
      (name : String) (w : World K) → beats (deployment_status K name w).1 ≡ beats w
  unfolding deployment_status
  deployment_status-beats name w =
      continue-beats
        (λ c.
          context ("get deployment " <> name) (api K (K.get_deployment c namespace name)) >>= λ d.
          pure (d.ready_replicas, or_one d.replicas))
        (k8s_client K w) (λ c u. continue-beats _ (_, _) λ d v. refl)
      ∙ k8s_client-beats w

  one_more : (hs : List Heartbeat) (h : Heartbeat) → length (hs ++ (h ∷ [])) ≡ length hs + 1
  one_more hs h = length-append hs (h ∷ [])

  bake-beats :
      (name : String) (rounds : ℕ) (start counts : ℤ × ℤ) (w t : World K)
      → bake K name rounds start w ≡ (ok counts, t)
      → beats t ≡ beats w + rounds
  unfolding bake
  bake-beats name zero start counts w t e = omega (arith, ap (λ o. beats o.1) e)
  bake-beats name (suc rounds) start counts w t e =
      let next : ℤ × ℤ → Exec (World K) (ℤ × ℤ) = λ status.
        record_heartbeat K (progress (ready_text status.0 status.1 <> " ready"))
        >> bake K name rounds status in
      let (_, u, waited, e₁) =
        continue-ok (λ _. deployment_status K name >>= next) (api K K.wait_second w) counts t e in
      let (status, v, answered, e₂) = continue-ok next (deployment_status K name u) counts t e₁ in
      omega (
        arith,
        bake-beats name rounds status counts _ t e₂,
        one_more v.heartbeats (progress (ready_text status.0 status.1 <> " ready")),
        deployment_status-beats name u,
        ap (λ o. beats o.1) answered,
        ap (λ o. beats o.1) waited,
      )

  simulated-beats :
      (rounds i : ℕ) (w t : World K)
      → simulated K rounds i w ≡ (ok tt, t)
      → beats t ≡ beats w + rounds
  unfolding simulated
  simulated-beats zero i w t e = omega (arith, ap (λ o. beats o.1) e)
  simulated-beats (suc rounds) i w t e =
      let (_, u, waited, e₁) =
        continue-ok (λ _. record_heartbeat K (second (pos (i + 1))) >> simulated K rounds (i + 1))
          (api K K.wait_second w) tt t e in
      omega (
        arith,
        simulated-beats rounds (i + 1) _ t e₁,
        one_more u.heartbeats (second (pos (i + 1))),
        ap (λ o. beats o.1) waited,
      )

  -- A health check that gives a verdict has recorded exactly one heartbeat for each second of its
  -- bake, whether or not a failure is injected; a bake of no or of negative length has none.
  pub health_check-beats :
      (input : HealthInput) (r : HealthResult) (w t : World K)
      → health_check K input w ≡ (ok r, t)
      → beats t ≡ beats w + pos_part input.bake_seconds
  unfolding health_check
  health_check-beats input r w t e = elim (Bool-cases input.simulate_fail) [
    | inl fails ↦
        let (_, u, ran, e₁) =
          continue-ok (λ _. pure (injected K)) (simulated K (pos_part input.bake_seconds) 0 w) r t
            (rw fails at e) in
        omega
          (arith, simulated-beats (pos_part input.bake_seconds) 0 w u ran, ap (λ o. beats o.1) e₁)
    | inr real ↦
        let (counts, u, ran, e₁) =
          continue-ok (λ counts. pure (judge input.bake_seconds counts.0 counts.1))
            (bake K (canary_name input.service) (pos_part input.bake_seconds) (pos 0, pos 0) w) r t
            (rw real at e) in
        omega (
          arith,
          bake-beats (canary_name input.service) (pos_part input.bake_seconds) (pos 0, pos 0) counts
              w u ran,
          ap (λ o. beats o.1) e₁,
        )
  ]
