-- ===== src/Activities/Policy/Verdicts.antt =====
-- What a verdict of the policy gate means: an error is worth another attempt, a denial is not.
use temporalops.Base.{
  ◌≡◌, refl, ◌↔◌, true, false, some, Error, Result, ok, err, arith, Bool-cases, inl, inr,
}
use temporalops.Kube.{Kube}
use temporalops.Client.{World, canary_name, is_infra_error, dry_run_set_image}
use temporalops.Activities.Policy.{PolicyInput, PolicyResult, verdict, policy_check}

-- A denial by the API server: a structured status that is none of the transient kinds, and does
-- not say that the deployment is missing.
pub record IsDenial (e : Error) : Type 0 where
  pub structured : e.is_api_status ≡ true
  pub no_server_timeout : e.is_server_timeout ≡ false
  pub no_service_unavailable : e.is_service_unavailable ≡ false
  pub no_timeout : e.is_timeout ≡ false
  pub no_internal_error : e.is_internal_error ≡ false
  pub no_too_many_requests : e.is_too_many_requests ≡ false
  pub no_not_found : e.is_not_found ≡ false

-- A failure that says nothing of the image: one of the transient kinds, a missing deployment, or an
-- error that is not the API server's own answer.
pub data IsTransient (e : Error) : Type 0 where
  server_timeout : e.is_server_timeout ≡ true → IsTransient e
  service_unavailable : e.is_service_unavailable ≡ true → IsTransient e
  timeout : e.is_timeout ≡ true → IsTransient e
  internal_error : e.is_internal_error ≡ true → IsTransient e
  too_many_requests : e.is_too_many_requests ≡ true → IsTransient e
  not_found : e.is_not_found ≡ true → IsTransient e
  unstructured : e.is_api_status ≡ false → IsTransient e

-- An error counts as a denial exactly if it is one.
pub is_infra_error-false_iff : (e : Error) → (is_infra_error (some e) ≡ false) ↔ IsDenial e
unfolding is_infra_error
is_infra_error-false_iff e = (λ h. ground arith, λ d. ground arith)

-- An error that does not count as a denial has one of these kinds.
is_infra_error-IsTransient : (e : Error) → is_infra_error (some e) ≡ true → IsTransient e
unfolding is_infra_error
is_infra_error-IsTransient e h = elim (Bool-cases e.is_server_timeout) [
  | inl a ↦ server_timeout a
  | inr na ↦ elim (Bool-cases e.is_service_unavailable) [
    | inl b ↦ service_unavailable b
    | inr nb ↦ elim (Bool-cases e.is_timeout) [
      | inl c ↦ timeout c
      | inr nc ↦ elim (Bool-cases e.is_internal_error) [
        | inl d ↦ internal_error d
        | inr nd ↦ elim (Bool-cases e.is_too_many_requests) [
          | inl f ↦ too_many_requests f
          | inr nf ↦ elim (Bool-cases e.is_not_found) [
            | inl g ↦ not_found g
            | inr ng ↦ unstructured (ground arith)
          ]
        ]
      ]
    ]
  ]
]

-- Nor is a denial of such a kind.
IsTransient-not_denial : (e : Error) → IsTransient e → IsDenial e → ⊥
IsTransient-not_denial e (server_timeout h) d = let k = d.no_server_timeout in cc
IsTransient-not_denial e (service_unavailable h) d = let k = d.no_service_unavailable in cc
IsTransient-not_denial e (timeout h) d = let k = d.no_timeout in cc
IsTransient-not_denial e (internal_error h) d = let k = d.no_internal_error in cc
IsTransient-not_denial e (too_many_requests h) d = let k = d.no_too_many_requests in cc
IsTransient-not_denial e (not_found h) d = let k = d.no_not_found in cc
IsTransient-not_denial e (unstructured h) d = let k = d.structured in cc

module _ (K : Kube) where
  abbrev dry_run : PolicyInput → World K → Result (Unit {0})
  dry_run input w = (dry_run_set_image K (canary_name input.service) input.image_tag w).0

  -- What the gate says, by what the dry run says.
  abbrev pub Says : PolicyInput → Result (Unit {0}) → Result PolicyResult → Type 0
  Says input (ok _) (ok r) = r.allowed ≡ true
  Says input (ok _) (err x) = ⊥
  Says input (err e) (ok r) = IsDenial e × (r.allowed ≡ false) × (r.reason ≡ e.text)
  Says input (err e) (err x) = (x ≡ e) × IsTransient e × ¬ IsDenial e

  Says-verdict :
      (input : PolicyInput) (d : Result (Unit {0})) (w : World K) → Says input d (verdict K d w).0
  unfolding verdict
  Says-verdict input (ok _) w = refl
  Says-verdict input (err e) w = elim (Bool-cases (is_infra_error (some e))) [
    | inl infra ↦
        let kind = is_infra_error-IsTransient e infra in
        rw infra (refl, kind, IsTransient-not_denial e kind)
    | inr denied ↦ rw denied ((is_infra_error-false_iff e).0 denied, refl, refl)
  ]

  -- Without an injected rejection the gate follows the dry run of the image on the canary
  -- deployment: it allows the image if the dry run is admitted, rejects it with the server's text
  -- if the server denies it, and fails with the same error, to be retried, if it is
  -- of a transient kind, says that the deployment is missing, or is no answer of the server.
  -- What is denied is thus never retried, and what is not never rejected.
  pub policy_check-Says :
      (input : PolicyInput) (w : World K)
      → input.simulate_reject ≡ false
      → Says input (dry_run input w) (policy_check K input w).0
  unfolding policy_check
  policy_check-Says input w real = rw real (
      Says-verdict input (dry_run input w)
        (dry_run_set_image K (canary_name input.service) input.image_tag w).1)
