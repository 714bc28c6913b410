-- ===== src/Workflows/Orchestrator/Tallies.antt =====
-- The two lists of names in a release's report, and the list of results.
use mathlib.Core.List.{append-nil, Perm, perm_middle}
use mathlib.Core.List.Perm
use temporalops.Base.{
  String, ◌≡◌, refl, sym, ap, ◌∙◌, ◌↔◌, Bool, true, false, not, List, [], ◌∷◌, ◌++◌, map, All,
  arith, if◌then◌else◌, Bool-cases, inl, inr,
}
use temporalops.Workflows.Canary.{CanaryStatus, CanaryResult, promoted}
use temporalops.Workflows.Orchestrator.{ReleaseResult, is_nil, is_promoted, add_result}

-- The services whose result is of the given kind, in order.
abbrev pub services_where : Bool → List CanaryResult → List String
services_where b [] = []
services_where b (r ∷ rs) =
    let rest = services_where b rs in
    if is_promoted r.status
    then (if b then r.service ∷ rest else rest)
    else (if b then rest else r.service ∷ rest)

services_where-append :
    (b : Bool) (xs ys : List CanaryResult)
    → services_where b (xs ++ ys) ≡ services_where b xs ++ services_where b ys
services_where-append b [] ys = refl
services_where-append b (x ∷ xs) ys = ground (arith, services_where-append b xs ys)

-- Each result is in one of the two lists.
pub services_where-perm :
    (rs : List CanaryResult)
    → Perm (services_where true rs ++ services_where false rs) (map (λ r. r.service) rs)
services_where-perm [] = Perm.refl []
services_where-perm (r ∷ rs) = elim (Bool-cases (is_promoted r.status)) [
  | inl yes_it_is ↦ rw yes_it_is (Perm.cons r.service (services_where-perm rs))
  | inr not_it ↦ rw not_it (
      Perm.trans (perm_middle (services_where true rs) (services_where false rs))
        (Perm.cons r.service (services_where-perm rs)))
]

-- The two lists of names and the list of results tell the same.
pub record Tallies (r : ReleaseResult) : Type 0 where
  pub promoted_tally : r.promoted_services ≡ services_where true r.results
  pub other_tally : r.not_promoted ≡ services_where false r.results

pub add_result-Tallies :
    (res : CanaryResult) (r : ReleaseResult) → Tallies r → Tallies (add_result res r)
unfolding add_result
add_result-Tallies res r t = elim (Bool-cases (is_promoted res.status)) [
  | inl is ↦ rw is (record {
    promoted_tally = ap (λ xs. xs ++ (res.service ∷ [])) t.promoted_tally ∙ sym (added true is);
    other_tally = t.other_tally ∙ sym (added_none false is);
  })
  | inr isnt ↦ rw isnt (record {
    promoted_tally = t.promoted_tally ∙ sym (added_none true isnt);
    other_tally = ap (λ xs. xs ++ (res.service ∷ [])) t.other_tally ∙ sym (added false isnt);
  })
]
  where
    added :
        (b : Bool)
        → is_promoted res.status ≡ b
        → services_where b (r.results ++ (res ∷ []))
          ≡ services_where b r.results ++ (res.service ∷ [])
    added true e = services_where-append true r.results (res ∷ []) ∙ (rw e)
    added false e = services_where-append false r.results (res ∷ []) ∙ (rw e)

    added_none :
        (b : Bool)
        → is_promoted res.status ≡ not b
        → services_where b (r.results ++ (res ∷ [])) ≡ services_where b r.results
    added_none true e = services_where-append true r.results (res ∷ []) ∙ (rw e (append-nil _))
    added_none false e = services_where-append false r.results (res ∷ []) ∙ (rw e (append-nil _))

abbrev pub AllPromoted : List CanaryResult → Type 0
AllPromoted = All (λ x. x.status ≡ promoted)

cons_not_nil : (x : String) (xs : List String) → is_nil (x ∷ xs) ≡ true → ⊥
cons_not_nil x xs h = ground arith

none_left_cons :
    (status : CanaryStatus) (service : String) (names : List String) (P : Type 0)
    → (is_nil names ≡ true) ↔ P
    → (is_nil (if is_promoted status then names else service ∷ names) ≡ true)
      ↔ ((status ≡ promoted) × P)
none_left_cons promoted service names P ih = (λ h. (refl, ih.0 h), λ p. ih.1 p.1)
none_left_cons _ service names P ih =
    (λ h. absurd (cons_not_nil service names h), λ p. let e = p.0 in cc e)

pub none_left :
    (rs : List CanaryResult) → (is_nil (services_where false rs) ≡ true) ↔ AllPromoted rs
none_left [] = (λ _. tt, λ _. refl)
none_left (r ∷ rs) =
    none_left_cons r.status r.service (services_where false rs) (AllPromoted rs) (none_left rs)
