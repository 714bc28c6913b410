-- ===== src/Kube/View/Isolation.antt =====
-- Writes to other deployments, in between the writes to one, do not change what becomes of it.
use text.Mathlib.TextEquality.{eq_iff}
use temporalops.Base.{
  ℤ, String, ◌≡◌, ◌≢◌, refl, sym, ◌∙◌, Bool-cases, inl, inr, false, Option, List, [], ◌∷◌, All,
  str_eq,
}
use temporalops.Kube.View.{View, Write, scale_to, image_to, apply, target}
use temporalops.Kube.View.Converge.{scaled, imaged, replicas-apply, image-apply}

-- The third list has the elements of the other two, each list's in its own order.
pub data Shuffle {ℓ} {A : Type ℓ} : List A → List A → List A → Type ℓ where
  nothing : Shuffle [] [] []
  one_side : {x : A} {xs ys zs : List A} → Shuffle xs ys zs → Shuffle (x ∷ xs) ys (x ∷ zs)
  other_side : {y : A} {xs ys zs : List A} → Shuffle xs ys zs → Shuffle xs (y ∷ ys) (y ∷ zs)

abbrev pub Elsewhere : String → Write → Type 0
Elsewhere n w = target w ≢ n

pub str_eq_miss : (m n : String) → m ≢ n → str_eq m n ≡ false
str_eq_miss m n differ = elim (Bool-cases (str_eq m n)) [
  | inl hit ↦ absurd (differ ((eq_iff m n).0 hit))
  | inr miss ↦ miss
]

scaled-Shuffle :
    (n : String) {xs ys zs : List Write} (o : Option ℤ)
    → Shuffle xs ys zs
    → All (Elsewhere n) ys
    → scaled n zs o ≡ scaled n xs o
scaled-Shuffle n o nothing h = refl
scaled-Shuffle n o (one_side {x = scale_to m k} s) h = scaled-Shuffle n _ s h
scaled-Shuffle n o (one_side {x = image_to m i} s) h = scaled-Shuffle n o s h
scaled-Shuffle n o (other_side {y = scale_to m k} s) h =
    rw (str_eq_miss m n h.0) (scaled-Shuffle n o s h.1)
scaled-Shuffle n o (other_side {y = image_to m i} s) h = scaled-Shuffle n o s h.1

imaged-Shuffle :
    (n : String) {xs ys zs : List Write} (o : Option String)
    → Shuffle xs ys zs
    → All (Elsewhere n) ys
    → imaged n zs o ≡ imaged n xs o
imaged-Shuffle n o nothing h = refl
imaged-Shuffle n o (one_side {x = scale_to m k} s) h = imaged-Shuffle n o s h
imaged-Shuffle n o (one_side {x = image_to m i} s) h = imaged-Shuffle n _ s h
imaged-Shuffle n o (other_side {y = scale_to m k} s) h = imaged-Shuffle n o s h.1
imaged-Shuffle n o (other_side {y = image_to m i} s) h =
    rw (str_eq_miss m n h.0) (imaged-Shuffle n o s h.1)

-- The two views agree on a deployment.
pub record Agree (n : String) (v v' : View) : Type 0 where
  pub replicas : v.replicas n ≡ v'.replicas n
  pub image : v.image n ≡ v'.image n

pub Shuffle-Agree :
    (n : String) {xs ys zs : List Write} (v : View)
    → Shuffle xs ys zs
    → All (Elsewhere n) ys
    → Agree n (apply zs v) (apply xs v)
Shuffle-Agree n {xs} {ys} {zs} v s h = record {
  replicas = replicas-apply n zs v ∙ scaled-Shuffle n _ s h ∙ sym (replicas-apply n xs v);
  image = image-apply n zs v ∙ imaged-Shuffle n _ s h ∙ sym (image-apply n xs v);
}
