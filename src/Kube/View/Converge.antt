-- ===== src/Kube/View/Converge.antt =====
-- Absolute writes converge: making a first part of a list of writes and then the whole list is the
-- same as making the list.
use temporalops.Base.{
  ℤ, String, ◌≡◌, refl, sym, ap, ◌∙◌, fun_ext, ◌⊎◌, inl, inr, Bool-cases, Option, some, List, [],
  ◌∷◌, ◌++◌, str_eq, if◌then◌else◌,
}
use temporalops.Kube.View.{View, Write, scale_to, image_to, apply, apply-append}

-- The value of one key after the writes, from its value before.
abbrev pub scaled : String → List Write → Option ℤ → Option ℤ
scaled n [] old = old
scaled n (scale_to m k ∷ ws) old = scaled n ws (if str_eq m n then some k else old)
scaled n (image_to m i ∷ ws) old = scaled n ws old

abbrev pub imaged : String → List Write → Option String → Option String
imaged n [] old = old
imaged n (scale_to m k ∷ ws) old = imaged n ws old
imaged n (image_to m i ∷ ws) old = imaged n ws (if str_eq m n then some i else old)

pub replicas-apply :
    (n : String) (ws : List Write) (v : View) → (apply ws v).replicas n ≡ scaled n ws (v.replicas n)
unfolding apply
replicas-apply n [] v = refl
replicas-apply n (scale_to m k ∷ ws) v = replicas-apply n ws _
replicas-apply n (image_to m i ∷ ws) v = replicas-apply n ws _

pub image-apply :
    (n : String) (ws : List Write) (v : View) → (apply ws v).image n ≡ imaged n ws (v.image n)
unfolding apply
image-apply n [] v = refl
image-apply n (scale_to m k ∷ ws) v = image-apply n ws _
image-apply n (image_to m i ∷ ws) v = image-apply n ws _

-- A function that keeps its argument or forgets it.
abbrev KeepsOrSets {ℓ} : {A : Type ℓ} → (Option A → Option A) → Type ℓ
KeepsOrSets {A} f = ((o : Option A) → f o ≡ o) ⊎ ((c : Option A) × ((o : Option A) → f o ≡ c))

idem_of_KeepsOrSets {ℓ} :
    {A : Type ℓ} (f : Option A → Option A) → KeepsOrSets f → (o : Option A) → f (f o) ≡ f o
idem_of_KeepsOrSets f (inl keeps) o = keeps (f o)
idem_of_KeepsOrSets f (inr (c, sets)) o = sets (f o) ∙ sym (sets o)

scaled-KeepsOrSets : (n : String) (ws : List Write) → KeepsOrSets (scaled n ws)
scaled-KeepsOrSets n [] = inl (λ o. refl)
scaled-KeepsOrSets n (scale_to m k ∷ ws) = elim (Bool-cases (str_eq m n)) [
  | inl hit ↦ rw hit (inr (scaled n ws (some k), λ o. refl))
  | inr miss ↦ rw miss (scaled-KeepsOrSets n ws)
]
scaled-KeepsOrSets n (image_to m i ∷ ws) = scaled-KeepsOrSets n ws

imaged-KeepsOrSets : (n : String) (ws : List Write) → KeepsOrSets (imaged n ws)
imaged-KeepsOrSets n [] = inl (λ o. refl)
imaged-KeepsOrSets n (scale_to m k ∷ ws) = imaged-KeepsOrSets n ws
imaged-KeepsOrSets n (image_to m i ∷ ws) = elim (Bool-cases (str_eq m n)) [
  | inl hit ↦ rw hit (inr (imaged n ws (some i), λ o. refl))
  | inr miss ↦ rw miss (imaged-KeepsOrSets n ws)
]

pub View-eq :
    (v v' : View)
    → ((n : String) → v.replicas n ≡ v'.replicas n)
    → ((n : String) → v.image n ≡ v'.image n)
    → v ≡ v'
View-eq v v' h k = λ i. record { replicas = fun_ext h i; image = fun_ext k i }

-- Making a list of writes twice is making it once.
pub apply_idem : (ws : List Write) (v : View) → apply ws (apply ws v) ≡ apply ws v
apply_idem ws v =
    View-eq _ _
      (λ n.
        replicas-apply n ws (apply ws v)
        ∙ ap (scaled n ws) (replicas-apply n ws v)
        ∙ idem_of_KeepsOrSets (scaled n ws) (scaled-KeepsOrSets n ws) (v.replicas n)
        ∙ sym (replicas-apply n ws v))
      (λ n.
        image-apply n ws (apply ws v)
        ∙ ap (imaged n ws) (image-apply n ws v)
        ∙ idem_of_KeepsOrSets (imaged n ws) (imaged-KeepsOrSets n ws) (v.image n)
        ∙ sym (image-apply n ws v))

-- So is making a first part of it before.
pub apply-prefix :
    (ws ps qs : List Write) (v : View) → ws ≡ ps ++ qs → apply ws (apply ps v) ≡ apply ws v
apply-prefix ws ps qs v e =
    rw e (
      apply-append ps qs (apply ps v)
      ∙ ap (apply qs) (apply_idem ps v)
      ∙ sym (apply-append ps qs v))
