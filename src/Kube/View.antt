-- ===== src/Kube/View.antt =====
-- What the deployments of the namespace are asked to be, and the writes that change it. The image of
-- a deployment is that of the container that runs the application, which the manifests of
-- deploy/k8s/sample-app.yaml name `app`.
pub mod Converge
pub mod Isolation
use temporalops.Base.{
  ℤ, String, ◌≡◌, refl, ◌≢◌, fun_ext, Bool, Option, some, List, [], ◌∷◌, ◌++◌, All, arith, str_eq,
  if◌then◌else◌,
}
use text.Mathlib.TextEquality.{eq_iff}

-- The name of this container in the manifests.
abbrev pub app_container : String
app_container = "app"

pub record View : Type 0 where
  pub replicas : String → Option ℤ
  pub image : String → Option String

pub data Write : Type 0 where
  scale_to : String → ℤ → Write
  image_to : String → String → Write

-- The deployment that is written to.
abbrev pub target : Write → String
target (scale_to name _) = name
target (image_to name _) = name

-- All of the writes are to these deployments.
abbrev pub Within : (String → Type 0) → List Write → Type 0
Within Mine ws = All (λ w. Mine (target w)) ws

abbrev pub update {ℓ} : {A : Type ℓ} → String → A → (String → A) → String → A
update k v f j = if str_eq k j then v else f j

abbrev pub write : Write → View → View
write (scale_to name n) v = record v { replicas = update name (some n) v.replicas }
write (image_to name i) v = record v { image = update name (some i) v.image }

-- The first write is made first.
unfoldable pub apply : List Write → View → View
apply [] v = v
apply (w ∷ ws) v = apply ws (write w v)

pub apply-append : (us ws : List Write) (v : View) → apply (us ++ ws) v ≡ apply ws (apply us v)
unfolding apply
apply-append [] ws v = refl
apply-append (u ∷ us) ws v = apply-append us ws (write u v)

-- Asking for what is there already changes nothing.
pub write_same_scale :
    (name : String) (n : ℤ) (v : View) → v.replicas name ≡ some n → write (scale_to name n) v ≡ v
write_same_scale name n v h = λ i. record v { replicas = same i }
  where
    same : update name (some n) v.replicas ≡ v.replicas
    same = fun_ext (λ j. ground (arith, eq_iff name j))
