-- ===== src/Tests/Cluster.antt =====
-- A cluster in memory that keeps the laws of `Kube.Laws`: the specifications and nothing else.
use temporalops.Base.{
  ℤ, String, pos, ◌≡◌, refl, ap, Option, none, some, ok, Error, new_error, Exec, pure, raise, true,
  [], str_eq, if◌then◌else◌,
}
use temporalops.Kube.{Kube, Scale, Deployment, ImagePatch}
use temporalops.Kube.View.{View, scale_to, image_to, write}
use temporalops.Kube.Laws.{IsLawful}
use temporalops.Client.{World, namespace}

abbrev pub not_found : Error
not_found = record (new_error "not found") { is_not_found = true; is_api_status = true }

abbrev pub shown : Option ℤ → Exec View (Scale (Unit {0}))
shown none = raise not_found
shown (some n) = pure (record { meta = tt; replicas = n })

-- Every replica that is asked for is ready.
abbrev pub deployed : Option ℤ → Exec View Deployment
deployed none = raise not_found
deployed (some n) = pure (record { replicas = some n; ready_replicas = n })

-- A patch of a container that the deployment does not have leaves the image of the application.
abbrev pub patched : String → ImagePatch → View → View
patched name p v = if str_eq p.container "app" then write (image_to name p.image) v else v

pub patched-app :
    (name : String) (p : ImagePatch) (v : View)
    → p.container ≡ "app"
    → patched name p v ≡ write (image_to name p.image) v
patched-app name p v e = rw e refl

abbrev pub memory : Kube
memory = record {
  Cluster = View;
  Config = Unit;
  Clientset = Unit;
  Meta = Unit;
  in_cluster_config = pure tt;
  local_config = pure tt;
  new_for_config = λ _. pure tt;
  get_scale = λ _ _ name v. shown (v.replicas name) v;
  update_scale = λ _ _ name x v. (ok tt, write (scale_to name x.replicas) v);
  patch_image = λ _ _ name p v. (ok tt, patched name p v);
  dry_run_patch = λ _ _ _ _. pure tt;
  get_deployment = λ _ _ name v. deployed (v.replicas name) v;
  wait_second = pure tt;
}

abbrev pub whole : View → View
whole v = v

pub shown-Reads : (o : Option ℤ) (v : View) → (shown o v).1 ≡ v
shown-Reads none v = refl
shown-Reads (some n) v = refl

pub deployed-Reads : (o : Option ℤ) (v : View) → (deployed o v).1 ≡ v
deployed-Reads none v = refl
deployed-Reads (some n) v = refl

pub shown_shows :
    (o : Option ℤ) (v v' : View) (x : Scale (Unit {0}))
    → shown o v ≡ (ok x, v')
    → o ≡ some x.replicas
shown_shows none v v' x e = cc
shown_shows (some n) v v' x e = ap (λ y. some y.replicas) same
  where
    same : record { meta = tt; replicas = n } ≡ x
    same = cc e

pub memory-IsLawful : {Mine : String → Type 0} → IsLawful memory namespace whole Mine
memory-IsLawful = record {
  in_cluster_config-Reads = λ c. refl;
  local_config-Reads = λ c. refl;
  new_for_config-Reads = λ f c. refl;
  get_scale-Reads = λ s name c. shown-Reads (c.replicas name) c;
  get_deployment-Reads = λ s name c. deployed-Reads (c.replicas name) c;
  dry_run-Reads = λ s name p c. refl;
  wait-Reads = λ c. refl;
  get_scale_shows = λ s name c c' x _ e. shown_shows (c.replicas name) c c' x e;
  update_scale-Wrote = λ s name x c _. refl;
  patch_image-Wrote = λ s name p c _ e. patched-app name p c e;
}

-- Every deployment asks for four replicas.
abbrev pub at_rest : View
at_rest = record { replicas = λ _. some (pos 4); image = λ _. some "app:1" }

abbrev pub world : World memory
world = record { cached = none; cluster = at_rest; heartbeats = [] }
