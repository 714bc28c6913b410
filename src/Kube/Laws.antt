-- ===== src/Kube/Laws.antt =====
-- What the activities rely on in the API server, as documented: a read changes no deployment's
-- specification; a write that succeeds is in force; one that fails was made whole or not at all.
-- The laws are about some deployments, which `view` shows: nobody else writes to these meanwhile.
use temporalops.Base.{◌≡◌, ◌⊎◌, some, String, Exec, Result, ok, err}
use temporalops.Kube.{Kube, Scale, ImagePatch}
use temporalops.Kube.View.{View, Write, app_container, scale_to, image_to, write}

module _ (K : Kube) (ns : String) (view : K.Cluster → View) where
  -- The call leaves the specifications alone, whatever it returns.
  abbrev pub Reads : {A : Type 0} → Exec K.Cluster A → Type 0
  Reads m = (c : K.Cluster) → view (m c).1 ≡ view c

  abbrev pub Wrote : {A : Type 0} → Write → K.Cluster → Result A × K.Cluster → Type 0
  Wrote w c (ok _, c') = view c' ≡ write w (view c)
  Wrote w c (err _, c') = (view c' ≡ view c) ⊎ (view c' ≡ write w (view c))

  -- Of the deployments with these names.
  pub record IsLawful (Mine : String → Type 0) : Type 0 where
    pub in_cluster_config-Reads : Reads K.in_cluster_config
    pub local_config-Reads : Reads K.local_config
    pub new_for_config-Reads : (f : K.Config) → Reads (K.new_for_config f)
    pub get_scale-Reads : (s : K.Clientset) (name : String) → Reads (K.get_scale s ns name)
    pub get_deployment-Reads :
        (s : K.Clientset) (name : String) → Reads (K.get_deployment s ns name)
    pub dry_run-Reads :
        (s : K.Clientset) (name : String) (p : ImagePatch) → Reads (K.dry_run_patch s ns name p)
    pub wait-Reads : Reads K.wait_second
    -- The scale subresource shows the replica count of the specification.
    pub get_scale_shows :
        (s : K.Clientset) (name : String) (c c' : K.Cluster) (x : Scale K.Meta)
        → Mine name
        → K.get_scale s ns name c ≡ (ok x, c')
        → (view c).replicas name ≡ some x.replicas
    pub update_scale-Wrote :
        (s : K.Clientset) (name : String) (x : Scale K.Meta) (c : K.Cluster)
        → Mine name
        → Wrote (scale_to name x.replicas) c (K.update_scale s ns name x c)
    -- A strategic merge patch finds the container by its name. Of a patch that names another container
    -- than the application's nothing is said.
    pub patch_image-Wrote :
        (s : K.Clientset) (name : String) (p : ImagePatch) (c : K.Cluster)
        → Mine name
        → p.container ≡ app_container
        → Wrote (image_to name p.image) c (K.patch_image s ns name p c)
