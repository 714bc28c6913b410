-- ===== src/Client/Once.antt =====
-- The client is loaded once, whether or not that succeeds.
use temporalops.Base.{ℤ, String, ◌≡◌, refl, ◌∙◌, Option, none, some, Error, Result, err}
use temporalops.Kube.{Kube}
use temporalops.Client.{
  World, k8s_client, scale_deployment, set_image, dry_run_set_image, deployment_status,
}

module _ (K : Kube) where
  k8s_client-cached :
      (w : World K) (r : Result K.Clientset) → w.cached ≡ some r → k8s_client K w ≡ (r, w)
  unfolding k8s_client
  k8s_client-cached w r h = rw h

  cached_after : (w : World K) → (k8s_client K w).1.cached ≡ some (k8s_client K w).0
  unfolding k8s_client
  cached_after w = go w.cached refl
    where
      go :
          (o : Option (Result K.Clientset))
          → w.cached ≡ o
          → (k8s_client K w).1.cached ≡ some (k8s_client K w).0
      go none h = rw h
      go (some r) h = rw h

  -- After one call of the client, each later call in a world with the same cache gives the same
  -- result, a failure too, and asks nothing of the cluster.
  pub k8s_client-once :
      (w later : World K)
      → later.cached ≡ (k8s_client K w).1.cached
      → k8s_client K later ≡ ((k8s_client K w).0, later)
  k8s_client-once w later same = k8s_client-cached later _ (same ∙ cached_after w)

  module _ (w : World K) (e : Error) (h : w.cached ≡ some (err e)) where
    pub scale_deployment_stuck : (name : String) (n : ℤ) → scale_deployment K name n w ≡ (err e, w)
    unfolding scale_deployment
    scale_deployment_stuck name n = rw (k8s_client-cached w (err e) h)

    pub set_image_stuck : (name image : String) → set_image K name image w ≡ (err e, w)
    unfolding set_image
    set_image_stuck name image = rw (k8s_client-cached w (err e) h)

    pub dry_run_set_image_stuck :
        (name image : String) → dry_run_set_image K name image w ≡ (err e, w)
    unfolding dry_run_set_image
    dry_run_set_image_stuck name image = rw (k8s_client-cached w (err e) h)

    pub deployment_status_stuck : (name : String) → deployment_status K name w ≡ (err e, w)
    unfolding deployment_status
    deployment_status_stuck name = rw (k8s_client-cached w (err e) h)
