-- ===== src/Client.antt =====
-- internal/activities/k8s_client.go: the cached client and the calls that the activities share.
pub mod Plans
pub mod Once
pub mod Names
use temporalops.Base.{
  ℤ, pos, ◌==ℤ◌, [], ◌∷◌, ◌++◌, String, ◌<>◌, show, Bool, true, false, not, ◌||◌, Option, none,
  some, List, Error, wrap, Result, ok, err, Exec, pure, context, modify, ◌>>=◌, ◌>>◌, if◌then◌else◌,
}
use temporalops.Kube.{Kube, Scale, ImagePatch, Deployment}

abbrev pub namespace : String
namespace = "temporalops"

abbrev pub container_name : String
container_name = "app"

unfoldable pub stable_name : String → String
stable_name service = service <> "-stable"

unfoldable pub canary_name : String → String
canary_name service = service <> "-canary"

-- The argument of `activity.RecordHeartbeat`: the second of an injected failure, or the text that
-- a poll gives.
pub data Heartbeat : Type 0 where
  second : ℤ → Heartbeat
  progress : String → Heartbeat

-- Whether an error is a transient failure of the infrastructure. `none` is the nil error.
unfoldable pub is_infra_error : Option Error → Bool
is_infra_error none = false
is_infra_error (some e) =
    if e.is_server_timeout
      || e.is_service_unavailable
      || (e.is_timeout || e.is_internal_error)
      || (e.is_too_many_requests || e.is_not_found)
    then true
    else not e.is_api_status

abbrev image_patch : String → ImagePatch
image_patch image = record { container = container_name; image = image }

abbrev pub or_one : Option ℤ → ℤ
or_one none = pos 1
or_one (some n) = n

module _ (K : Kube) where
  -- What an activity works on. `cached` is `cachedClient` and `clientErr` once `clientOnce` has
  -- run; `heartbeats` is what was recorded, oldest first.
  pub record World : Type 0 where
    pub cached : Option (Result K.Clientset)
    pub cluster : K.Cluster
    pub heartbeats : List Heartbeat

  -- A call of the API server.
  abbrev pub api : {A : Type 0} → Exec K.Cluster A → Exec World A
  api m w = let (r, c) = m w.cluster in (r, record w { cluster = c })

  abbrev or_local : Result K.Config → Exec K.Cluster K.Config
  or_local (ok config) = pure config
  or_local (err _) = K.local_config

  -- The function that `clientOnce` runs.
  unfoldable pub load_client : Exec K.Cluster K.Clientset
  load_client c =
      let (found, c₁) = K.in_cluster_config c in
      (context "load kube config" (or_local found) >>= K.new_for_config) c₁

  abbrev first_load : Exec World K.Clientset
  first_load w =
      let (r, c) = load_client w.cluster in (r, record w { cached = some r; cluster = c })

  unfoldable pub k8s_client : Exec World K.Clientset
  k8s_client w = elim w.cached [ none ↦ first_load w | some r ↦ (r, w) ]

  abbrev write_scale : K.Clientset → String → ℤ → Scale K.Meta → Exec World (Unit {0})
  write_scale c name replicas scale =
      if scale.replicas ==ℤ replicas
      then pure tt
      else context ("update scale " <> name <> " -> " <> show replicas)
          (api (K.update_scale c namespace name (record scale { replicas = replicas })))

  unfoldable pub scale_deployment : String → ℤ → Exec World (Unit {0})
  scale_deployment name replicas = do
    c ← k8s_client
    scale ← context ("get scale " <> name) (api (K.get_scale c namespace name))
    write_scale c name replicas scale

  unfoldable pub set_image : String → String → Exec World (Unit {0})
  set_image name image = do
    c ← k8s_client
    context ("patch image " <> name <> " -> " <> image)
        (api (K.patch_image c namespace name (image_patch image)))

  unfoldable pub dry_run_set_image : String → String → Exec World (Unit {0})
  dry_run_set_image name image = do
    c ← k8s_client
    api (K.dry_run_patch c namespace name (image_patch image))

  -- The ready and the desired replica counts. On an error the source returns two zeros beside it.
  unfoldable pub deployment_status : String → Exec World (ℤ × ℤ)
  deployment_status name = do
    c ← k8s_client
    d ← context ("get deployment " <> name) (api (K.get_deployment c namespace name))
    pure (d.ready_replicas, or_one d.replicas)

  -- `activity.RecordHeartbeat`
  abbrev pub record_heartbeat : Heartbeat → Exec World (Unit {0})
  record_heartbeat h = modify (λ w. record w { heartbeats = w.heartbeats ++ (h ∷ []) })
