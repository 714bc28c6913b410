-- ===== src/Kube.antt =====
-- The Kubernetes API as the activities call it through client-go, which is not part of the
-- repository: an interface over an unknown state. What the code relies on is in `Kube.Laws`.
pub mod View
pub mod Laws
use temporalops.Base.{ℤ, String, Bool, Option, Exec}

-- `autoscalingv1.Scale`: `Spec.Replicas`, and what else the object carries.
pub record Scale (Meta : Type 0) : Type 0 where
  pub meta : Meta
  pub replicas : ℤ

-- The part of `appsv1.Deployment` that is read: `Spec.Replicas` (a pointer) and
-- `Status.ReadyReplicas`.
pub record Deployment : Type 0 where
  pub replicas : Option ℤ
  pub ready_replicas : ℤ

-- The strategic-merge patch, by the two strings that it quotes.
pub record ImagePatch : Type 0 where
  pub container : String
  pub image : String

pub record Kube : Type 1 where
  pub Cluster : Type 0
  pub Config : Type 0
  pub Clientset : Type 0
  pub Meta : Type 0
  -- `rest.InClusterConfig`
  pub in_cluster_config : Exec Cluster Config
  -- `clientcmd.NewNonInteractiveDeferredLoadingClientConfig(…).ClientConfig`
  pub local_config : Exec Cluster Config
  -- `kubernetes.NewForConfig`
  pub new_for_config : Config → Exec Cluster Clientset
  -- The calls of `c.AppsV1().Deployments(namespace)`; the texts are the namespace and the name.
  pub get_scale : Clientset → String → String → Exec Cluster (Scale Meta)
  pub update_scale : Clientset → String → String → Scale Meta → Exec Cluster (Unit {0})
  pub patch_image : Clientset → String → String → ImagePatch → Exec Cluster (Unit {0})
  pub dry_run_patch : Clientset → String → String → ImagePatch → Exec Cluster (Unit {0})
  pub get_deployment : Clientset → String → String → Exec Cluster Deployment
  -- One round of the `select` in the bake loop: a second passes, or the context is done and the
  -- result is `ctx.Err()`.
  pub wait_second : Exec Cluster (Unit {0})
