-- ===== src/Workflows/Canary/Cluster/Served.antt =====
-- A deploy whose activities the workers execute: Temporal reports to the workflow what the attempts
-- at an activity came to, and the deployments of the cluster are as the attempts have left them.
use temporalops.Base.{ℤ, String, ◌≡◌, sym, subst, Result, ok, err}
use temporalops.Kube.{Kube}
use temporalops.Kube.View.{View}
use temporalops.Kube.Laws.{IsLawful}
use temporalops.Client.{World, namespace}
use temporalops.Audit.{Sqlite, Store}
use temporalops.Worker.Retries.{Attempts, Reaches, retries_converge}
use temporalops.Worker.Tasks.{writes_of}
use temporalops.Workflows.Options.{Duration, ActivityOptions}
use temporalops.Workflows.Engine.{Engine, Run, Scope, Call, Reply, is_ok}
use temporalops.Workflows.Canary.{CanaryInput, CanaryResult, promoted, canary_deploy}
use temporalops.Workflows.Canary.Balance.{fresh}
use temporalops.Client.Names.{Named}
use temporalops.Workflows.Canary.Isolation.{Own}
use temporalops.Workflows.Canary.Cluster.{After, IsHost}
use temporalops.Workflows.Canary.Cluster.Rollout.{InForce, promoted-InForce}

module _ (overflow : ℤ → ℤ → ℤ) (K : Kube) (S : Sqlite) (view : K.Cluster → View) where
  -- The attempts at a call take the cluster from one state to another, in whatever workers.
  pub data Serves (store : Store S) (c : Call)
      : K.Cluster → Result (Reply c) × K.Cluster → Type 0 where
    serves :
        (w t : World K) (r : Result (Reply c)) (k k' : K.Cluster)
        → view w.cluster ≡ view k
        → Attempts overflow K S view store c w (r, t)
        → view k' ≡ view t.cluster
        → Serves store c k (r, k')

  -- What is relied on in Temporal: it reports what the attempts at an activity have come to, and
  -- its own calls change no deployment.
  pub record IsServed (store : Store S) (T : Engine) (cluster : T.State → K.Cluster) : Type 0 where
    pub execute-Serves :
        (scope : Scope) (options : ActivityOptions) (c : Call) (e : T.State)
        → let out = T.execute scope options c e in Serves store c (cluster e) (out.0, cluster out.1)
    pub query-Idle :
        (name : String) (e : T.State)
        → view (cluster (T.set_query_handler name e).1) ≡ view (cluster e)
    pub select-Idle :
        (name : String) (d : Duration) (e : T.State)
        → view (cluster (T.select name d e).1) ≡ view (cluster e)

  After-of_Reaches :
      {A : Type 0} (c : Call) (w t : World K) (r : Result A)
      → Reaches overflow K S view (writes_of overflow c) w (r, t)
      → After overflow c (is_ok r) (view w.cluster) (view t.cluster)
  After-of_Reaches c w t (ok a) h = h
  After-of_Reaches c w t (err e) h = h

  module _ (service : String) (L : IsLawful K namespace view (Named service))
      (store : Store S) where
    Serves-After :
        (c : Call) (k : K.Cluster) (out : Result (Reply c) × K.Cluster)
        → Own overflow service c
        → Serves store c k out
        → After overflow c (is_ok out.0) (view k) (view out.1)
    Serves-After c _ _ own (serves w t r k k' from attempts to) =
        subst (After overflow c (is_ok r) (view k)) (sym to) (
          subst (λ v. After overflow c (is_ok r) v (view t.cluster)) from
            (After-of_Reaches c w t r
              (retries_converge overflow K S view L store c w (r, t) own attempts)))

    module _ (T : Engine) (cluster : T.State → K.Cluster) (H : IsServed store T cluster) where
      pub served-IsHost : IsHost overflow T (λ e. view (cluster e)) service
      served-IsHost = record {
        execute-After = λ scope options c e own.
            Serves-After c (cluster e) _ own (H.execute-Serves scope options c e);
        query-Reads = H.query-Idle;
        select-Reads = H.select-Idle;
      }

  -- From the workflow down to the API server, whatever attempts fail and whatever workers are lost
  -- on the way: if a deploy comes back as promoted, then in the cluster the stable deployment has
  -- the new image and its full count of replicas (the target, as an int32), and the canary has
  -- none. The API server keeps its laws for the two deployments of the service, and Temporal
  -- reports of each activity what its attempts by the workers have come to. Other deployments may
  -- be written to by others all the time.
  pub served_promoted-InForce :
      (input : CanaryInput) (L : IsLawful K namespace view (Named input.service)) (store : Store S)
      (T : Engine) (cluster : T.State → K.Cluster) (H : IsServed store T cluster) (e : T.State)
      (r : CanaryResult) (t : Run T)
      → canary_deploy T input (fresh T input e) ≡ (ok r, t)
      → r.status ≡ promoted
      → InForce input (view (cluster t.engine))
  served_promoted-InForce input L store T cluster H =
      promoted-InForce overflow T (λ e. view (cluster e)) input
        (served-IsHost input.service L store T cluster H)
