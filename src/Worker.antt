-- ===== src/Worker.antt =====
-- cmd/worker/main.go: the registered activities, behind the audit interceptor. The store is both
-- the interceptor's and the package's default, as `Worker.Startup` sets it up.
pub mod Tasks
pub mod Retries
pub mod Stuck
pub mod Startup
pub mod Logged
pub mod Recorded
use temporalops.Base.{ℤ, Option, some, Exec}
use temporalops.Kube.{Kube}
use temporalops.Client.{World}
use temporalops.Activities.Policy.{policy_check}
use temporalops.Activities.Scale.{scale_canary, scale_down_canary}
use temporalops.Activities.Health.{health_check}
use temporalops.Activities.Traffic.{shift_traffic, shift_traffic_back}
use temporalops.Activities.Promote.{promote}
use temporalops.Activities.Notify.{alert, greet}
use temporalops.Audit.{Sqlite, Store}
use temporalops.Audit.Interceptor.{
  Info, new_worker_interceptor, intercept_activity, execute_activity, aside, record_approval,
}
use temporalops.Workflows.Engine.{Call, Reply}

module _ (overflow : ℤ → ℤ → ℤ) (K : Kube) (S : Sqlite) where
  -- The function that is registered for a call, on its input.
  unfoldable pub registered :
      Option (Store S) → Info → (c : Call) → Exec (World K × S.State) (Reply c)
  unfolding record_approval
  registered store info (Call.policy_check input) = aside S (policy_check K input)
  registered store info (Call.scale_canary input) = aside S (scale_canary K input)
  registered store info (Call.scale_down_canary input) = aside S (scale_down_canary K input)
  registered store info (Call.health_check input) = aside S (health_check K input)
  registered store info (Call.shift_traffic input) = aside S (shift_traffic overflow K input)
  registered store info (Call.shift_traffic_back input) = aside S (shift_traffic_back K input)
  registered store info (Call.promote input) = aside S (promote K input)
  registered store info (Call.greet name) = aside S (greet K name)
  registered store info (Call.alert input) = aside S (alert K input)
  registered store info (Call.record_approval input) = record_approval S store info input

  -- One attempt at an activity task, through the interceptor that `main` hands to the worker.
  unfoldable pub run_task : Store S → Info → (c : Call) → Exec (World K × S.State) (Reply c)
  unfolding registered execute_activity
  run_task store info c =
      let inbound =
        intercept_activity S (new_worker_interceptor S store) (registered (some store) info c) in
      execute_activity S inbound.store info inbound.next
