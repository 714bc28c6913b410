-- ===== src/Tests/Rollout.antt =====
-- A deploy that is promoted, over an engine that keeps the deployments' specifications.
use temporalops.Base.{◌≢◌, ap, ◌∙◌, String, ℤ, pos, refl, true, false, Result, ok, pure}
use temporalops.Kube.View.{View, apply}
use temporalops.Worker.Tasks.{writes_of}
use temporalops.Workflows.Engine.{Engine, Run, Call, Reply, Ready, timer_done, received, is_ok}
use temporalops.Workflows.Canary.{CanaryInput, CanaryResult, promoted, canary_deploy}
use temporalops.Workflows.Canary.Balance.{fresh}
use temporalops.Workflows.Canary.Course.Attribution.{AttributedTo, Signed, promoted-AttributedTo}
use temporalops.Workflows.Canary.Cluster.{After, IsHost}
use temporalops.Workflows.Canary.Cluster.Rollout.{InForce, promoted-InForce}
use temporalops.Tests.Cluster.{whole, at_rest}

abbrev pub overflow : ℤ → ℤ → ℤ
overflow total weight = pos 0

abbrev pub reply : (c : Call) → Result (Reply c)
reply (Call.policy_check _) = ok (record { allowed = true; reason = "admitted" })
reply (Call.scale_canary _) = ok (record { ready_replicas = pos 1 })
reply (Call.scale_down_canary _) = ok tt
reply (Call.health_check _) = ok (record { healthy = true; reason = "ready"; error_rate = 0 })
reply (Call.shift_traffic _) = ok tt
reply (Call.shift_traffic_back _) = ok tt
reply (Call.promote _) = ok tt
reply (Call.greet _) = ok "hello"
reply (Call.alert _) = ok tt
reply (Call.record_approval _) = ok tt

pub reply-After :
    (c : Call) (v : View) → After overflow c (is_ok (reply c)) v (apply (writes_of overflow c) v)
reply-After (Call.policy_check _) v = refl
reply-After (Call.scale_canary _) v = refl
reply-After (Call.scale_down_canary _) v = refl
reply-After (Call.health_check _) v = refl
reply-After (Call.shift_traffic _) v = refl
reply-After (Call.shift_traffic_back _) v = refl
reply-After (Call.promote _) v = refl
reply-After (Call.greet _) v = refl
reply-After (Call.alert _) v = refl
reply-After (Call.record_approval _) v = refl

abbrev pub hosted : Engine
hosted = record {
  State = View;
  set_query_handler = λ _. pure tt;
  execute = λ _ _ c v. (reply c, apply (writes_of overflow c) v);
  select = λ _ _ v. (received (record { approve = true; actor = "ada" }), v);
}

hosted-IsHost : IsHost overflow hosted whole "shop"
hosted-IsHost = record {
  execute-After = λ scope options c v _. reply-After c v;
  query-Reads = λ name v. refl;
  select-Reads = λ name d v. refl;
}

abbrev pub shop : CanaryInput
shop = record {
  service = "shop";
  image_tag = "app:2";
  target_replicas = pos 4;
  canary_replicas = pos 1;
  bake_seconds = pos 30;
  approval_timeout = pos 60000000000;
  auto_promote = false;
  simulate_policy_reject = false;
  simulate_health_fail = false;
  simulate_traffic_fail = false;
}

abbrev result : CanaryResult
result = record {
  service = "shop";
  status = promoted;
  reason = "promoted to target replicas, approved by ada";
  actor = "ada";
}

abbrev after : Run hosted
after = (canary_deploy hosted shop (fresh hosted shop at_rest)).1

promoted-InForce_example : InForce shop (whole after.engine)
unfolding canary_deploy temporalops.Workflows.Engine.set_query_handler
    temporalops.Workflows.Engine.execute
promoted-InForce_example =
    promoted-InForce overflow hosted whole shop hosted-IsHost at_rest result after refl refl

abbrev name_of : Ready → String
name_of (received signal) = signal.actor
name_of (timer_done _) = ""

hosted-Signed : Signed hosted shop
hosted-Signed s signal heard unnamed = cc (ap name_of heard ∙ unnamed)

promoted-AttributedTo_example :
    (result.actor ≢ "") × AttributedTo hosted shop result.actor after.steps
unfolding canary_deploy temporalops.Workflows.Engine.set_query_handler
    temporalops.Workflows.Engine.execute
promoted-AttributedTo_example =
    promoted-AttributedTo hosted shop at_rest result after hosted-Signed refl refl
