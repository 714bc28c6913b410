-- ===== src/Tests/Served.antt =====
-- A deploy that is promoted by workers over a cluster in which others write to another deployment.
use temporalops.Base.{String, pos, refl, true, false, [], none, pure}
use temporalops.Client.{World}
use temporalops.Audit.Interceptor.{Info}
use temporalops.Worker.{run_task}
use temporalops.Worker.Tasks.{of_world}
use temporalops.Worker.Retries.{last}
use temporalops.Workflows.Engine.{Engine, Run, timer_done}
use temporalops.Workflows.Canary.{CanaryInput, CanaryResult, promoted, canary_deploy}
use temporalops.Workflows.Canary.Balance.{fresh}
use temporalops.Workflows.Canary.Cluster.Rollout.{InForce}
use temporalops.Workflows.Canary.Cluster.Served.{serves, IsServed, served_promoted-InForce}
use temporalops.Tests.Cluster.{at_rest}
use temporalops.Tests.Busy.{busy, of_shop, busy-IsLawful}
use temporalops.Tests.Database.{store, empty}
use temporalops.Tests.Database.{memory as log}
use temporalops.Tests.Rollout.{overflow}

abbrev task : Info
task = record {
  workflow_id = "release-7-shop";
  run_id = "run-1";
  activity_id = "12";
  attempt_no = pos 1;
  activity_type = "Promote";
}

abbrev world : World busy
world = record { cached = none; cluster = at_rest; heartbeats = [] }

-- Each activity is attempted once.
abbrev workers : Engine
workers = record {
  State = World busy;
  set_query_handler = λ _. pure tt;
  execute = λ _ _ c w.
      of_world overflow busy log of_shop (run_task overflow busy log store task c (w, empty));
  select = λ _ _ w. (timer_done none, w);
}

abbrev cluster_of : World busy → busy.Cluster
cluster_of w = w.cluster

workers-IsServed : IsServed overflow busy log of_shop store workers cluster_of
workers-IsServed = record {
  execute-Serves = λ scope options c w. serves w _ _ _ _ refl (last task w empty) refl;
  query-Idle = λ name w. refl;
  select-Idle = λ name d w. refl;
}

abbrev quick : CanaryInput
quick = record {
  service = "shop";
  image_tag = "app:2";
  target_replicas = pos 4;
  canary_replicas = pos 1;
  bake_seconds = pos 1;
  approval_timeout = pos 60000000000;
  auto_promote = true;
  simulate_policy_reject = false;
  simulate_health_fail = false;
  simulate_traffic_fail = false;
}

abbrev result : CanaryResult
result = record {
  service = "shop";
  status = promoted;
  reason = "promoted to target replicas, approved by auto-release";
  actor = "auto-release";
}

abbrev after : Run workers
after = (canary_deploy workers quick (fresh workers quick world)).1

served_promoted-InForce_example : InForce quick (of_shop (cluster_of after.engine))
unfolding canary_deploy temporalops.Workflows.Engine.set_query_handler
    temporalops.Workflows.Engine.execute run_task temporalops.Activities.Policy.policy_check
    temporalops.Client.dry_run_set_image temporalops.Client.k8s_client
    temporalops.Client.load_client temporalops.Activities.Scale.scale_canary
    temporalops.Client.set_image temporalops.Client.scale_deployment temporalops.Base.to_int32
    temporalops.Client.deployment_status temporalops.Client.canary_name
    temporalops.Activities.Health.health_check temporalops.Activities.Health.judge
    temporalops.Activities.Traffic.shift_traffic temporalops.Activities.Traffic.split
    temporalops.Activities.Traffic.canary_share temporalops.Base.◌*ℤ◌
    temporalops.Activities.Health.bake temporalops.Activities.Promote.promote
    temporalops.Activities.Traffic.stable_share temporalops.Base.to_int64 temporalops.Base.◌+ℤ◌
    temporalops.Base.◌-ℤ◌ temporalops.Client.stable_name temporalops.Worker.registered
    temporalops.Audit.Interceptor.execute_activity temporalops.Base.show temporalops.Base.decimal
served_promoted-InForce_example =
    served_promoted-InForce overflow busy log of_shop quick busy-IsLawful store workers cluster_of
      workers-IsServed world result after refl refl
