-- ===== src/Tests/Activities.antt =====
-- The theorems on the activities, at concrete inputs.
use temporalops.Base.{
  ℕ, ◌+◌, ◌*◌, ◌≤◌, ◌<◌, ℤ, pos, ◌≡◌, refl, String, Bool, true, false, List, [], ◌∷◌, Result, ok,
  err, arith, some, inl, inr,
}
use temporalops.Kube.View.{View, Write, scale_to, image_to, write, apply, Within}
use temporalops.Client.Names.{Named}
use temporalops.Client.{World, progress, canary_name}
use temporalops.Client.Plans.{Does}
use temporalops.Activities.Policy.{PolicyInput, policy_check}
use temporalops.Activities.Policy.Verdicts.{Says, policy_check-Says}
use temporalops.Activities.Health.{HealthInput, HealthResult}
use temporalops.Activities.Traffic.{TrafficInput, split}
use temporalops.Activities.Traffic.Split.{Rounds, split_conserves}
use temporalops.Audit.Interceptor.{Info}
use temporalops.Workflows.Engine.{Call}
use temporalops.Workflows.Options.{seconds, health_opts, health_opts-outlasts}
use temporalops.Worker.{run_task}
use temporalops.Worker.Tasks.{writes_of, of_world, run_task-Does}
use temporalops.Worker.Retries.{last, lost, Reaches, retries_converge}
use temporalops.Tests.Cluster.{memory, whole, memory-IsLawful, at_rest, world}
use temporalops.Tests.Database.{store, empty}
use temporalops.Tests.Database.{memory as log}

abbrev shop : PolicyInput
shop = record { service = "shop"; image_tag = "app:2"; simulate_reject = false }

policy_check-Says_example : Says memory shop (ok tt) (policy_check memory shop world).0
unfolding policy_check temporalops.Client.dry_run_set_image temporalops.Client.k8s_client
    temporalops.Client.load_client
policy_check-Says_example = policy_check-Says memory shop world refl

abbrev short_bake : HealthInput
short_bake = record { service = "shop"; bake_seconds = pos 2; simulate_fail = false }

abbrev healthy : HealthResult
healthy = record { healthy = true; reason = "canary 4/4 replicas ready"; error_rate = 0 }

abbrev after_bake : World memory
after_bake = record {
  cached = some (ok tt);
  cluster = at_rest;
  heartbeats = progress "4/4 ready" ∷ progress "4/4 ready" ∷ [];
}

abbrev half : TrafficInput
half = record {
  service = "shop";
  canary_weight = pos 50;
  target_replicas = pos 5;
  simulate_fail = false;
}

abbrev overflow : ℤ → ℤ → ℤ
overflow total weight = pos 0

split_conserves_example :
    (c : ℕ) × (d : ℕ) × (split overflow half ≡ (pos c, pos d))
    × (c + d ≡ 5)
    × Rounds 5 50 c
    × (0 < 50 → 0 < c)
split_conserves_example = split_conserves overflow half 5 50 refl (omega arith) refl (omega arith)

health_opts-outlasts_example :
    (seconds (pos 90) ≡ pos (90 * 1000000000))
    × ((health_opts (pos 90)).start_to_close_timeout ≡ pos (90 * 1000000000 + 30000000000))
health_opts-outlasts_example = health_opts-outlasts 90 (omega arith)

abbrev task : Info
task = record {
  workflow_id = "release-7-shop";
  run_id = "run-1";
  activity_id = "12";
  attempt_no = pos 1;
  activity_type = "Promote";
}

abbrev rollout : Call
rollout = Call.promote (record { service = "shop"; image_tag = "app:2"; target_replicas = pos 5 })

rollout-Within : Within (Named "shop") (writes_of overflow rollout)
rollout-Within = (inr refl, (inr refl, (inl refl, tt)))

run_task-Does_example : Does memory whole (writes_of overflow rollout) world (
    of_world overflow memory log whole
      (run_task overflow memory log store task rollout (world, empty)))
run_task-Does_example =
    run_task-Does overflow memory log whole (memory-IsLawful {Mine = Named "shop"}) store task
      rollout world empty rollout-Within

-- The worker that set the image is lost; another makes the attempt that succeeds.
abbrev half_way : World memory
half_way = record world { cluster = write (image_to "shop-stable" "app:2") at_rest }

abbrev outcome : Result (Unit {0}) × World memory
outcome =
    of_world overflow memory log whole
      (run_task overflow memory log store task rollout (half_way, empty))

retries_converge_example :
    Reaches overflow memory log whole (writes_of overflow rollout) world outcome
unfolding temporalops.Kube.View.apply temporalops.Client.stable_name temporalops.Client.canary_name
    temporalops.Base.to_int32
retries_converge_example =
    retries_converge overflow memory log whole (memory-IsLawful {Mine = Named "shop"}) store rollout
      world outcome rollout-Within
      (lost world half_way outcome
        (
          image_to "shop-stable" "app:2" ∷ [],
          scale_to "shop-stable" (pos 5) ∷ scale_to "shop-canary" (pos 0) ∷ [],
          refl,
          refl,
        )
        (last task half_way empty))
