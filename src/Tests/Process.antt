-- ===== src/Tests/Process.antt =====
-- The theorems on the worker's process and its client, at concrete inputs.
use temporalops.Base.{
  ℕ, ◌+◌, ℤ, pos, pos_part, String, ◌≡◌, refl, Option, none, some, List, [], ◌∷◌, Result, ok, err,
  Error, new_error, pure, get_elem?, true, false,
}
use temporalops.Client.{World, progress, k8s_client}
use temporalops.Activities.Health.{HealthInput, HealthResult, health_check}
use temporalops.Activities.Health.Beats.{beats, health_check-beats}
use temporalops.Audit.Interceptor.{Info}
use temporalops.Workflows.Engine.{Call}
use temporalops.Worker.Startup.{Machine, Process}
use temporalops.Worker.Startup.Ends.{Ends}
use temporalops.Tests.Cluster.{memory, at_rest, world}
use temporalops.Tests.Database.{empty}
use temporalops.Tests.Database.{memory as log}

abbrev later : World memory
later = record world { cached = some (ok tt) }

abbrev no_config : Error
no_config = new_error "load kube config: no file"

abbrev broken : World memory
broken = record world { cached = some (err no_config) }

abbrev task : Info
task = record {
  workflow_id = "release-7-shop";
  run_id = "run-1";
  activity_id = "12";
  attempt_no = pos 2;
  activity_type = "Promote";
}

abbrev rollout : Call
rollout = Call.promote (record { service = "shop"; image_tag = "app:2"; target_replicas = pos 5 })

abbrev overflow : ℤ → ℤ → ℤ
overflow total weight = pos 0

abbrev short_bake : HealthInput
short_bake = record { service = "shop"; bake_seconds = pos 2; simulate_fail = false }

abbrev healthy : HealthResult
healthy = record { healthy = true; reason = "canary 4/4 replicas ready"; error_rate = 0 }

abbrev after_bake : World memory
after_bake = record {
  cached = some (ok tt);
  cluster = at_rest;
  heartbeats = progress "4/4 ready" ∷ progress "4/4 ready" ∷ [];
}

health_check-beats_example :
    beats memory after_bake ≡ beats memory world + pos_part short_bake.bake_seconds
unfolding health_check temporalops.Client.deployment_status temporalops.Client.k8s_client
    temporalops.Client.load_client temporalops.Base.show temporalops.Activities.Health.judge
health_check-beats_example = health_check-beats memory short_bake healthy world after_bake refl

abbrev machine : Machine log
machine = record {
  State = List String;
  Client = Unit {0};
  dir_of = λ _. "audit";
  mkdir_all = λ dir s. (ok tt, dir ∷ s);
  serve_metrics = λ address s. address ∷ s;
  close_metrics = λ s. s;
  dial = λ address s. (ok tt, address ∷ s);
  close = λ _ s. s;
  run = λ _ w _ s. (ok tt, (w.queue ∷ s.0, s.1));
}

abbrev idle : Process log machine
idle = record { machine = []; database = empty; default_store = none }

abbrev with_dir : Process log machine
with_dir = record idle { machine = "audit" ∷ [] }

abbrev no_variables : String → String
no_variables key = ""

abbrev served : List String
served = "127.0.0.1:7233" ∷ ":9090" ∷ "audit" ∷ []
