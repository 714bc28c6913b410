-- ===== src/Starter/Releases.antt =====
-- `runRelease`.
pub mod Effects
use temporalops.Base.{
  ℕ, ℤ, pos, String, ◌<>◌, show, Bool, true, false, List, [], ◌∷◌, map, ◌-◌, if◌then◌else◌,
}
use temporalops.Base.{sub_ℕ}
use temporalops.Audit.{Sqlite}
use temporalops.Workflows.Canary.{CanaryInput, CanaryResult, status_text}
use temporalops.Workflows.Orchestrator.{ReleaseInput, ReleaseResult}
use temporalops.Workflows.Hello.{task_queue}
use temporalops.Starter.Flags.{Flag, text, number, Values, parse}
use temporalops.Starter.Program.{
  Server, Surroundings, StartOptions, Job, Line, logged, Prog, done, ◌>>=◌, ◌>>◌, need, put_line,
  unix_time, flags_or_exit,
}
use temporalops.Starter.Names.{split, service_names}
use temporalops.Starter.Layout.{pad, bool_text, list_text}

abbrev pub release_flags : List Flag
release_flags =
    record { kind = text; name = "services"; default = "web,api" }
    ∷ record { kind = text; name = "tag"; default = "nginx:1.27-alpine" }
    ∷ record { kind = number; name = "replicas"; default = pos 3 }
    ∷ record { kind = number; name = "canary-replicas"; default = pos 1 }
    ∷ record { kind = number; name = "bake"; default = pos 15 }
    ∷ []

-- The input of one child. What is not set has its zero value.
abbrev pub spec_of : String → ℤ → ℤ → ℤ → String → CanaryInput
spec_of tag replicas canary bake name = record {
  service = name;
  image_tag = tag;
  target_replicas = replicas;
  canary_replicas = canary;
  bake_seconds = bake;
  approval_timeout = pos 0;
  auto_promote = true;
  simulate_policy_reject = false;
  simulate_health_fail = false;
  simulate_traffic_fail = false;
}

-- The names as they were given, and the inputs of the children.
unfoldable pub release_specs : Values release_flags → List String × List CanaryInput
release_specs (services, (tag, (replicas, (canary, (bake, _))))) =
    (split services, map (spec_of tag replicas canary bake) (service_names (split services)))

module _ (V : Server) (S : Sqlite) (H : Surroundings) where
  log : String → Prog V S (Unit {0})
  log line = put_line (logged line)

  pub report : List CanaryResult → Prog V S (Unit {0})
  unfolding log
  report [] = done tt
  report (r ∷ rs) =
      log ("  " <> pad 8 r.service <> " " <> pad 14 (status_text r.status) <> " " <> r.reason)
      >> report rs

  unfoldable pub run_release : V.Client → List String → Prog V S (Unit {0})
  unfolding log report
  run_release c args = do
    values ← flags_or_exit (parse H.readers release_flags args)
    let (names, specs) = release_specs values
    now ← unix_time
    let id = "release-" <> show now
    let job = Job.release (record { release_id = id; services = specs })
    we ←
        need "start release"
          (V.execute_workflow c (record { id = id; task_queue = task_queue }) job)
    log ("started release id=" <> V.id_of job we <> " services=" <> list_text names)
    res ← need "release result" (V.get job we)
    log (
        "release complete: allPromoted="
        <> bool_text res.all_promoted
        <> " promoted="
        <> list_text res.promoted_services
        <> " notPromoted="
        <> list_text res.not_promoted)
    report res.results
