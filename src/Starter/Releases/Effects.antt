-- ===== src/Starter/Releases/Effects.antt =====
-- What `starter release` does at the Temporal server.
use temporalops.Base.{
  pos, true, false, String, ◌<>◌, show, ◌≡◌, refl, List, [], ◌∷◌, map, Result, ok, err, Exec,
  continue,
}
use temporalops.Audit.{Sqlite}
use temporalops.Workflows.Canary.{CanaryInput, CanaryResult}
use temporalops.Workflows.Orchestrator.{ReleaseInput, ReleaseResult}
use temporalops.Workflows.Hello.{task_queue}
use temporalops.Starter.Flags.{Readers, parse, parsed}
use temporalops.Starter.Program.{Server, Surroundings, Job, returned, Shell, Prog, need, ◌>>=◌}
use temporalops.Starter.Names.{split, service_names}
use temporalops.Starter.Deploys.Effects.{EndsWith, need-EndsWith}
use temporalops.Starter.Releases.{release_flags, release_specs, report, run_release}

abbrev release_line : String → List String
release_line services = "--services" ∷ services ∷ []

-- The deploy of a release: the image, the replica counts and the bake time that the flags have where
-- they are not set, no timeout and no gate, nothing simulated.
abbrev pub deploy_of : String → CanaryInput
deploy_of name = record {
  service = name;
  image_tag = "nginx:1.27-alpine";
  target_replicas = pos 3;
  canary_replicas = pos 1;
  bake_seconds = pos 15;
  approval_timeout = pos 0;
  auto_promote = true;
  simulate_policy_reject = false;
  simulate_health_fail = false;
  simulate_traffic_fail = false;
}

-- The release of these services, with the defaults of the other flags.
abbrev pub release_of : String → String → ReleaseInput
release_of id services = record {
  release_id = id;
  services = map deploy_of (service_names (split services));
}

release_line-parse :
    (R : Readers) (services : String)
    → parse R release_flags (release_line services)
      ≡ parsed (services, ("nginx:1.27-alpine", (pos 3, (pos 1, (pos 15, tt)))))
unfolding parse
release_line-parse R services = refl

module _ (V : Server) (S : Sqlite) (H : Surroundings) where
  report_quiet :
      (rs : List CanaryResult) (w : Shell V S)
      → ((report V S H rs w).0 ≡ returned tt) × ((report V S H rs w).1.server ≡ w.server)
  unfolding report
  report_quiet [] w = (refl, refl)
  report_quiet (r ∷ rs) w = report_quiet rs _

  -- A call whose result goes into another one.
  then-EndsWith :
      {A B : Type 0} (what : String) (f : A → Prog V S (Unit {0})) (g : A → Exec V.State B)
      (w : Shell V S) (out : Result A × V.State)
      → ((a : A) (t : Shell V S) → EndsWith V S (g a t.server) (f a t))
      → EndsWith V S (continue g out) ((need what (λ _. out) >>= f) w)
  then-EndsWith what f g w (ok a, s) h = h a (record w { server = s })
  then-EndsWith what f g w (err e, s) h = (refl, refl)

  -- `starter release` for a text of services starts one release of the names in it, under an id of
  -- the clock's second, on the worker's task queue and with the defaults of the other flags, and
  -- waits for its result; it does nothing else to the server. It exits with 1 if either call fails.
  pub run_release-EndsWith :
      (c : V.Client) (services : String) (w : Shell V S)
      → let (now, s) = V.now_unix w.server in
        let id = "release-" <> show now in
        let job = Job.release (release_of id services) in
        EndsWith V S
          (continue
            (V.get job)
            (V.execute_workflow c (record { id = id; task_queue = task_queue }) job s))
          (run_release V S H c (release_line services) w)
  unfolding run_release release_specs
  run_release-EndsWith c services w =
      let (now, s) = V.now_unix w.server in
      let id : String = "release-" <> show now in
      let job : Job = Job.release (release_of id services) in
      rw (release_line-parse H.readers services) (
        then-EndsWith "start release" _ (V.get job) (record w { server = s })
          (V.execute_workflow c (record { id = id; task_queue = task_queue }) job s)
          λ we t.
            need-EndsWith V S "release result" _ (record t { output = _ }) (V.get job we t.server)
              λ (res : ReleaseResult) u. report_quiet res.results _)
