-- ===== src/Tests/Starter.antt =====
-- The theorems on the starter, at concrete inputs.
use temporalops.Base.{
  pos, String, ◌≡◌, ◌≢◌, true, false, some, none, List, [], ◌∷◌, ok, pure, refl, All, str_eq, map,
  if◌then◌else◌,
}
use temporalops.Workflows.Canary.{CanaryInput, rolled_back}
use temporalops.Workflows.Hello.{task_queue}
use temporalops.Starter.Flags.{Readers, parse, parsed}
use temporalops.Starter.Program.{Server, Surroundings, Job, Answer, Shell}
use temporalops.Starter.Deploys.{run_canary, run_approve, canary_flags, approve_flags}
use temporalops.Starter.Deploys.Lines.{canary_line, request_of, ReadsBack, canary_request-parse}
use temporalops.Starter.Deploys.Effects.{
  EndsWith, run_canary-EndsWith, Approves, run_approve-Approves,
}
use temporalops.Starter.Names.{split, service_names}
use temporalops.Starter.Names.Proper.{
  IsProper, comma_list, service_names-split-IsProper, service_names-comma_list,
}
use temporalops.Starter.Releases.{run_release}
use temporalops.Starter.Releases.Effects.{run_release-EndsWith}
use temporalops.Starter.History.{audit_flags, run_audit}
use temporalops.Starter.History.Shown.{IsLogbook, Shows, run_audit-Shows}
use temporalops.Workflows.Orchestrator.{ReleaseResult}
use temporalops.Audit.{to_entry}
use temporalops.Tests.Database.{memory, empty, store, table_of, memory-IsLawful}

-- The texts that the runs below read.
abbrev readers : Readers
readers = record {
  read_int = λ s.
      if str_eq s "4"
      then some (pos 4)
      else if str_eq s "1"
      then some (pos 1)
      else if str_eq s "30"
      then some (pos 30)
      else none;
  read_duration = λ s. if str_eq s "1m0s" then some (pos 60000000000) else none;
}

abbrev pub surroundings : Surroundings
surroundings = record {
  readers = readers;
  getenv = λ _. "";
  quote = λ s. s;
  clock_text = λ _. "12:00:00";
}

abbrev pub answer : (j : Job) → Answer j
answer (Job.hello name) = name
answer (Job.canary input) = record {
  service = input.service;
  status = rolled_back;
  reason = "no";
  actor = "";
}
answer (Job.release input) = record {
  release_id = input.release_id;
  results = [];
  promoted_services = [];
  not_promoted = [];
  all_promoted = true;
}

-- It keeps the ids of the workflows that were started and signalled.
abbrev pub desk : Server
desk = record {
  State = List String;
  Client = Unit {0};
  Handle = λ _. String;
  id_of = λ _ h. h;
  run_id_of = λ _ h. h;
  default_host_port = "localhost:7233";
  dial = λ _. pure tt;
  close = λ _ s. s;
  execute_workflow = λ _ options _ s. (ok options.id, options.id ∷ s);
  get = λ j _. pure (answer j);
  signal_workflow = λ _ id _ _ _ s. (ok tt, id ∷ s);
  Encoded = String;
  query_workflow = λ _ _ _ _. pure "promote";
  decode = ok;
  now_unix = λ s. (pos 17, s);
}

abbrev report : ReleaseResult
report = record {
  release_id = "release-17";
  results = [];
  promoted_services = [];
  not_promoted = [];
  all_promoted = true;
}

abbrev pub shell : Shell desk memory
shell = record { server = []; database = empty; output = [] }

abbrev shop : CanaryInput
shop = record {
  service = "shop";
  image_tag = "app:2";
  target_replicas = pos 4;
  canary_replicas = pos 1;
  bake_seconds = pos 30;
  approval_timeout = pos 60000000000;
  auto_promote = false;
  simulate_policy_reject = false;
  simulate_health_fail = true;
  simulate_traffic_fail = false;
}

shop-ReadsBack : ReadsBack readers shop
unfolding temporalops.Base.show temporalops.Base.duration_text
shop-ReadsBack = record { replicas = refl; canary = refl; bake = refl; timeout = refl }

id_given : ◌≢◌ {A = String} "c-1" ""
id_given e = cc e

canary_request-parse_example :
    request_of (parse readers canary_flags (canary_line "c-1" shop true)) ≡ some ("c-1", shop, true)
canary_request-parse_example = canary_request-parse readers "c-1" shop true refl shop-ReadsBack

run_canary-EndsWith_example :
    EndsWith desk memory
      (desk.execute_workflow tt
        (record { id = "c-1"; task_queue = task_queue })
        (Job.canary shop)
        shell.server)
      (run_canary desk memory surroundings tt (canary_line "c-1" shop false) shell)
run_canary-EndsWith_example =
    run_canary-EndsWith desk memory surroundings tt "c-1" shop shell id_given refl shop-ReadsBack

abbrev rejection : List String
rejection = "--id" ∷ "c-1" ∷ "--actor=ada" ∷ "--reject" ∷ []

rejection_read : parse readers approve_flags rejection ≡ parsed ("c-1", ("ada", (true, tt)))
unfolding parse
rejection_read = refl

run_approve-Approves_example :
    Approves desk memory surroundings tt "c-1" "ada" true shell
      (run_approve desk memory surroundings tt rejection shell)
run_approve-Approves_example =
    run_approve-Approves desk memory surroundings tt rejection "c-1" "ada" true shell rejection_read

service_names-split-IsProper_example : All IsProper (service_names (split " web ,,api"))
service_names-split-IsProper_example = service_names-split-IsProper " web ,,api"

abbrev two_names : List String
two_names = "web" ∷ "api" ∷ []

two_names-IsProper : All IsProper two_names
unfolding temporalops.Starter.Names.trim_space
two_names-IsProper = (
  record { not_blank = λ e. cc e; lacks_comma = (refl, (refl, (refl, tt))); trimmed = refl },
  (record { not_blank = λ e. cc e; lacks_comma = (refl, (refl, (refl, tt))); trimmed = refl }, tt),
)

service_names-comma_list_example : service_names (split (comma_list two_names)) ≡ two_names
service_names-comma_list_example = service_names-comma_list two_names two_names-IsProper

run_release-EndsWith_example :
    EndsWith desk memory
      (ok report, "release-17" ∷ [])
      (run_release desk memory surroundings tt ("--services" ∷ "web,api" ∷ []) shell)
unfolding temporalops.Base.show
run_release-EndsWith_example = run_release-EndsWith desk memory surroundings tt "web,api" shell

-- A log with one row.
abbrev logged : Shell desk memory
logged = record shell {
  database = record empty {
    table =
        record {
          workflow_id = "c-1";
          run_id = "r-1";
          activity_id = "5";
          attempt_no = pos 1;
          activity_type = "Promote";
          phase = "start";
          status = "started";
          actor = "";
          detail = "";
          ts = "|";
        }
        ∷ [];
  };
}

pub memory-IsLogbook : IsLogbook memory table_of
memory-IsLogbook = record {
  lawful = λ db. memory-IsLawful;
  open_Keeps = λ path s. refl;
  schema_Keeps = λ db s. refl;
  close_Keeps = λ db s. refl;
}

id_read : parse readers audit_flags ("--id=c-1" ∷ []) ≡ parsed ("c-1", tt)
unfolding parse
id_read = refl

run_audit-Shows_example :
    Shows surroundings desk memory table_of memory-IsLogbook "c-1" logged
      (run_audit surroundings desk memory ("--id=c-1" ∷ []) logged)
unfolding temporalops.Audit.open_store temporalops.Audit.query_by_workflow temporalops.Audit.rows_of
run_audit-Shows_example =
    run_audit-Shows surroundings desk memory table_of memory-IsLogbook ("--id=c-1" ∷ []) "c-1"
      logged store logged.database logged.database (map (to_entry memory) logged.database.table)
      id_read id_given refl refl
