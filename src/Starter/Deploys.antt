-- ===== src/Starter/Deploys.antt =====
-- `runHello`, `runCanary`, `runApprove` and `runStatus`.
pub mod Lines
pub mod Effects
pub mod Decides
use temporalops.Base.{
  ℤ, pos, String, ◌<>◌, show, Bool, true, false, not, ◌||◌, List, [], ◌∷◌, ok, err, str_eq,
  if◌then◌else◌,
}
use temporalops.Audit.{Sqlite}
use temporalops.Workflows.Engine.{ApprovalSignal}
use temporalops.Workflows.Canary.{
  CanaryInput, CanaryResult, status_text, approve_promote_signal, canary_status_query,
}
use temporalops.Workflows.Hello.{task_queue}
use temporalops.Starter.Flags.{
  Flag, text, number, switch, span, Values, parse, Parsed, parsed, helped, failed,
}
use temporalops.Starter.Program.{
  Server, Surroundings, StartOptions, Job, Answer, Line, printed, logged, Prog, done, exit, fatal,
  or_fatal, ◌>>=◌, ◌>>◌, need, put_line, unix_time, flags_or_exit,
}

abbrev pub id_flag : Flag
id_flag = record { kind = text; name = "id"; default = "" }

abbrev pub hello_flags : List Flag
hello_flags = record { kind = text; name = "name"; default = "world" } ∷ []

abbrev pub canary_flags : List Flag
canary_flags =
    id_flag
    ∷ record { kind = text; name = "service"; default = "web" }
    ∷ record { kind = text; name = "tag"; default = "nginx:1.27-alpine" }
    ∷ record { kind = number; name = "replicas"; default = pos 3 }
    ∷ record { kind = number; name = "canary-replicas"; default = pos 1 }
    ∷ record { kind = number; name = "bake"; default = pos 15 }
    ∷ record { kind = span; name = "approval-timeout"; default = pos 900000000000 }
    ∷ record { kind = switch; name = "wait"; default = false }
    ∷ record { kind = switch; name = "fail-policy"; default = false }
    ∷ record { kind = switch; name = "fail-health"; default = false }
    ∷ record { kind = switch; name = "fail-traffic"; default = false }
    ∷ []

abbrev pub approve_flags : List Flag
approve_flags =
    id_flag
    ∷ record { kind = text; name = "actor"; default = "" }
    ∷ record { kind = switch; name = "reject"; default = false }
    ∷ []

abbrev pub status_flags : List Flag
status_flags = id_flag ∷ []

-- The workflow's id, its input and `--wait`.
unfoldable pub canary_request : Values canary_flags → String × CanaryInput × Bool
canary_request
      (
        id,
        (
          service,
          (tag, (replicas, (canary, (bake, (timeout, (wait, (policy, (health, (traffic, _))))))))),
        ),
      ) =
    (
      id,
      record {
        service = service;
        image_tag = tag;
        target_replicas = replicas;
        canary_replicas = canary;
        bake_seconds = bake;
        approval_timeout = timeout;
        auto_promote = false;
        simulate_policy_reject = policy;
        simulate_health_fail = health;
        simulate_traffic_fail = traffic;
      },
      wait,
    )

module _ (V : Server) (S : Sqlite) (H : Surroundings) where
  log : String → Prog V S (Unit {0})
  log line = put_line (logged line)

  unfoldable pub run_hello : V.Client → List String → Prog V S (Unit {0})
  unfolding log
  run_hello c args = do
    values ← flags_or_exit (parse H.readers hello_flags args)
    now ← unix_time
    let job = Job.hello values.0
    we ←
        need "start workflow"
          (V.execute_workflow c (record { id = "hello-" <> show now; task_queue = task_queue }) job)
    result ← need "workflow result" (V.get job we)
    log ("result: " <> result)

  -- The id that was given, or one of the service and the time.
  canary_id : String → String → Prog V S String
  canary_id id service =
      if str_eq id ""
      then (unix_time >>= λ now. done ("canary-" <> service <> "-" <> show now))
      else done id

  log_result : CanaryResult → Prog V S (Unit {0})
  unfolding log
  log_result r = log (
      "result: status="
      <> status_text r.status
      <> " actor="
      <> r.actor
      <> " reason="
      <> H.quote r.reason)

  unfoldable pub run_canary : V.Client → List String → Prog V S (Unit {0})
  unfolding log canary_id log_result
  run_canary c args = do
    values ← flags_or_exit (parse H.readers canary_flags args)
    let (given, input, wait) = canary_request values
    id ← canary_id given input.service
    let job = Job.canary input
    we ←
        need "start canary" (V.execute_workflow c (record { id = id; task_queue = task_queue }) job)
    log ("started canary workflow id=" <> V.id_of job we <> " run=" <> V.run_id_of job we)
    log ("approve with: starter approve --id " <> V.id_of job we <> " --actor <you>")
    if wait then (need "workflow result" (V.get job we) >>= log_result) else done tt

  -- What is sent, if the flags name a workflow and an actor.
  abbrev pub decision : String → Bool → ApprovalSignal
  decision actor reject = record { approve = not reject; actor = actor }

  abbrev verb : Bool → String
  verb reject = if reject then "rejected" else "approved"

  unfoldable pub run_approve : V.Client → List String → Prog V S (Unit {0})
  unfolding log
  run_approve c args = do
    (id, (actor, (reject, _))) ← flags_or_exit (parse H.readers approve_flags args)
    if str_eq id "" || str_eq actor "" then fatal "--id and --actor are required" else do
      need "signal workflow"
          (V.signal_workflow c id "" approve_promote_signal (decision actor reject))
      log (verb reject <> " promotion for " <> id <> " as " <> actor)

  unfoldable pub run_status : V.Client → List String → Prog V S (Unit {0})
  run_status c args = do
    (id, _) ← flags_or_exit (parse H.readers status_flags args)
    if str_eq id "" then fatal "--id is required" else do
      answer ← need "query workflow" (V.query_workflow c id "" canary_status_query)
      phase ← or_fatal "decode query result" (V.decode answer)
      put_line (printed ("phase: " <> phase))
