-- ===== src/Lib.antt =====
-- A model of TemporalOps: progressive canary deploys on Kubernetes as durable Temporal workflows,
-- with saga rollback, a human approval gate and an append-only audit log.
--
-- The parts, and how they interact. A release (internal/workflows/orchestrator.go) starts one
-- canary deploy for each service as a child workflow and reports what they come back with. A canary
-- deploy (internal/workflows/canary.go, signals.go) asks Temporal to execute activities one after
-- another, registers the inverse of each step that has taken effect with a saga (saga.go), and
-- unwinds the saga where a later step fails, the bake finds the canary unhealthy, or the gate gives
-- no approval. The worker (cmd/worker/main.go) runs the activities (internal/activities), each
-- behind an interceptor (internal/audit/interceptor.go) that records the attempt in the audit log
-- (internal/audit/store.go). The activities that touch the cluster share one cached client
-- (internal/activities/k8s_client.go). The starter (cmd/starter/main.go) is the command line: it
-- starts deploys and releases, signals the gate, queries the phase and prints the audit log. The
-- worker reads its settings from internal/config, and the starter the path of the audit log.
--
-- The files:
-- - Base and its children: numbers, text, lists, Go's errors, and the calls that change a state and
--   may fail. The state comes back beside an error, since effects that came before it stay.
-- - Kube, Kube.View, Kube.Laws: the API server behind client-go as an interface, the specifications
--   of the deployments, and what is relied on. Kube.View.Converge: absolute writes converge.
--   Kube.View.Isolation: writes to different deployments. The image of a deployment is that of the
--   container which deploy/k8s/sample-app.yaml names `app`.
-- - Client (k8s_client.go): `k8s_client`, `scale_deployment`, `set_image`, `dry_run_set_image`,
--   `deployment_status` and `is_infra_error` are the functions of these names in camel case.
--   Client.Plans: rules to follow the writes of a chain of calls. Client.Once: the cache.
--   Client.Names: the names of the deployments.
-- - Activities.Policy, Scale, Health, Traffic, Promote, Notify (policy.go, scale.go, health.go,
--   traffic.go, promote.go, alert.go and hello.go): each activity on the state of its worker.
--   Activities.Writes: what each of them writes. Activities.Health.Bake and Beats: the bake.
-- - Audit (store.go): `open_store`, `record_entry`, `query_by_workflow` and `record_default` are
--   `Open`, `Store.Record`, `QueryByWorkflow` and the package's `Record`. Audit.Interceptor
--   (interceptor.go, and audit_activity.go of internal/activities): `new_worker_interceptor`,
--   `intercept_activity`, `execute_activity` and `record_approval`. Audit.Database: what is relied
--   on in SQLite and in the clock. Audit.Expected: the rows that an attempt is to have.
--   Audit.Callers: calls of `Record` that overlap, as interleaved steps.
-- - Settings (internal/config/config.go): the environment variables.
-- - Worker (cmd/worker/main.go): the registered activities behind the interceptor. Worker.Startup:
--   its `main`; Startup.Ends: how it ends. Worker.Retries: the attempts at one activity, with
--   failures and lost workers. Worker.Stuck: a worker without a client. Worker.Logged and Recorded:
--   what an attempt leaves in the audit log.
-- - Starter (cmd/starter/main.go): Main has `main`, `usage` and the choice of the command; Deploys
--   has `run_hello`, `run_canary`, `run_approve` and `run_status`, Releases `run_release`, History
--   `run_audit`. Deploys.Decides joins `run_approve` to the gate of the deploy. Flags is Go's flag
--   package as these use it, Layout the verbs of fmt, Names the list of services, and Program the
--   calls that may end the process.
-- - Workflows.Options, Saga, Canary, Orchestrator, Hello (canary.go, saga.go, orchestrator.go,
--   hello.go), over Workflows.Engine, the interface to Temporal. Canary has one function for each
--   stage of `CanaryDeployWorkflow`; together they are `canary_deploy`. Canary.Types: what it takes
--   and gives. Workflows.Canary.History and Ending: the steps that a run asks for, and what they
--   have to look like. Workflows.Canary.Course: the courses that a deploy may take, as a table of
--   what it does and answers in each; its children derive how a deploy ends, in how many steps, who
--   is named, and what the status query shows (Workflows.Canary.Phases). The query's handler is a
--   closure over the variable `phase`, of which a run keeps the values. Workflows.Canary.Cluster:
--   the effects of these steps on the deployments; its child Served joins them to the attempts of
--   the workers. Workflows.Canary.Isolation: deploys at once. Workflows.Canary.Trace: the calls of
--   the engine that a deploy makes; Workflows.Canary.OnRecord: what the audit log has of it.
--   Orchestrator.Tallies and Outcomes: the report of a release; Orchestrator.Deploys and Progress:
--   a release whose children are canary deploys.
-- - Tests: two clusters, one of them busy, and a database, all in memory, that keep the laws, a
--   scripted engine, and the theorems at concrete inputs.
--
-- What code outside the repository does is a parameter: client-go, database/sql with SQLite, the
-- clock, Temporal's execution of activities and child workflows, its selector and its client, the
-- operating system, and Go's reading of numbers and durations. What is relied on is a hypothesis
-- with a name: `IsLawful` of the API server, and of the database with its clock, which `IsLogbook`
-- extends to opening and closing it; `IsHost`, by which an activity has the effect that
-- Worker.Retries derives for its attempts, and which Cluster.Served derives from `IsServed`, by
-- which Temporal reports what the attempts have come to, as `IsAudited` does for what they record;
-- `IsPost`, by which the gate gets the signals that the server takes; `RunsDeploys` and
-- `Completes`, by which a child's future holds the outcome of its deploy; and `ReadsBack`, by which
-- a number or a duration is read back from its text. `IsSmooth` and `Signed` are conditions of
-- their theorems on what the engine answers, and `Writable` on what the database does. A theorem
-- with none of these holds for whatever the services answer. Loops are recursion on the number of
-- rounds that are left, so no fuel is needed: the bake's rounds, the compensations, the services
-- and the pending children; the starter's loops are over its arguments, the characters of a text
-- and the rows of an answer. `int` and `int32` are integers with the conversions that wrap; where a
-- float does not fit `int32`, the result of Go's conversion is a parameter. The laws of the API
-- server speak of the deployments of one service, and others may be written to meanwhile. Nobody
-- else writes to these two between the calls of a deploy, so two deploys of one service at once are
-- left aside. An attempt at an activity has ended when the next begins.
--
-- Not modelled: the log lines of the workflows, the activities and the worker, the set-up of the
-- metrics' reporter, the texts that `-h` prints, and the clusters' manifests and scripts.
pub mod Base
pub mod Kube
pub mod Client
pub mod Activities
pub mod Audit
pub mod Settings
pub mod Workflows
pub mod Worker
pub mod Starter
pub mod Tests
