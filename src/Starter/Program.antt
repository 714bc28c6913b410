-- ===== src/Starter/Program.antt =====
-- What the starter runs on: the Temporal client, the audit database, the standard output and the
-- log, and a process that may exit. `os.Exit` and `log.Fatalf` run no deferred call.
use temporalops.Base.{ℕ, ℤ, String, ◌<>◌, List, [], ◌∷◌, ◌++◌, Result, ok, err, Exec}
use temporalops.Audit.{Sqlite, Time}
use temporalops.Workflows.Engine.{ApprovalSignal}
use temporalops.Workflows.Canary.{CanaryInput, CanaryResult}
use temporalops.Workflows.Orchestrator.{ReleaseInput, ReleaseResult}
use temporalops.Starter.Flags.{Readers, Parsed, parsed, helped, failed}

-- `client.StartWorkflowOptions`
pub record StartOptions : Type 0 where
  pub id : String
  pub task_queue : String

-- The workflow that is started, with its input.
pub data Job : Type 0 where
  hello : String → Job
  canary : CanaryInput → Job
  release : ReleaseInput → Job

abbrev pub Answer : Job → Type 0
Answer (hello _) = String
Answer (canary _) = CanaryResult
Answer (release _) = ReleaseResult

-- The SDK's client.
pub record Server : Type 1 where
  pub State : Type 0
  pub Client : Type 0
  -- `WorkflowRun`, with its ids
  pub Handle : Job → Type 0
  pub id_of : (j : Job) → Handle j → String
  pub run_id_of : (j : Job) → Handle j → String
  -- `client.DefaultHostPort`
  pub default_host_port : String
  pub dial : String → Exec State Client
  pub close : Client → State → State
  pub execute_workflow : Client → StartOptions → (j : Job) → Exec State (Handle j)
  pub get : (j : Job) → Handle j → Exec State (Answer j)
  -- The texts are the workflow's id, its run and the signal's or the query's name.
  pub signal_workflow : Client → String → String → String → ApprovalSignal → Exec State (Unit {0})
  -- The query, and the decoding of its answer.
  pub Encoded : Type 0
  pub query_workflow : Client → String → String → String → Exec State Encoded
  pub decode : Encoded → Result String
  -- `time.Now().Unix()`
  pub now_unix : State → ℤ × State

-- What the starter asks of the standard library and of its surroundings.
pub record Surroundings : Type 0 where
  pub readers : Readers
  pub getenv : String → String
  -- `%q`, and `Format("15:04:05")`
  pub quote : String → String
  pub clock_text : Time → String

pub data Line : Type 0 where
  printed logged : String → Line

-- A call comes back, or the process has exited with a status.
pub data Outcome (A : Type 0) : Type 0 where
  returned : A → Outcome A
  exited : ℕ → Outcome A

module _ (V : Server) (S : Sqlite) where
  pub record Shell : Type 0 where
    pub server : V.State
    pub database : S.State
    pub output : List Line

  abbrev pub Prog : Type 0 → Type 0
  Prog A = Shell → Outcome A × Shell

module _ {V : Server} {S : Sqlite} where
  abbrev pub done : {A : Type 0} → A → Prog V S A
  done a w = (returned a, w)

  abbrev pub exit : {A : Type 0} → ℕ → Prog V S A
  exit n w = (exited n, w)

  abbrev pub next :
      {A B : Type 0} → (A → Prog V S B) → Outcome A × Shell V S → Outcome B × Shell V S
  next f (returned a, w) = f a w
  next f (exited n, w) = (exited n, w)

  infixl 5 ◌>>=◌ ◌>>◌
  abbrev pub ◌>>=◌ : {A B : Type 0} → Prog V S A → (A → Prog V S B) → Prog V S B
  ◌>>=◌ m f w = next f (m w)

  abbrev pub ◌>>◌ : {A B : Type 0} → Prog V S A → Prog V S B → Prog V S B
  m >> k = m >>= λ _. k

  abbrev pub put_line : Line → Prog V S (Unit {0})
  put_line l w = (returned tt, record w { output = w.output ++ (l ∷ []) })

  -- `log.Fatal`
  abbrev pub fatal : {A : Type 0} → String → Prog V S A
  fatal text = put_line (logged text) >> exit 1

  -- A result, or `log.Fatalf("what: %v", err)`.
  abbrev pub or_fatal : {A : Type 0} → String → Result A → Prog V S A
  or_fatal what (ok a) = done a
  or_fatal what (err e) = fatal (what <> ": " <> e.text)

  abbrev pub ask : {A : Type 0} → Exec V.State A → Prog V S (Result A)
  ask m w = let (r, s) = m w.server in (returned r, record w { server = s })

  abbrev pub consult : {A : Type 0} → Exec S.State A → Prog V S (Result A)
  consult m w = let (r, s) = m w.database in (returned r, record w { database = s })

  abbrev pub unix_time : Prog V S ℤ
  unix_time w = let (t, s) = V.now_unix w.server in (returned t, record w { server = s })

  -- The client's call, or a fatal error.
  abbrev pub need : {A : Type 0} → String → Exec V.State A → Prog V S A
  need what m = ask m >>= or_fatal what

  abbrev pub need_database : {A : Type 0} → String → Exec S.State A → Prog V S A
  need_database what m = consult m >>= or_fatal what

  -- `fs.Parse` with `flag.ExitOnError`.
  abbrev pub flags_or_exit : {A : Type 0} → Parsed A → Prog V S A
  flags_or_exit (parsed a) = done a
  flags_or_exit helped = exit 0
  flags_or_exit failed = exit 2
