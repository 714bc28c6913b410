-- ===== src/Worker/Startup.antt =====
-- `main` of cmd/worker: what is opened before the worker polls, and what it registers. What is
-- logged and the set-up of the metrics' reporter are not modelled.
pub mod Ends
use temporalops.Base.{
  ℕ, get_elem?, String, ◌≡◌, refl, Option, some, List, [], ◌∷◌, str_eq, ok, Exec, pure, context,
  modify, attempt, ◌>>=◌, ◌>>◌, if◌then◌else◌,
}
use temporalops.Audit.{Sqlite, Store, open_store}
use temporalops.Audit.Interceptor.{WorkerInterceptor, new_worker_interceptor}
use temporalops.Settings.{temporal_address, audit_db_path, metrics_addr}
use temporalops.Workflows.Engine.{Call}
use temporalops.Workflows.Hello.{task_queue}

pub data Workflow : Type 0 where
  hello canary_deploy release_orchestrator : Workflow

pub data Activity : Type 0 where
  greet policy_check scale_canary scale_down_canary health_check shift_traffic : Activity
  shift_traffic_back promote alert record_approval : Activity

-- What `worker.New` and the registrations make.
pub record WorkerSetup (S : Sqlite) : Type 0 where
  pub queue : String
  pub interceptor : WorkerInterceptor S
  pub workflows : List Workflow
  pub activities : List Activity

-- The operating system, the metrics server and the SDK's client and worker.
pub record Machine (S : Sqlite) : Type 1 where
  pub State : Type 0
  pub Client : Type 0
  -- `filepath.Dir` and `os.MkdirAll`
  pub dir_of : String → String
  pub mkdir_all : String → Exec State (Unit {0})
  -- the goroutine that serves the metrics at an address
  pub serve_metrics : String → State → State
  pub close_metrics : State → State
  pub dial : String → Exec State Client
  pub close : Client → State → State
  -- `w.Run(worker.InterruptCh())`: the activities that run meanwhile write to the log, through the
  -- interceptor of the set-up and through the default store.
  pub run : Client → WorkerSetup S → Option (Store S) → Exec (State × S.State) (Unit {0})

module _ (S : Sqlite) (M : Machine S) where
  -- `default_store` is the package variable `defaultStore` of `audit`.
  pub record Process : Type 0 where
    pub machine : M.State
    pub database : S.State
    pub default_store : Option (Store S)

  -- An error is `log.Fatalf`: it ends the process with no deferred call.
  abbrev pub on_machine : {A : Type 0} → Exec M.State A → Exec Process A
  on_machine m p = let (r, s) = m p.machine in (r, record p { machine = s })

  abbrev pub on_database : {A : Type 0} → Exec S.State A → Exec Process A
  on_database m p = let (r, s) = m p.database in (r, record p { database = s })

  abbrev pub run_worker : M.Client → WorkerSetup S → Exec Process (Unit {0})
  run_worker c w p =
      let (r, (s, d)) = M.run c w p.default_store (p.machine, p.database) in
      (r, record p { machine = s; database = d })

  abbrev pub make_dir : String → Exec Process (Unit {0})
  make_dir dir =
      if str_eq dir "" then pure tt else context "create audit dir" (on_machine (M.mkdir_all dir))

  -- `audit.SetDefault`
  abbrev pub set_default : Store S → Exec Process (Unit {0})
  set_default store = modify (λ p. record p { default_store = some store })

  -- `Store.Close`
  abbrev pub close_store : Store S → Exec S.State (Unit {0})
  close_store store = S.close_db store.db

  unfoldable pub setup : Store S → WorkerSetup S
  setup store = record {
    queue = task_queue;
    interceptor = new_worker_interceptor S store;
    workflows = hello ∷ canary_deploy ∷ release_orchestrator ∷ [];
    activities =
        greet ∷ policy_check ∷ scale_canary ∷ scale_down_canary ∷ health_check ∷ shift_traffic
        ∷ shift_traffic_back ∷ promote ∷ alert ∷ record_approval ∷ [];
  }

  -- The deferred calls, the last one first.
  abbrev deferred : M.Client → Store S → Exec Process (Unit {0})
  deferred c store = do
    modify (λ p. record p { machine = M.close_metrics (M.close c p.machine) })
    attempt (on_database (close_store store))
    pure tt

  unfoldable pub main : (String → String) → Exec Process (Unit {0})
  unfolding temporal_address audit_db_path metrics_addr setup
  main getenv = do
    make_dir (M.dir_of (audit_db_path getenv))
    store ← context "open audit store" (on_database (open_store S (audit_db_path getenv)))
    set_default store
    modify (λ p. record p { machine = M.serve_metrics (metrics_addr getenv) p.machine })
    c ← context "dial temporal" (on_machine (M.dial (temporal_address getenv)))
    context "worker stopped" (run_worker c (setup store))
    deferred c store

  -- The activity of a call.
  abbrev pub activity_of : Call → Activity
  activity_of (Call.greet _) = greet
  activity_of (Call.policy_check _) = policy_check
  activity_of (Call.scale_canary _) = scale_canary
  activity_of (Call.scale_down_canary _) = scale_down_canary
  activity_of (Call.health_check _) = health_check
  activity_of (Call.shift_traffic _) = shift_traffic
  activity_of (Call.shift_traffic_back _) = shift_traffic_back
  activity_of (Call.promote _) = promote
  activity_of (Call.alert _) = alert
  activity_of (Call.record_approval _) = record_approval

  -- Every activity that a workflow may ask for is registered, and on the queue that the workflows are
  -- started on.
  pub every_call_registered :
      (store : Store S) (c : Call)
      → ((i : ℕ) × (get_elem? (setup store).activities i ≡ some (activity_of c)))
        × ((setup store).queue ≡ task_queue)
  unfolding setup
  every_call_registered store (Call.greet _) = ((0, refl), refl)
  every_call_registered store (Call.policy_check _) = ((1, refl), refl)
  every_call_registered store (Call.scale_canary _) = ((2, refl), refl)
  every_call_registered store (Call.scale_down_canary _) = ((3, refl), refl)
  every_call_registered store (Call.health_check _) = ((4, refl), refl)
  every_call_registered store (Call.shift_traffic _) = ((5, refl), refl)
  every_call_registered store (Call.shift_traffic_back _) = ((6, refl), refl)
  every_call_registered store (Call.promote _) = ((7, refl), refl)
  every_call_registered store (Call.alert _) = ((8, refl), refl)
  every_call_registered store (Call.record_approval _) = ((9, refl), refl)

  -- If the directory is made, the log opens, the server answers and the worker runs until it is
  -- interrupted, the process ends well. It has polled with the set-up over the log that it opened,
  -- which is the default store too, and has closed the client, the metrics and the log.
  pub main-Polls :
      (getenv : String → String) (p p₁ : Process) (store : Store S) (d d' : S.State) (c : M.Client)
      (m m' : M.State)
      → make_dir (M.dir_of (audit_db_path getenv)) p ≡ (ok tt, p₁)
      → open_store S (audit_db_path getenv) p₁.database ≡ (ok store, d)
      → M.dial (temporal_address getenv) (M.serve_metrics (metrics_addr getenv) p₁.machine)
        ≡ (ok c, m)
      → M.run c (setup store) (some store) (m, d) ≡ (ok tt, (m', d'))
      → main getenv p ≡ (
        ok tt,
        record {
          machine = M.close_metrics (M.close c m');
          database = (close_store store d').1;
          default_store = some store;
        },
      )
  unfolding main
  main-Polls getenv p p₁ store d d' c m m' made opened dialled ran = rw (made, opened, dialled, ran)
