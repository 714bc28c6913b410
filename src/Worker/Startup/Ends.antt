-- ===== src/Worker/Startup/Ends.antt =====
-- How the worker's process ends: `log.Fatalf` ends it without the deferred calls.
use temporalops.Base.{String, ◌≡◌, some, Result, ok, err, Error}
use temporalops.Audit.{Sqlite, Store, open_store}
use temporalops.Settings.{temporal_address, audit_db_path, metrics_addr}
use temporalops.Worker.Startup.{Machine, Process, setup, make_dir, close_store}

module _ (S : Sqlite) (M : Machine S) (getenv : String → String) (p : Process S M) where
  abbrev with_dir : Result (Unit {0}) × Process S M
  with_dir = make_dir S M (M.dir_of (audit_db_path getenv)) p

  abbrev opened : Result (Store S) × S.State
  opened = open_store S (audit_db_path getenv) p.database

  abbrev dialled : Process S M → Result M.Client × M.State
  dialled p₁ = M.dial (temporal_address getenv) (M.serve_metrics (metrics_addr getenv) p₁.machine)

  -- Every step has succeeded, and what was opened is closed.
  abbrev pub Polled : Process S M → Type 0
  Polled q =
      (p₁ : Process S M) × (store : Store S) × (d : S.State) × (c : M.Client) × (m : M.State)
      × (m' : M.State) × (d' : S.State) × (with_dir ≡ (ok tt, p₁))
      × (opened ≡ (ok store, d))
      × (dialled p₁ ≡ (ok c, m))
      × (M.run c (setup S M store) (some store) (m, d) ≡ (ok tt, (m', d')))
      × (q ≡ record {
        machine = M.close_metrics (M.close c m');
        database = (close_store S M store d').1;
        default_store = some store;
      })

  -- The step that has failed, and the log at that time: nobody closes it.
  pub data Failed (q : Process S M) : Type 0 where
    no_directory :
        (e : Error) (p₁ : Process S M) → with_dir ≡ (err e, p₁) → q.database ≡ p.database → Failed q
    no_log : (e : Error) (d : S.State) → opened ≡ (err e, d) → q.database ≡ d → Failed q
    no_server :
        (e : Error) (p₁ : Process S M) (store : Store S) (d : S.State) (m : M.State)
        → with_dir ≡ (ok tt, p₁)
        → opened ≡ (ok store, d)
        → dialled p₁ ≡ (err e, m)
        → q.database ≡ d
        → Failed q
    stopped :
        (e : Error) (p₁ : Process S M) (store : Store S) (d d' : S.State) (c : M.Client)
        (m m' : M.State)
        → with_dir ≡ (ok tt, p₁)
        → opened ≡ (ok store, d)
        → dialled p₁ ≡ (ok c, m)
        → M.run c (setup S M store) (some store) (m, d) ≡ (err e, (m', d'))
        → q.database ≡ d'
        → Failed q

  abbrev pub Ends : Result (Unit {0}) × Process S M → Type 0
  Ends (ok _, q) = Polled q
  Ends (err e, q) = Failed q
