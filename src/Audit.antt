-- ===== src/Audit.antt =====
-- internal/audit/store.go: the append-only log. SQLite, reached through database/sql, and the clock
-- are an interface over an unknown state; `Audit.Database` says what is relied on.
pub mod Table
pub mod Database
pub mod Log
pub mod Interceptor
pub mod Expected
pub mod Trail
pub mod Callers
use temporalops.Base.{
  ℕ, ℤ, pos, ◌==◌, ◌==ℤ◌, str_eq, String, ◌<>◌, Bool, true, false, ◌&&◌, ◌||◌, Option, none, some,
  List, [], ◌∷◌, ◌++◌, map, Error, Result, ok, err, Exec, pure, raise, context, attempt, ◌>>=◌,
  ◌>>◌, if◌then◌else◌,
}

-- A `time.Time`, in nanoseconds after the zero time.
abbrev pub Time : Type 0
Time = ℕ

pub record Entry : Type 0 where
  pub workflow_id : String
  pub run_id : String
  pub activity_id : String
  pub attempt_no : ℤ
  pub activity_type : String
  pub phase : String
  pub status : String
  pub actor : String
  pub detail : String
  pub timestamp : Time

-- The columns of `audit_log` but for the running `id`, which is the order of the rows.
pub record Row : Type 0 where
  pub workflow_id : String
  pub run_id : String
  pub activity_id : String
  pub attempt_no : ℤ
  pub activity_type : String
  pub phase : String
  pub status : String
  pub actor : String
  pub detail : String
  pub ts : String

-- The columns of the unique index `audit_idem`.
unfoldable pub same_key : Row → Row → Bool
same_key a b =
    str_eq a.workflow_id b.workflow_id
    && (str_eq a.run_id b.run_id
        && (str_eq a.activity_id b.activity_id
            && (a.attempt_no ==ℤ b.attempt_no && str_eq a.phase b.phase)))

unfoldable pub has_key : Row → List Row → Bool
has_key r [] = false
has_key r (q ∷ qs) = same_key r q || has_key r qs

-- `INSERT OR IGNORE` under that index.
unfoldable pub insert_or_ignore : Row → List Row → List Row
insert_or_ignore r rows = if has_key r rows then rows else rows ++ (r ∷ [])

-- `WHERE workflow_id = ? ORDER BY id`
unfoldable pub rows_of : String → List Row → List Row
rows_of id [] = []
rows_of id (r ∷ rows) = if str_eq r.workflow_id id then r ∷ rows_of id rows else rows_of id rows

pub record Sqlite : Type 1 where
  pub State : Type 0
  -- `*sql.DB`
  pub Db : Type 0
  -- `time.Now().UTC()`
  pub now : State → Time × State
  -- `Format` and `Parse` with the layout `time.RFC3339Nano`
  pub format_time : Time → String
  pub parse_time : String → Option Time
  -- `sql.Open`, `db.Exec(schema)` and `db.Close`
  pub open_db : String → Exec State Db
  pub exec_schema : Db → Exec State (Unit {0})
  pub close_db : Db → Exec State (Unit {0})
  -- the statement of `Record`, and the query of `QueryByWorkflow` with the rows that it scans
  pub exec_insert : Db → Row → Exec State (Unit {0})
  pub query_rows : Db → String → Exec State (List Row)

module _ (S : Sqlite) where
  pub record Store : Type 0 where
    pub db : S.Db

  abbrev dsn : String → String
  dsn path = "file:" <> path <> "?_pragma=busy_timeout(5000)&_pragma=journal_mode(WAL)"

  -- `db.Close()` on the way out, whose error is dropped.
  abbrev pub initialised : S.Db → Result (Unit {0}) → Exec S.State Store
  initialised db (ok _) = pure (record { db = db })
  initialised db (err e) = attempt (S.close_db db) >> context "init audit schema" (raise e)

  unfoldable pub open_store : String → Exec S.State Store
  open_store path = do
    db ← context "open audit db" (S.open_db (dsn path))
    made ← attempt (S.exec_schema db)
    initialised db made

  unfoldable pub to_row : Entry → Row
  to_row e = record {
    workflow_id = e.workflow_id;
    run_id = e.run_id;
    activity_id = e.activity_id;
    attempt_no = e.attempt_no;
    activity_type = e.activity_type;
    phase = e.phase;
    status = e.status;
    actor = e.actor;
    detail = e.detail;
    ts = S.format_time e.timestamp;
  }

  -- A zero time is filled in with the current one.
  unfoldable pub fill_time : Time → S.State → Time × S.State
  fill_time t s = if t == 0 then S.now s else (t, s)

  unfoldable pub stamp : Entry → S.State → Entry × S.State
  stamp e s = let (t, s') = fill_time e.timestamp s in (record e { timestamp = t }, s')

  -- The part of `Record` under the mutex.
  abbrev pub insert_entry : Store → Entry → Exec S.State (Unit {0})
  insert_entry store e = context "record audit entry" (S.exec_insert store.db (to_row e))

  -- `Store.Record`, as one step. `Audit.Callers` has calls that overlap.
  unfoldable pub record_entry : Store → Entry → Exec S.State (Unit {0})
  unfolding stamp to_row
  record_entry store e s = let (stamped, s') = stamp e s in insert_entry store stamped s'

  abbrev or_zero : Option Time → Time
  or_zero none = 0
  or_zero (some t) = t

  unfoldable pub to_entry : Row → Entry
  to_entry r = record {
    workflow_id = r.workflow_id;
    run_id = r.run_id;
    activity_id = r.activity_id;
    attempt_no = r.attempt_no;
    activity_type = r.activity_type;
    phase = r.phase;
    status = r.status;
    actor = r.actor;
    detail = r.detail;
    timestamp = or_zero (S.parse_time r.ts);
  }

  unfoldable pub query_by_workflow : Store → String → Exec S.State (List Entry)
  unfolding to_entry
  query_by_workflow store id = do rows ← S.query_rows store.db id; pure (map to_entry rows)

  -- The package's `Record`, on the default store if one is set.
  unfoldable pub record_default : Option Store → Entry → Exec S.State (Unit {0})
  unfolding record_entry
  record_default none e = pure tt
  record_default (some store) e = record_entry store e
