-- ===== src/Audit/Database.antt =====
-- What the log relies on in SQLite and in the clock: a statement that succeeds has done what its
-- text says to the table, one that fails has done nothing, and a written time reads back.
use temporalops.Base.{◌≡◌, ◌<◌, ◌≢◌, some, String, List, Result, ok, err}
use temporalops.Audit.{Sqlite, Row, Time, insert_or_ignore, rows_of}

-- In nanoseconds after the zero time.
abbrev pub year_10000 : Time
year_10000 = 315537897600000000000

module _ (S : Sqlite) (db : S.Db) (rows : S.State → List Row) where
  abbrev pub Inserted : Row → S.State → Result (Unit {0}) × S.State → Type 0
  Inserted r s (ok _, s') = rows s' ≡ insert_or_ignore r (rows s)
  Inserted r s (err _, s') = rows s' ≡ rows s

  abbrev pub Selected : String → S.State → Result (List Row) × S.State → Type 0
  Selected id s (ok found, s') = (found ≡ rows_of id (rows s)) × (rows s' ≡ rows s)
  Selected id s (err _, s') = rows s' ≡ rows s

  pub record IsLawful : Type 0 where
    pub now_reads : (s : S.State) → rows (S.now s).1 ≡ rows s
    -- The clock does not stand at the zero time.
    pub now_set : (s : S.State) → (S.now s).0 ≢ 0
    -- The layout has four digits for the year: it reads back what it wrote before the year 10000.
    pub parse-format : (t : Time) → t < year_10000 → S.parse_time (S.format_time t) ≡ some t
    pub insert-Inserted : (r : Row) (s : S.State) → Inserted r s (S.exec_insert db r s)
    pub query-Selected : (id : String) (s : S.State) → Selected id s (S.query_rows db id s)
