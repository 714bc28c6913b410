-- ===== src/Starter/History/Worked.antt =====
-- What the worker records, the starter prints.
use temporalops.Base.{String, List, map}
use temporalops.Audit.{Sqlite, Store, Entry, Row, rows_of, to_entry}
use temporalops.Audit.Log.{row_of}
use temporalops.Starter.History.Shown.{IsLogbook}

module _ (S : Sqlite) (rows : S.State → List Row) (L : IsLogbook S rows) (store : Store S) where
  abbrev pub recorded : Entry → S.State → Row
  recorded e s = row_of S store rows (L.lawful store.db) e s

  abbrev pub trail : String → S.State → List Entry
  trail id s = map (to_entry S) (rows_of id (rows s))
