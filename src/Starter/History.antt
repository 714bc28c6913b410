-- ===== src/Starter/History.antt =====
-- `runAudit`.
pub mod Shown
pub mod Worked
use temporalops.Base.{
  ℤ, pos, String, ◌<>◌, show, Bool, true, false, List, [], ◌∷◌, length, str_eq, if◌then◌else◌,
  Result, ok, err,
}
use temporalops.Audit.{Sqlite, Store, Entry, open_store, query_by_workflow}
use temporalops.Settings.{audit_db_path}
use temporalops.Starter.Flags.{Flag, text, Values, parse}
use temporalops.Starter.Program.{
  Server, Surroundings, Line, printed, Prog, done, fatal, or_fatal, ◌>>=◌, ◌>>◌, need_database,
  consult, put_line, flags_or_exit,
}
use temporalops.Starter.Deploys.{id_flag}
use temporalops.Starter.Layout.{pad}

abbrev pub audit_flags : List Flag
audit_flags = id_flag ∷ []

module _ (H : Surroundings) where
  -- The line of one entry.
  unfoldable pub entry_line : Entry → String
  entry_line e =
      let actor = if str_eq e.actor "" then "-" else e.actor in
      "  "
      <> H.clock_text e.timestamp
      <> "  "
      <> pad 16 e.activity_type
      <> " "
      <> pad 9 e.phase
      <> " "
      <> pad 10 e.status
      <> " actor="
      <> pad 12 actor
      <> " "
      <> e.detail

  module _ (V : Server) (S : Sqlite) where
    show_entries : List Entry → Prog V S (Unit {0})
    unfolding entry_line
    show_entries [] = done tt
    show_entries (e ∷ es) = put_line (printed (entry_line e)) >> show_entries es

    unfoldable pub show_trail : String → List Entry → Prog V S (Unit {0})
    unfolding show_entries
    show_trail id [] = put_line (printed ("no audit entries for " <> id))
    show_trail id (e ∷ es) =
        put_line (
          printed ("audit trail for " <> id <> " (" <> show (pos (length (e ∷ es))) <> " entries)"))
        >> show_entries (e ∷ es)

    -- The deferred `store.Close()`, whose error is dropped.
    abbrev pub close_store : Store S → Prog V S (Unit {0})
    close_store store = consult (S.close_db store.db) >>= λ _. done tt

    unfoldable pub run_audit : List String → Prog V S (Unit {0})
    unfolding show_trail audit_db_path
    run_audit args = do
      (id, _) ← flags_or_exit (parse H.readers audit_flags args)
      if str_eq id "" then fatal "--id is required" else do
        store ← need_database "open audit db" (open_store S (audit_db_path H.getenv))
        entries ← need_database "query audit log" (query_by_workflow S store id)
        show_trail id entries
        close_store store
