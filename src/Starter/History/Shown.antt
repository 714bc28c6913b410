-- ===== src/Starter/History/Shown.antt =====
-- What `starter audit` prints of the log, and what it leaves alone.
use mathlib.Core.List.{append_assoc, append-nil}
use text.Mathlib.TextEquality.{eq_iff}
use temporalops.Base.{
  pos, String, ◌<>◌, show, ◌≡◌, ◌≢◌, refl, sym, ap, ◌∙◌, subst, false, List, [], ◌∷◌, ◌++◌, map,
  length, Result, ok, err, Bool-cases, inl, inr, str_eq, continue, attempt, ◌>>=◌,
}
use temporalops.Audit.{
  Sqlite, Store, Entry, Row, rows_of, to_entry, open_store, query_by_workflow, initialised,
}
use temporalops.Audit.Database.{IsLawful}
use temporalops.Audit.Log.{queried}
use temporalops.Settings.{audit_db_path}
use temporalops.Starter.Flags.{parse, parsed}
use temporalops.Starter.Program.{
  Server, Surroundings, Line, printed, Outcome, returned, Shell, next,
}
use temporalops.Starter.History.{
  audit_flags, entry_line, show_entries, show_trail, close_store, run_audit,
}

-- The log is opened, and closed, with its rows as they were.
pub record IsLogbook (S : Sqlite) (rows : S.State → List Row) : Type 0 where
  pub lawful : (db : S.Db) → IsLawful S db rows
  pub open_Keeps : (path : String) (s : S.State) → rows (S.open_db path s).1 ≡ rows s
  pub schema_Keeps : (db : S.Db) (s : S.State) → rows (S.exec_schema db s).1 ≡ rows s
  pub close_Keeps : (db : S.Db) (s : S.State) → rows (S.close_db db s).1 ≡ rows s

module _ (H : Surroundings) where
  -- What is printed for these entries of a workflow.
  abbrev pub trail_lines : String → List Entry → List Line
  trail_lines id [] = printed ("no audit entries for " <> id) ∷ []
  trail_lines id (e ∷ es) =
      printed ("audit trail for " <> id <> " (" <> show (pos (length (e ∷ es))) <> " entries)")
      ∷ map (λ x. printed (entry_line H x)) (e ∷ es)

  module _ (V : Server) (S : Sqlite) where
    named_lem : (id : String) → id ≢ "" → str_eq id "" ≡ false
    named_lem id named = elim (Bool-cases (str_eq id "")) [
      | inl blank ↦ absurd (named ((eq_iff id "").0 blank))
      | inr given ↦ given
    ]

    abbrev wrote : Shell V S → List Line → Outcome (Unit {0}) × Shell V S
    wrote w ls = (returned tt, record w { output = w.output ++ ls })

    wrote-append :
        (w : Shell V S) (l : Line) (ls : List Line)
        → wrote (record w { output = w.output ++ (l ∷ []) }) ls ≡ wrote w (l ∷ ls)
    wrote-append w l ls =
        ap (λ (o : List Line). (returned tt, record w { output = o }))
          (append_assoc w.output (l ∷ []) ls)

    show_entries_lem :
        (es : List Entry) (w : Shell V S)
        → show_entries H V S es w ≡ wrote w (map (λ x. printed (entry_line H x)) es)
    unfolding show_entries
    show_entries_lem [] w =
        ap (λ (o : List Line). (returned tt, record w { output = o })) (sym (append-nil w.output))
    show_entries_lem (e ∷ es) w = show_entries_lem es _ ∙ wrote-append w _ _

    show_trail_lem :
        (id : String) (es : List Entry) (w : Shell V S)
        → show_trail H V S id es w ≡ wrote w (trail_lines id es)
    unfolding show_trail
    show_trail_lem id [] w = refl
    show_trail_lem id (e ∷ es) w = show_entries_lem (e ∷ es) _ ∙ wrote-append w _ _

    module _ (rows : S.State → List Row) (L : IsLogbook S rows) where
      -- What `starter audit` has done: it has printed the trail of the workflow and come back, with
      -- the server and the rows of the log as they were.
      pub record Shows (id : String) (w : Shell V S) (out : Outcome (Unit {0}) × Shell V S)
          : Type 0 where
        pub comes_back : out.0 ≡ returned tt
        pub prints :
            out.1.output
            ≡ w.output ++ trail_lines id (map (to_entry S) (rows_of id (rows w.database)))
        pub same_rows : rows out.1.database ≡ rows w.database
        pub same_server : out.1.server ≡ w.server

      made-Keeps :
          (db : S.Db) (s : S.State) (r : Result (Unit {0}) × S.State)
          → rows r.1 ≡ rows s
          → rows (initialised S db r.0 r.1).1 ≡ rows s
      made-Keeps db s (ok _, t) h = h
      made-Keeps db s (err e, t) h = L.close_Keeps db t ∙ h

      opened-Keeps :
          (s : S.State) (r : Result S.Db × S.State)
          → rows r.1 ≡ rows s
          → rows (continue (λ db. attempt (S.exec_schema db) >>= initialised S db) r).1 ≡ rows s
      opened-Keeps s (ok db, t) h = made-Keeps db s (S.exec_schema db t) (L.schema_Keeps db t ∙ h)
      opened-Keeps s (err e, t) h = h

      open_store-Keeps : (path : String) (s : S.State) → rows (open_store S path s).1 ≡ rows s
      unfolding open_store
      open_store-Keeps path s = opened-Keeps s _ (L.open_Keeps _ s)

      shown :
          (id : String) (w : Shell V S) (store : Store S) (t u : S.State) (es : List Entry)
          → rows t ≡ rows w.database
          → query_by_workflow S store id t ≡ (ok es, u)
          → es ≡ map (to_entry S) (rows_of id (rows w.database))
      shown id w store t u es before found =
          (queried S store rows (L.lawful store.db) id t u es found).0
          ∙ ap (λ xs. map (to_entry S) (rows_of id xs)) before

      -- Over a lawful log that opens and answers the query, `starter audit` of a workflow prints one
      -- line for each row that the log has of it, oldest first, under a heading, or says that there is
      -- none. It changes no row and sends nothing to the server.
      pub run_audit-Shows :
          (args : List String) (id : String) (w : Shell V S) (store : Store S) (t u : S.State)
          (es : List Entry)
          → parse H.readers audit_flags args ≡ parsed (id, tt)
          → id ≢ ""
          → open_store S (audit_db_path H.getenv) w.database ≡ (ok store, t)
          → query_by_workflow S store id t ≡ (ok es, u)
          → Shows id w (run_audit H V S args w)
      unfolding run_audit
      run_audit-Shows args id w store t u es given named opened found =
          rw (given, named_lem id named, opened, found)
            (subst (Shows id w)
              (sym (
                ap (next (λ (_ : Unit {0}). close_store H V S store))
                  (show_trail_lem id es (record w { database = u }))))
              (record {
                comes_back = refl;
                prints =
                    ap (λ xs. w.output ++ trail_lines id xs) (shown id w store t u es kept found);
                same_rows = L.close_Keeps store.db u ∙ queried_kept;
                same_server = refl;
              }))
        where
          kept : rows t ≡ rows w.database
          kept =
              sym (ap (λ o. rows o.1) opened) ∙ open_store-Keeps (audit_db_path H.getenv) w.database

          queried_kept : rows u ≡ rows w.database
          queried_kept = (queried S store rows (L.lawful store.db) id t u es found).1 ∙ kept
