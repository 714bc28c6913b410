-- ===== src/Audit/Log.antt =====
-- `Record` and `QueryByWorkflow` over a lawful database.
use mathlib.Core.List.{append-nil, append_assoc, map-append}
use mathlib.Core.Path.{◌≡⟨◌⟩◌, ◌∎}
use text.Mathlib.TextEquality.{eq_iff}
use temporalops.Base.{
  ◌≡◌, ◌<◌, sym, ap, subst, ◌∙◌, String, true, false, List, [], ◌∷◌, ◌++◌, map, arith, str_eq,
  Result, ok, err, context, continue, pure, ◌==◌, if◌then◌else◌, Bool-cases, inl, inr,
}
use temporalops.Audit.{
  Sqlite, Store, Entry, Row, same_key, has_key, insert_or_ignore, rows_of, to_row, to_entry,
  fill_time, or_zero, stamp, record_entry, query_by_workflow,
}
use temporalops.Audit.Table.{
  IsUnique, insert_or_ignore-IsUnique, insert_or_ignore_appends, has_key-insert_or_ignore,
  has_key_congr, rows_of-append,
}
use temporalops.Audit.Database.{year_10000, IsLawful, Inserted, Selected}

module _ (S : Sqlite) (store : Store S) (rows : S.State → List Row)
    (L : IsLawful S store.db rows) where
  -- The row that the call writes, if it writes one.
  abbrev pub row_of : Entry → S.State → Row
  row_of e s = to_row S (stamp S e s).0

  pub stamp_reads : (e : Entry) (s : S.State) → rows (stamp S e s).1 ≡ rows s
  unfolding stamp fill_time
  stamp_reads e s = elim (Bool-cases (e.timestamp == 0)) [
    | inl zero_time ↦ rw zero_time (L.now_reads s)
    | inr given ↦ rw given
  ]

  abbrev pub Recorded : Row → S.State → Result (Unit {0}) × S.State → Type 0
  Recorded = Inserted S store.db rows

  pub Recorded-context :
      (p : String) (r : Row) (s t : S.State) (out : Result (Unit {0}) × S.State)
      → rows t ≡ rows s
      → Recorded r t out
      → Recorded r s (context p (λ (_ : S.State). out) t)
  Recorded-context p r s t (ok _, u) e h = h ∙ ap (insert_or_ignore r) e
  Recorded-context p r s t (err x, u) e h = h ∙ e

  -- `Record` inserts the entry's row unless its key is taken, and on an error inserts nothing.
  pub record_entry-Inserted :
      (e : Entry) (s : S.State) → Inserted S store.db rows (row_of e s) s (record_entry S store e s)
  unfolding record_entry
  record_entry-Inserted e s =
      Recorded-context _ (row_of e s) s (stamp S e s).1 _ (stamp_reads e s)
        (L.insert-Inserted (row_of e s) (stamp S e s).1)

  -- What `SameKey` entries share is what the index looks at.
  abbrev pub SameKey : Entry → Entry → Type 0
  SameKey a b =
      (a.workflow_id ≡ b.workflow_id)
      × (a.run_id ≡ b.run_id)
      × (a.activity_id ≡ b.activity_id)
      × (a.attempt_no ≡ b.attempt_no)
      × (a.phase ≡ b.phase)

  same_key_rows :
      (a b : Entry) (s t : S.State) → SameKey a b → same_key (row_of b t) (row_of a s) ≡ true
  unfolding same_key to_row stamp
  same_key_rows a b s t (w, r, i, n, p) = ground (
    arith,
    eq_iff b.workflow_id a.workflow_id,
    eq_iff b.run_id a.run_id,
    eq_iff b.activity_id a.activity_id,
    eq_iff b.phase a.phase,
    w,
    r,
    i,
    n,
    p,
  )

  insert_known :
      (q : Row) (s : S.State) (out : Result (Unit {0}) × S.State)
      → has_key q (rows s) ≡ true
      → Inserted S store.db rows q s out
      → rows out.1 ≡ rows s
  unfolding insert_or_ignore
  insert_known q s (ok _, u) k h = rw k at h
  insert_known q s (err e, u) k h = h

  -- Once an entry is recorded, recording an entry with its key again changes nothing, also where
  -- the two differ in status, actor, detail or time.
  pub record_entry_again :
      (a b : Entry) (s t : S.State)
      → record_entry S store a s ≡ (ok tt, t)
      → SameKey a b
      → rows (record_entry S store b t).1 ≡ rows t
  record_entry_again a b s t done same =
      insert_known (row_of b t) t (record_entry S store b t)
        (has_key_congr (row_of b t) (row_of a s) (rows t) (same_key_rows a b s t same)
          ∙ ap (has_key (row_of a s)) made
          ∙ has_key-insert_or_ignore (row_of a s) (rows s))
        (record_entry-Inserted b t)
    where
      made : rows t ≡ insert_or_ignore (row_of a s) (rows s)
      made = subst (Inserted S store.db rows (row_of a s) s) done (record_entry-Inserted a s)

  Inserted-IsUnique :
      (q : Row) (s : S.State) (out : Result (Unit {0}) × S.State)
      → IsUnique (rows s)
      → Inserted S store.db rows q s out
      → IsUnique (rows out.1)
  Inserted-IsUnique q s (ok _, u) v h = rw h (insert_or_ignore-IsUnique q (rows s) v)
  Inserted-IsUnique q s (err e, u) v h = rw h v

  Inserted-appends :
      (q : Row) (s : S.State) (out : Result (Unit {0}) × S.State)
      → Inserted S store.db rows q s out
      → (more : List Row) × (rows out.1 ≡ rows s ++ more)
  Inserted-appends q s (ok _, u) h =
      let (more, e) = insert_or_ignore_appends q (rows s) in (more, h ∙ e)
  Inserted-appends q s (err e, u) h = ([], h ∙ sym (append-nil (rows s)))

  -- The entries recorded one after another, errors dropped.
  pub record_all : List Entry → S.State → S.State
  record_all [] s = s
  record_all (e ∷ es) s = record_all es (record_entry S store e s).1

  -- From a log in which no two rows share a key, whatever is recorded and whichever calls fail: the
  -- rows that were there stay as they are, new rows come behind them, and still no two rows share a
  -- key.
  pub record_all_appends :
      (es : List Entry) (s : S.State)
      → IsUnique (rows s)
      → IsUnique (rows (record_all es s))
        × ((more : List Row) × (rows (record_all es s) ≡ rows s ++ more))
  unfolding record_all
  record_all_appends [] s u = (u, ([], sym (append-nil (rows s))))
  record_all_appends (e ∷ es) s u =
      let (v, (later, q)) =
        record_all_appends es (record_entry S store e s).1
          (Inserted-IsUnique _ s _ u (record_entry-Inserted e s)) in
      let (more, p) = Inserted-appends _ s _ (record_entry-Inserted e s) in
      (v, (more ++ later, q ∙ ap (λ xs. xs ++ later) p ∙ append_assoc (rows s) more later))

  to_entry-to_row : (e : Entry) → e.timestamp < year_10000 → to_entry S (to_row S e) ≡ e
  unfolding to_entry to_row
  to_entry-to_row e early = λ i. record e { timestamp = back i }
    where
      back : or_zero S (S.parse_time (S.format_time e.timestamp)) ≡ e.timestamp
      back = ap (or_zero S) (L.parse-format e.timestamp early)

  queried_out :
      (id : String) (s u : S.State) (es : List Entry) (out : Result (List Row) × S.State)
      → Selected S store.db rows id s out
      → continue (λ found. pure (map (to_entry S) found)) out ≡ (ok es, u)
      → (es ≡ map (to_entry S) (rows_of id (rows s))) × (rows u ≡ rows s)
  queried_out id s u es (ok found, t) (same, kept) e =
      (sym (cc e) ∙ ap (map (to_entry S)) same, ap rows (sym (ap (λ p. p.1) e)) ∙ kept)
  queried_out id s u es (err x, t) kept e = cc

  pub queried :
      (id : String) (s u : S.State) (es : List Entry)
      → query_by_workflow S store id s ≡ (ok es, u)
      → (es ≡ map (to_entry S) (rows_of id (rows s))) × (rows u ≡ rows s)
  unfolding query_by_workflow
  queried id s u es e = queried_out id s u es _ (L.query-Selected id s) e

  pub added_rows :
      (id : String) (e : Entry) (s : S.State)
      → (stamp S e s).0.timestamp < year_10000
      → map (to_entry S) (rows_of id (row_of e s ∷ []))
        ≡ (if str_eq e.workflow_id id then (stamp S e s).0 ∷ [] else [])
  unfolding rows_of stamp to_row
  added_rows id e s early = elim (Bool-cases (str_eq e.workflow_id id)) [
    | inl hit ↦ rw hit (ap (λ x. x ∷ []) (to_entry-to_row (stamp S e s).0 early))
    | inr miss ↦ rw miss
  ]

  -- Between two queries for a workflow, recording an entry with a new key, and a time before the year
  -- 10000 once it is filled in, adds that entry with its time filled in behind the others if it is of
  -- that workflow, and nothing if it is of another.
  pub query-record_entry :
      (id : String) (e : Entry) (s s' t u : S.State) (before after : List Entry)
      → query_by_workflow S store id s ≡ (ok before, s')
      → (stamp S e s').0.timestamp < year_10000
      → has_key (row_of e s') (rows s') ≡ false
      → record_entry S store e s' ≡ (ok tt, t)
      → query_by_workflow S store id t ≡ (ok after, u)
      → after ≡ before ++ (if str_eq e.workflow_id id then (stamp S e s').0 ∷ [] else [])
  unfolding insert_or_ignore
  query-record_entry id e s s' t u before after q₁ early fresh done q₂ =
      after
      ≡⟨ (queried id t u after q₂).0 ⟩ map (to_entry S) (rows_of id (rows t))
      ≡⟨ ap (λ xs. map (to_entry S) (rows_of id xs)) made ⟩
        map (to_entry S) (rows_of id (rows s' ++ (row_of e s' ∷ [])))
      ≡⟨ ap (map (to_entry S)) (rows_of-append id (rows s') (row_of e s' ∷ [])) ⟩
        map (to_entry S) (rows_of id (rows s') ++ rows_of id (row_of e s' ∷ []))
      ≡⟨ map-append (to_entry S) (rows_of id (rows s')) (rows_of id (row_of e s' ∷ [])) ⟩
        map (to_entry S) (rows_of id (rows s')) ++ map (to_entry S) (rows_of id (row_of e s' ∷ []))
      ≡⟨ ap (◌++◌ (map (to_entry S) (rows_of id (rows s')))) (added_rows id e s' early) ⟩
        map (to_entry S) (rows_of id (rows s'))
        ++ (if str_eq e.workflow_id id then (stamp S e s').0 ∷ [] else [])
      ≡⟨ ap (λ xs. xs ++ (if str_eq e.workflow_id id then (stamp S e s').0 ∷ [] else [])) earlier ⟩
        before ++ (if str_eq e.workflow_id id then (stamp S e s').0 ∷ [] else []) ∎
    where
      inserted : rows t ≡ insert_or_ignore (row_of e s') (rows s')
      inserted = subst (Inserted S store.db rows (row_of e s') s') done (record_entry-Inserted e s')

      made : rows t ≡ rows s' ++ (row_of e s' ∷ [])
      made = rw fresh at inserted

      earlier : map (to_entry S) (rows_of id (rows s')) ≡ before
      earlier =
          ap (λ xs. map (to_entry S) (rows_of id xs)) (queried id s s' before q₁).1
          ∙ sym (queried id s s' before q₁).0
