-- ===== src/Audit/Trail.antt =====
-- What the interceptor leaves in the log, and what it leaves alone.
use mathlib.Core.List.{append_assoc}
use temporalops.Base.{
  ◌≡◌, refl, sym, ap, ◌∙◌, subst, ◌≢◌, false, List, [], ◌∷◌, ◌++◌, arith, Result, ok, err, Exec,
  Bool-cases, inl, inr,
}
use temporalops.Audit.{
  Sqlite, Store, Entry, Row, same_key, has_key, insert_or_ignore, to_row, stamp, record_entry,
}
use temporalops.Audit.Table.{same_key_columns}
use temporalops.Audit.Database.{IsLawful, Inserted}
use temporalops.Audit.Log.{row_of, record_entry-Inserted}
use temporalops.Audit.Interceptor.{Info, execute_activity, aside}
use temporalops.Audit.Expected.{start_of, end_of, start_entry-start_of, end_entry-end_of}

pub has_key_snoc :
    (q r : Row) (rows : List Row)
    → has_key q rows ≡ false
    → same_key q r ≡ false
    → has_key q (rows ++ (r ∷ [])) ≡ false
unfolding has_key
has_key_snoc q r [] h k = ground arith
has_key_snoc q r (x ∷ rows) h k = ground (arith, has_key_snoc q r rows (ground arith) k)

module _ (S : Sqlite) (store : Store S) (rows : S.State → List Row)
    (L : IsLawful S store.db rows) where
  pub record_entry_new :
      (e : Entry) (s t : S.State)
      → record_entry S store e s ≡ (ok tt, t)
      → has_key (row_of S store rows L e s) (rows s) ≡ false
      → rows t ≡ rows s ++ (row_of S store rows L e s ∷ [])
  unfolding insert_or_ignore
  record_entry_new e s t done fresh = rw fresh at inserted
    where
      inserted : rows t ≡ insert_or_ignore (row_of S store rows L e s) (rows s)
      inserted =
          subst (Inserted S store.db rows (row_of S store rows L e s) s) done
            (record_entry-Inserted S store rows L e s)

  record_entry_pair :
      (a b : Entry) (s t u : S.State)
      → record_entry S store a s ≡ (ok tt, t)
      → record_entry S store b t ≡ (ok tt, u)
      → has_key (row_of S store rows L a s) (rows s) ≡ false
      → has_key (row_of S store rows L b t) (rows s) ≡ false
      → same_key (row_of S store rows L b t) (row_of S store rows L a s) ≡ false
      → rows u ≡ rows s ++ (row_of S store rows L a s ∷ row_of S store rows L b t ∷ [])
  record_entry_pair a b s t u da db fa fb apart =
      record_entry_new b t u db (rw first (has_key_snoc _ _ (rows s) fb apart))
      ∙ ap (λ xs. xs ++ (row_of S store rows L b t ∷ [])) first
      ∙ append_assoc (rows s) _ _
    where
      first : rows t ≡ rows s ++ (row_of S store rows L a s ∷ [])
      first = record_entry_new a s t da fa

  different_attempts :
      (a b : Entry) (s t : S.State)
      → a.attempt_no ≢ b.attempt_no
      → same_key (row_of S store rows L b t) (row_of S store rows L a s) ≡ false
  unfolding to_row stamp
  different_attempts a b s t h =
      elim (Bool-cases (same_key (row_of S store rows L b t) (row_of S store rows L a s))) [
        | inl same ↦ absurd (h (sym (same_key_columns _ _ same).3))
        | inr apart ↦ apart
      ]

  -- Two entries of different attempts that are recorded one after the other, with success and with
  -- keys that are new to the log, are both kept as rows at its end, also where workflow, run, activity and phase agree: the
  -- log is idempotent for each attempt, and not across attempts.
  pub attempts_both_recorded :
      (a b : Entry) (s t u : S.State)
      → a.attempt_no ≢ b.attempt_no
      → record_entry S store a s ≡ (ok tt, t)
      → record_entry S store b t ≡ (ok tt, u)
      → has_key (row_of S store rows L a s) (rows s) ≡ false
      → has_key (row_of S store rows L b t) (rows s) ≡ false
      → rows u ≡ rows s ++ (row_of S store rows L a s ∷ row_of S store rows L b t ∷ [])
  attempts_both_recorded a b s t u h da db fa fb =
      record_entry_pair a b s t u da db fa fb (different_attempts a b s t h)

  start_end_apart :
      {A : Type 0} (info : Info) (r : Result A) (s t : S.State)
      → same_key (row_of S store rows L (end_of info r) t) (row_of S store rows L (start_of info) s)
        ≡ false
  unfolding same_key to_row stamp
  start_end_apart info (ok a) s t = ground arith
  start_end_apart info (err e) s t = ground arith

  -- The two writes around the activity.
  execute_activity-database :
      {X A : Type 0} (info : Info) (m : Exec X A) (x : X) (s : S.State)
      → (execute_activity S store info (aside S m) (x, s)).1.1
        ≡ (record_entry S store (end_of info (m x).0) (record_entry S store (start_of info) s).1).1
  unfolding execute_activity
  execute_activity-database info m x s = λ i.
      (record_entry S store (end_entry-end_of info (m x).0 i)
        (record_entry S store (start_entry-start_of info i) s).1).1

  -- Where both writes succeed and the attempt is new to the log, the log grows by two rows of the
  -- attempt: the start, as started, and behind it the end, as completed if the activity succeeded,
  -- and as failed with the text of its error if not. The
  -- activity's result and its effects are those that it has without the interceptor.
  pub execute_activity_logs :
      {X A : Type 0} (info : Info) (m : Exec X A) (x : X) (s t u : S.State)
      → record_entry S store (start_of info) s ≡ (ok tt, t)
      → record_entry S store (end_of info (m x).0) t ≡ (ok tt, u)
      → has_key (row_of S store rows L (start_of info) s) (rows s) ≡ false
      → has_key (row_of S store rows L (end_of info (m x).0) t) (rows s) ≡ false
      → (rows (execute_activity S store info (aside S m) (x, s)).1.1
          ≡ rows s
            ++ (row_of S store rows L (start_of info) s
                ∷ row_of S store rows L (end_of info (m x).0) t
                ∷ []))
        × ((execute_activity S store info (aside S m) (x, s)).0 ≡ (m x).0)
        × ((execute_activity S store info (aside S m) (x, s)).1.0 ≡ (m x).1)
  unfolding execute_activity
  execute_activity_logs info m x s t u started ended fs fe = (
    ap rows (execute_activity-database info m x s)
        ∙ ap (λ p. rows (record_entry S store (end_of info (m x).0) p.1).1) started
        ∙ ap (λ p. rows p.1) ended
        ∙ record_entry_pair _ _ s t u started ended fs fe (start_end_apart info (m x).0 s t),
    refl,
    refl,
  )
