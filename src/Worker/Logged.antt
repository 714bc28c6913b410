-- ===== src/Worker/Logged.antt =====
-- What one attempt at an activity leaves in the audit log.
use mathlib.Core.List.{Memᴰ, append_assoc, append-nil}
use mathlib.Core.List.Memᴰ.{head, tail, append_left, append_right}
use text.Mathlib.TextEquality.{eq_iff}
use text.Mathlib.TextPositions.{eq_refl}
use temporalops.Base.{
  String, ◌≡◌, refl, sym, ap, subst, ◌∙◌, true, false, List, [], ◌∷◌, ◌++◌, arith, str_eq, Result,
  ok, err, context,
}
use temporalops.Audit.{
  Sqlite, Store, Entry, Row, Time, same_key, has_key, to_row, stamp, record_entry,
}
use temporalops.Audit.Table.{has_key_congr, has_key-append}
use temporalops.Audit.Database.{IsLawful}
use temporalops.Audit.Log.{row_of}
use temporalops.Audit.Trail.{record_entry_new, has_key_snoc}
use temporalops.Audit.Interceptor.{Info}
use temporalops.Audit.Expected.{start_of, ended_as, approval_of}
use temporalops.Workflows.Engine.{Call}

-- The name under which the SDK registers an activity, which is that of its function.
abbrev pub activity_name : Call → String
activity_name (Call.policy_check _) = "PolicyCheck"
activity_name (Call.scale_canary _) = "ScaleCanary"
activity_name (Call.scale_down_canary _) = "ScaleDownCanary"
activity_name (Call.health_check _) = "HealthCheck"
activity_name (Call.shift_traffic _) = "ShiftTraffic"
activity_name (Call.shift_traffic_back _) = "ShiftTrafficBack"
activity_name (Call.promote _) = "Promote"
activity_name (Call.alert _) = "Alert"
activity_name (Call.record_approval _) = "RecordApproval"
activity_name (Call.greet _) = "Greet"

module _ (S : Sqlite) (store : Store S) (rows : S.State → List Row)
    (L : IsLawful S store.db rows) where
  -- The entry has its row in the table, with some time.
  abbrev pub InLog : Entry → S.State → Type 0
  InLog e s = (t : Time) × Memᴰ (to_row S (record e { timestamp = t })) (rows s)

  -- New rows may have come behind the others.
  abbrev pub Grows : S.State → S.State → Type 0
  Grows s s' = (more : List Row) × (rows s' ≡ rows s ++ more)

  pub InLog-Grows : (e : Entry) (s s' : S.State) → Grows s s' → InLog e s → InLog e s'
  InLog-Grows e s s' (more, h) (t, m) =
      (t, subst (Memᴰ (to_row S (record e { timestamp = t }))) (sym h) (append_left more m))

  -- The database takes every statement.
  abbrev pub Writable : Type 0
  Writable = (r : Row) (s : S.State) → (S.exec_insert store.db r s).0 ≡ ok tt

  -- The key of an attempt's row in a phase.
  abbrev pub key_row : Info → String → Row
  key_row info phase = to_row S (record (start_of info) { phase = phase })

  -- No row of this attempt is in the log.
  abbrev pub IsNew : Info → S.State → Type 0
  IsNew info s = (phase : String) → has_key (key_row info phase) (rows s) ≡ false

  context-ok :
      (p : String) (t : S.State) (out : Result (Unit {0}) × S.State)
      → out.0 ≡ ok tt
      → (context p (λ (_ : S.State). out) t).0 ≡ ok tt
  context-ok p t (ok _, u) h = refl
  context-ok p t (err e, u) h = cc

  record_entry-ok : (e : Entry) (s : S.State) → Writable → (record_entry S store e s).0 ≡ ok tt
  unfolding record_entry
  record_entry-ok e s writable =
      context-ok "record audit entry" (stamp S e s).1
        (S.exec_insert store.db (to_row S (stamp S e s).0) (stamp S e s).1)
        (writable (to_row S (stamp S e s).0) (stamp S e s).1)

  -- The entry is of this attempt.
  abbrev pub OfAttempt : Info → Entry → Type 0
  OfAttempt info e =
      (e.workflow_id ≡ info.workflow_id)
      × (e.run_id ≡ info.run_id)
      × (e.activity_id ≡ info.activity_id)
      × (e.attempt_no ≡ info.attempt_no)

  same_attempt_key :
      (info : Info) (e : Entry) (s : S.State)
      → OfAttempt info e
      → same_key (row_of S store rows L e s) (key_row info e.phase) ≡ true
  unfolding same_key to_row stamp
  same_attempt_key info e s (w, r, i, n) = ground (
    arith,
    eq_iff e.workflow_id info.workflow_id,
    eq_iff e.run_id info.run_id,
    eq_iff e.activity_id info.activity_id,
    eq_refl e.phase,
    w,
    r,
    i,
    n,
  )

  other_phase_key :
      (info : Info) (e : Entry) (s : S.State) (q : String)
      → str_eq q e.phase ≡ false
      → same_key (key_row info q) (row_of S store rows L e s) ≡ false
  unfolding same_key to_row stamp
  other_phase_key info e s q h = ground (arith, h)

  -- What recording an entry of the attempt comes to.
  pub record Wrote (info : Info) (e : Entry) (s t : S.State) : Type 0 where
    pub in_log : InLog e t
    pub grows : Grows s t
    pub others_new :
        (q : String)
        → str_eq q e.phase ≡ false
        → has_key (key_row info q) (rows s) ≡ false
        → has_key (key_row info q) (rows t) ≡ false

  pub record_entry-Wrote :
      (info : Info) (e : Entry) (s : S.State)
      → Writable
      → OfAttempt info e
      → has_key (key_row info e.phase) (rows s) ≡ false
      → Wrote info e s (record_entry S store e s).1
  unfolding stamp
  record_entry-Wrote info e s writable of_attempt free = record {
    in_log = (
      (stamp S e s).0.timestamp,
      subst (Memᴰ (row_of S store rows L e s)) (sym added) (append_right (rows s) (head refl)),
    );
    grows = (row_of S store rows L e s ∷ [], added);
    others_new = λ q differs new.
        ap (has_key (key_row info q)) added
        ∙ has_key_snoc _ _ (rows s) new (other_phase_key info e s q differs);
  }
    where
      added : rows (record_entry S store e s).1 ≡ rows s ++ (row_of S store rows L e s ∷ [])
      added =
          record_entry_new S store rows L e s _
            (λ i. (record_entry-ok e s writable i, (record_entry S store e s).1))
            (has_key_congr _ _ (rows s) (same_attempt_key info e s of_attempt) ∙ free)

  -- The record of the approval, of an activity that makes one.
  abbrev pub AlsoInLog : Info → Call → S.State → Type 0
  AlsoInLog info (Call.record_approval input) s = InLog (approval_of info input) s
  AlsoInLog info _ s = Unit {0}

  -- A successful attempt at a call is in the log: its start as started, the decision and who made it
  -- if it records an approval, and its end as completed, under the activity's own name.
  pub record AttemptLogged (info : Info) (c : Call) (s : S.State) : Type 0 where
    pub named : info.activity_type ≡ activity_name c
    pub start : InLog (start_of info) s
    pub approval : AlsoInLog info c s
    pub completed : InLog (ended_as "completed" "" info) s

  pub AlsoInLog-Grows :
      (info : Info) (c : Call) (s s' : S.State)
      → Grows s s'
      → AlsoInLog info c s
      → AlsoInLog info c s'
  AlsoInLog-Grows info (Call.record_approval input) s s' g h =
      InLog-Grows (approval_of info input) s s' g h
  AlsoInLog-Grows info (Call.policy_check _) s s' g h = tt
  AlsoInLog-Grows info (Call.scale_canary _) s s' g h = tt
  AlsoInLog-Grows info (Call.scale_down_canary _) s s' g h = tt
  AlsoInLog-Grows info (Call.health_check _) s s' g h = tt
  AlsoInLog-Grows info (Call.shift_traffic _) s s' g h = tt
  AlsoInLog-Grows info (Call.shift_traffic_back _) s s' g h = tt
  AlsoInLog-Grows info (Call.promote _) s s' g h = tt
  AlsoInLog-Grows info (Call.alert _) s s' g h = tt
  AlsoInLog-Grows info (Call.greet _) s s' g h = tt

  pub AttemptLogged-Grows :
      (info : Info) (c : Call) (s s' : S.State)
      → Grows s s'
      → AttemptLogged info c s
      → AttemptLogged info c s'
  AttemptLogged-Grows info c s s' g h = record {
    named = h.named;
    start = InLog-Grows (start_of info) s s' g h.start;
    approval = AlsoInLog-Grows info c s s' g h.approval;
    completed = InLog-Grows (ended_as "completed" "" info) s s' g h.completed;
  }

  -- Two attempts with the same key columns are one attempt.
  abbrev pub SameAttempt : Info → Info → Type 0
  SameAttempt i j =
      (i.workflow_id ≡ j.workflow_id)
      × (i.run_id ≡ j.run_id)
      × (i.activity_id ≡ j.activity_id)
      × (i.attempt_no ≡ j.attempt_no)

  has_key-Mem :
      (q r : Row) (xs : List Row) → Memᴰ r xs → has_key q xs ≡ false → same_key q r ≡ false
  unfolding has_key
  has_key-Mem q r [] m h = elim m [ ]
  has_key-Mem q r (x ∷ xs) (head e) h = ap (same_key q) e ∙ (ground (arith, h))
  has_key-Mem q r (x ∷ xs) (tail m) h = has_key-Mem q r xs m (ground (arith, h))

  -- What the log has a start of is not an attempt that is new to it.
  pub IsNew-Apart :
      (i j : Info) (s : S.State) → InLog (start_of i) s → IsNew j s → SameAttempt i j → ⊥
  unfolding same_key to_row
  IsNew-Apart i j s (t, m) new (w, r, a, n) =
      let apart = has_key-Mem (key_row j "start") _ (rows s) m (new "start") in
      ground (
        arith,
        apart,
        eq_iff j.workflow_id i.workflow_id,
        eq_iff j.run_id i.run_id,
        eq_iff j.activity_id i.activity_id,
        w,
        r,
        a,
        n,
      )

  -- What is new to a log was so before it grew.
  pub IsNew-before : (j : Info) (s s' : S.State) → Grows s s' → IsNew j s' → IsNew j s
  IsNew-before j s s' (more, h) new phase = ground (
    arith,
    has_key-append (key_row j phase) (rows s) more,
    ap (has_key (key_row j phase)) h,
    new phase,
  )

  pub Grows-trans : (s t u : S.State) → Grows s t → Grows t u → Grows s u
  Grows-trans s t u (xs, h) (ys, k) =
      (xs ++ ys, k ∙ ap (λ rs. rs ++ ys) h ∙ append_assoc (rows s) xs ys)

  pub Grows-refl : (s : S.State) → Grows s s
  Grows-refl s = ([], sym (append-nil (rows s)))
