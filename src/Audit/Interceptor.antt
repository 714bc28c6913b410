-- ===== src/Audit/Interceptor.antt =====
-- internal/audit/interceptor.go, and internal/activities/audit_activity.go: the rows that the
-- worker writes around an activity, and the one that `RecordApproval` writes.
use temporalops.Base.{ℤ, String, Option, Result, ok, err, Exec}
use temporalops.Audit.{Sqlite, Store, Entry, record_entry, record_default}

-- What is used of `activity.Info`.
pub record Info : Type 0 where
  pub workflow_id : String
  pub run_id : String
  pub activity_id : String
  pub attempt_no : ℤ
  pub activity_type : String

-- The fields that both rows share.
abbrev base_entry : Info → Entry
base_entry info = record {
  workflow_id = info.workflow_id;
  run_id = info.run_id;
  activity_id = info.activity_id;
  attempt_no = info.attempt_no;
  activity_type = info.activity_type;
  phase = "";
  status = "";
  actor = "";
  detail = "";
  timestamp = 0;
}

unfoldable pub start_entry : Info → Entry
start_entry info = record (base_entry info) { phase = "start"; status = "started" }

unfoldable pub end_entry : {A : Type 0} → Info → Result A → Entry
end_entry info (ok _) = record (base_entry info) { phase = "end"; status = "completed" }
end_entry info (err e) = record (base_entry info) {
  phase = "end";
  status = "failed";
  detail = e.text;
}

pub record ApprovalAudit : Type 0 where
  pub actor : String
  pub decision : String
  pub detail : String

unfoldable pub approval_entry : Info → ApprovalAudit → Entry
approval_entry info input = record {
  workflow_id = info.workflow_id;
  run_id = info.run_id;
  activity_id = info.activity_id;
  attempt_no = info.attempt_no;
  activity_type = "RecordApproval";
  phase = "approval";
  status = input.decision;
  actor = input.actor;
  detail = input.detail;
  timestamp = 0;
}

module _ (S : Sqlite) where
  -- `workerInterceptor`
  pub record WorkerInterceptor : Type 0 where
    pub store : Store S

  abbrev pub new_worker_interceptor : Store S → WorkerInterceptor
  new_worker_interceptor store = record { store = store }

  -- `activityInbound`, with `Next`: what the rest of the chain makes of one task.
  pub record ActivityInbound (X A : Type 0) : Type 0 where
    pub store : Store S
    pub next : Exec (X × S.State) A

  abbrev pub intercept_activity :
      {X A : Type 0} → WorkerInterceptor → Exec (X × S.State) A → ActivityInbound X A
  intercept_activity w next = record { store = w.store; next = next }

  -- `ExecuteActivity`, on the fields of its receiver: the errors of the two writes are dropped, and the activity's result is
  -- passed on. The activity works on a state `X` and may write to the log itself.
  unfoldable pub execute_activity :
      {X A : Type 0} → Store S → Info → Exec (X × S.State) A → Exec (X × S.State) A
  execute_activity store info next (x, s) =
      let (_, s₁) = record_entry S store (start_entry info) s in
      let (res, (x', s₂)) = next (x, s₁) in
      let (_, s₃) = record_entry S store (end_entry info res) s₂ in (res, (x', s₃))

  -- An activity that does not write to the log.
  abbrev pub aside : {X A : Type 0} → Exec X A → Exec (X × S.State) A
  aside m (x, s) = let (r, x') = m x in (r, (x', s))

  unfoldable pub record_approval :
      {X : Type 0} → Option (Store S) → Info → ApprovalAudit → Exec (X × S.State) (Unit {0})
  record_approval store info input (x, s) =
      let (r, s') = record_default S store (approval_entry info input) s in (r, (x, s'))
