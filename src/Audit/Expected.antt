-- ===== src/Audit/Expected.antt =====
-- The rows that an attempt at an activity is to have in the log, column by column. A time of zero
-- stands for the time of the recording.
use temporalops.Base.{String, ◌≡◌, refl, Result, ok, err}
use temporalops.Audit.{Entry}
use temporalops.Audit.Interceptor.{Info, ApprovalAudit, start_entry, end_entry, approval_entry}

-- The attempt has started.
abbrev pub start_of : Info → Entry
start_of info = record {
  workflow_id = info.workflow_id;
  run_id = info.run_id;
  activity_id = info.activity_id;
  attempt_no = info.attempt_no;
  activity_type = info.activity_type;
  phase = "start";
  status = "started";
  actor = "";
  detail = "";
  timestamp = 0;
}

-- It has ended, with this status and this detail.
abbrev pub ended_as : String → String → Info → Entry
ended_as status detail info = record {
  workflow_id = info.workflow_id;
  run_id = info.run_id;
  activity_id = info.activity_id;
  attempt_no = info.attempt_no;
  activity_type = info.activity_type;
  phase = "end";
  status = status;
  actor = "";
  detail = detail;
  timestamp = 0;
}

-- Completed without a detail, or failed with the text of the error.
abbrev pub end_of : {A : Type 0} → Info → Result A → Entry
end_of info (ok _) = ended_as "completed" "" info
end_of info (err e) = ended_as "failed" e.text info

-- The decision on a deploy, and who made it.
abbrev pub approval_of : Info → ApprovalAudit → Entry
approval_of info input = record {
  workflow_id = info.workflow_id;
  run_id = info.run_id;
  activity_id = info.activity_id;
  attempt_no = info.attempt_no;
  activity_type = "RecordApproval";
  phase = "approval";
  status = input.decision;
  actor = input.actor;
  detail = input.detail;
  timestamp = 0;
}

pub start_entry-start_of : (info : Info) → start_entry info ≡ start_of info
unfolding start_entry
start_entry-start_of info = refl

pub end_entry-end_of : {A : Type 0} (info : Info) (r : Result A) → end_entry info r ≡ end_of info r
unfolding end_entry
end_entry-end_of info (ok a) = refl
end_entry-end_of info (err e) = refl

pub approval_entry-approval_of :
    (info : Info) (input : ApprovalAudit) → approval_entry info input ≡ approval_of info input
unfolding approval_entry
approval_entry-approval_of info input = refl

pub end_of-workflow :
    {A : Type 0} (info : Info) (r : Result A) → (end_of info r).workflow_id ≡ info.workflow_id
end_of-workflow info (ok a) = refl
end_of-workflow info (err e) = refl
