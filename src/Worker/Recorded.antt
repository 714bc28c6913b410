-- ===== src/Worker/Recorded.antt =====
-- Each attempt at an activity that runs to its end is in the audit log, whatever the activity is.
use temporalops.Base.{ℤ, ◌≡◌, refl, false, some, List, Result, ok, err, Exec}
use temporalops.Kube.{Kube}
use temporalops.Client.{World}
use temporalops.Activities.Policy.{policy_check}
use temporalops.Activities.Scale.{scale_canary, scale_down_canary}
use temporalops.Activities.Health.{health_check}
use temporalops.Activities.Traffic.{shift_traffic, shift_traffic_back}
use temporalops.Activities.Promote.{promote}
use temporalops.Activities.Notify.{alert, greet}
use temporalops.Audit.{Sqlite, Store, Row, has_key, record_entry, record_default}
use temporalops.Audit.Database.{IsLawful}
use temporalops.Audit.Interceptor.{
  Info, start_entry, end_entry, approval_entry, execute_activity, aside, record_approval,
  ApprovalAudit,
}
use temporalops.Workflows.Engine.{Call}
use temporalops.Audit.Expected.{start_of, end_of, approval_of}
use temporalops.Worker.{registered, run_task}
use temporalops.Worker.Logged.{
  InLog, InLog-Grows, Grows, Grows-trans, Grows-refl, Writable, key_row, IsNew, Wrote,
  record_entry-Wrote, AlsoInLog, AlsoInLog-Grows,
}

module _ (overflow : ℤ → ℤ → ℤ) (K : Kube) (S : Sqlite) (store : Store S)
    (rows : S.State → List Row) (L : IsLawful S store.db rows)
    (writable : Writable S store rows L) where
  -- What an attempt with this result has done to the log.
  pub record Wraps {A : Type 0} (info : Info) (c : Call) (r : Result A) (s t : S.State)
      : Type 0 where
    pub start : InLog S store rows L (start_of info) t
    pub approval : AlsoInLog S store rows L info c t
    pub stop : InLog S store rows L (end_of info r) t
    pub grows : Grows S store rows L s t

  -- The log once the start is recorded.
  abbrev begun : Info → S.State → S.State
  begun info s = (record_entry S store (start_entry info) s).1

  begun-Wrote :
      (info : Info) (s : S.State)
      → IsNew S store rows L info s
      → Wrote S store rows L info (start_of info) s (begun info s)
  unfolding start_entry
  begun-Wrote info s new =
      record_entry-Wrote S store rows L info (start_of info) s writable (refl, refl, refl, refl)
        (new "start")

  stop-Wrote :
      {A : Type 0} (info : Info) (r : Result A) (s : S.State)
      → has_key (key_row S store rows L info "end") (rows s) ≡ false
      → Wrote S store rows L info (end_of info r) s (record_entry S store (end_entry info r) s).1
  unfolding end_entry
  stop-Wrote info (ok a) s new =
      record_entry-Wrote S store rows L info (end_of info (ok a)) s writable
        (refl, refl, refl, refl) new
  stop-Wrote {A} info (err e) s new =
      let r : Result A = err e in
      record_entry-Wrote S store rows L info (end_of info r) s writable (refl, refl, refl, refl) new

  -- Between the start and the end the activity may have written to the log itself.
  around-Wraps :
      {A : Type 0} (info : Info) (c : Call) (r : Result A) (s mid : S.State)
      → IsNew S store rows L info s
      → Grows S store rows L (begun info s) mid
      → AlsoInLog S store rows L info c mid
      → has_key (key_row S store rows L info "end") (rows mid) ≡ false
      → Wraps info c r s (record_entry S store (end_entry info r) mid).1
  around-Wraps info c r s mid new grown also free =
      let first = begun-Wrote info s new in
      let last = stop-Wrote info r mid free in
      let later = Grows-trans S store rows L _ mid _ grown last.grows in
      record {
        start = InLog-Grows S store rows L (start_of info) _ _ later first.in_log;
        approval = AlsoInLog-Grows S store rows L info c mid _ last.grows also;
        stop = last.in_log;
        grows = Grows-trans S store rows L s _ _ first.grows later;
      }

  abbrev pub Wrapped :
      {A : Type 0} → Info → Call → S.State → Result A × (World K × S.State) → Type 0
  Wrapped info c s (r, (w, t)) = Wraps info c r s t

  aside-Wraps :
      {A : Type 0} (info : Info) (c : Call) (m : Exec (World K) A) (w : World K) (s : S.State)
      → IsNew S store rows L info s
      → AlsoInLog S store rows L info c (begun info s)
      → Wrapped info c s (execute_activity S store info (aside S m) (w, s))
  unfolding execute_activity start_entry
  aside-Wraps info c m w s new also =
      around-Wraps info c (m w).0 s (begun info s) new (Grows-refl S store rows L _) also
        ((begun-Wrote info s new).others_new "end" refl (new "end"))

  approval-Wraps :
      (info : Info) (input : ApprovalAudit) (w : World K) (s : S.State)
      → IsNew S store rows L info s
      → Wrapped info
          (Call.record_approval input)
          s
          (execute_activity S store info (record_approval S (some store) info input) (w, s))
  unfolding execute_activity record_approval record_default approval_entry start_entry
  approval-Wraps info input w s new =
      let first = begun-Wrote info s new in
      let mid =
        record_entry-Wrote S store rows L info (approval_of info input) (begun info s) writable
          (refl, refl, refl, refl) (first.others_new "approval" refl (new "approval")) in
      around-Wraps info (Call.record_approval input) _ s _ new mid.grows mid.in_log
        (mid.others_new "end" refl (first.others_new "end" refl (new "end")))

  pub run_task-Wraps :
      (info : Info) (c : Call) (w : World K) (s : S.State)
      → IsNew S store rows L info s
      → Wrapped info c s (run_task overflow K S store info c (w, s))
  unfolding run_task registered
  run_task-Wraps info (Call.policy_check input) w s new =
      aside-Wraps info (Call.policy_check input) (policy_check K input) w s new tt
  run_task-Wraps info (Call.scale_canary input) w s new =
      aside-Wraps info (Call.scale_canary input) (scale_canary K input) w s new tt
  run_task-Wraps info (Call.scale_down_canary input) w s new =
      aside-Wraps info (Call.scale_down_canary input) (scale_down_canary K input) w s new tt
  run_task-Wraps info (Call.health_check input) w s new =
      aside-Wraps info (Call.health_check input) (health_check K input) w s new tt
  run_task-Wraps info (Call.shift_traffic input) w s new =
      aside-Wraps info (Call.shift_traffic input) (shift_traffic overflow K input) w s new tt
  run_task-Wraps info (Call.shift_traffic_back input) w s new =
      aside-Wraps info (Call.shift_traffic_back input) (shift_traffic_back K input) w s new tt
  run_task-Wraps info (Call.promote input) w s new =
      aside-Wraps info (Call.promote input) (promote K input) w s new tt
  run_task-Wraps info (Call.greet name) w s new =
      aside-Wraps info (Call.greet name) (greet K name) w s new tt
  run_task-Wraps info (Call.alert input) w s new =
      aside-Wraps info (Call.alert input) (alert K input) w s new tt
  run_task-Wraps info (Call.record_approval input) w s new = approval-Wraps info input w s new
