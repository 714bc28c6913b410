-- ===== src/Worker/Tasks.antt =====
-- What one attempt at an activity does to the deployments.
use temporalops.Base.{ℤ, String, Option, some, List, [], refl, Result, ok, err}
use temporalops.Kube.{Kube}
use temporalops.Kube.View.{View, Write, apply, Within}
use temporalops.Kube.Laws.{IsLawful}
use temporalops.Client.{World, namespace}
use temporalops.Client.Plans.{Does, Makes-pure}
use temporalops.Activities.Notify.{alert, greet}
use temporalops.Activities.Writes.{
  up_writes, down_writes, shift_writes, back_writes, promote_writes, policy_check-Makes,
  scale_canary-Makes, scale_down_canary-Makes, health_check-Makes, shift_traffic-Makes,
  shift_traffic_back-Makes, promote-Makes,
}
use temporalops.Audit.{Sqlite, Store}
use temporalops.Audit.Interceptor.{Info, ApprovalAudit, record_approval, execute_activity}
use temporalops.Workflows.Engine.{Call}
use temporalops.Worker.{registered, run_task}

-- What an activity is to write, by its input alone.
abbrev pub writes_of : (ℤ → ℤ → ℤ) → Call → List Write
writes_of overflow (Call.scale_canary input) = up_writes input
writes_of overflow (Call.scale_down_canary input) = down_writes input
writes_of overflow (Call.shift_traffic input) = shift_writes overflow input
writes_of overflow (Call.shift_traffic_back input) = back_writes input
writes_of overflow (Call.promote input) = promote_writes input
writes_of overflow _ = []

module _ (overflow : ℤ → ℤ → ℤ) (K : Kube) (S : Sqlite) (view : K.Cluster → View) where
  -- The part of an outcome that is about the deployments.
  abbrev pub of_world : {A : Type 0} → Result A × (World K × S.State) → Result A × World K
  of_world (r, (w, s)) = (r, w)

  unchanged-Does : {A : Type 0} (r : Result A) (w : World K) → Does K view [] w (r, w)
  unfolding apply
  unchanged-Does (ok a) w = refl
  unchanged-Does (err e) w = ([], [], refl, refl)

  record_approval-Does :
      (store : Option (Store S)) (info : Info) (input : ApprovalAudit) (w : World K) (s : S.State)
      → Does K view [] w (of_world (record_approval S store info input (w, s)))
  unfolding record_approval
  record_approval-Does store info input w s = unchanged-Does _ w

  module _ {Mine : String → Type 0} (L : IsLawful K namespace view Mine) where
    registered-Does :
        (store : Option (Store S)) (info : Info) (c : Call) (w : World K) (s : S.State)
        → Within Mine (writes_of overflow c)
        → Does K view
            (writes_of overflow c)
            w
            (of_world (registered overflow K S store info c (w, s)))
    unfolding registered alert greet
    registered-Does store info (Call.policy_check input) w s mine =
        (policy_check-Makes K view L input).at w
    registered-Does store info (Call.scale_canary input) w s mine =
        (scale_canary-Makes K view L input mine).at w
    registered-Does store info (Call.scale_down_canary input) w s mine =
        (scale_down_canary-Makes K view L input mine).at w
    registered-Does store info (Call.health_check input) w s mine =
        (health_check-Makes K view L input).at w
    registered-Does store info (Call.shift_traffic input) w s mine =
        (shift_traffic-Makes K view L overflow input mine).at w
    registered-Does store info (Call.shift_traffic_back input) w s mine =
        (shift_traffic_back-Makes K view L input mine).at w
    registered-Does store info (Call.promote input) w s mine =
        (promote-Makes K view L input mine).at w
    registered-Does store info (Call.alert input) w s mine = (Makes-pure K view tt).at w
    registered-Does store info (Call.greet name) w s mine = unchanged-Does (greet K name w).0 w
    registered-Does store info (Call.record_approval input) w s mine =
        record_approval-Does store info input w s

    -- An attempt that succeeds has made all the writes of the activity, in order; one that fails
    -- has made a first part of them. The activities that have none change no deployment. The writes
    -- are to deployments for which the API server keeps its laws.
    pub run_task-Does :
        (store : Store S) (info : Info) (c : Call) (w : World K) (s : S.State)
        → Within Mine (writes_of overflow c)
        → Does K view
            (writes_of overflow c)
            w
            (of_world (run_task overflow K S store info c (w, s)))
    unfolding run_task execute_activity
    run_task-Does store info c w s mine = registered-Does (some store) info c w _ mine
