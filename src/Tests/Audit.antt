-- ===== src/Tests/Audit.antt =====
-- The theorems on the log, at concrete inputs.
use temporalops.Base.{
  ℤ, pos, String, arith, ◌≡◌, ◌≢◌, refl, List, [], ◌∷◌, ◌++◌, All, true, ok, Exec, str_eq,
  if◌then◌else◌,
}
use temporalops.Audit.{Entry, Row, has_key, record_entry, query_by_workflow, stamp}
use temporalops.Audit.Table.{IsUnique}
use temporalops.Audit.Log.{row_of, record_entry_again, query-record_entry}
use temporalops.Audit.Interceptor.{Info, execute_activity, aside}
use temporalops.Audit.Callers.{
  Callers, calm, begun, returned, Interleaves, none_yet, begins, returns, insert_all,
  overlapping_calls,
}
use temporalops.Audit.Trail.{attempts_both_recorded, execute_activity_logs}
use temporalops.Tests.Database.{Memory, memory, store, table_of, memory-IsLawful, empty}

abbrev first_try : Info
first_try = record {
  workflow_id = "release-7-shop";
  run_id = "run-1";
  activity_id = "5";
  attempt_no = pos 1;
  activity_type = "ScaleCanary";
}

abbrev started : Entry
started = record {
  workflow_id = "release-7-shop";
  run_id = "run-1";
  activity_id = "5";
  attempt_no = pos 1;
  activity_type = "ScaleCanary";
  phase = "start";
  status = "started";
  actor = "";
  detail = "";
  timestamp = 0;
}

-- The same key with another detail, and the next attempt.
abbrev echoed : Entry
echoed = record started { detail = "delivered twice" }

abbrev retried : Entry
retried = record started { attempt_no = pos 2 }

abbrev after_first : Memory
after_first = (record_entry memory store started empty).1

abbrev after_second : Memory
after_second = (record_entry memory store retried after_first).1

abbrev row : Entry → Memory → Row
row = row_of memory store table_of memory-IsLawful

record_entry_again_example :
    table_of (record_entry memory store echoed after_first).1 ≡ table_of after_first
unfolding record_entry
record_entry_again_example =
    record_entry_again memory store table_of memory-IsLawful started echoed empty after_first refl
      (refl, refl, refl, refl, refl)

abbrev first_entry : Entry
first_entry = record started { timestamp = 42 }

abbrev second_entry : Entry
second_entry = record retried { timestamp = 43 }

query-record_entry_example :
    first_entry ∷ second_entry ∷ []
    ≡ (first_entry ∷ [])
      ++ (if str_eq "release-7-shop" "release-7-shop"
          then (stamp memory retried after_first).0 ∷ []
          else [])
unfolding record_entry has_key query_by_workflow temporalops.Audit.rows_of
    temporalops.Audit.insert_or_ignore temporalops.Audit.fill_time temporalops.Audit.same_key
query-record_entry_example =
    query-record_entry memory store table_of memory-IsLawful "release-7-shop" retried after_first
      after_first after_second after_second (first_entry ∷ []) (first_entry ∷ second_entry ∷ [])
      refl (omega arith) refl refl refl

attempts_differ : started.attempt_no ≢ retried.attempt_no
attempts_differ e = cc e

attempts_both_recorded_example :
    table_of after_second ≡ [] ++ (row started empty ∷ row retried after_first ∷ [])
unfolding record_entry has_key
attempts_both_recorded_example =
    attempts_both_recorded memory store table_of memory-IsLawful started retried empty after_first
      after_second attempts_differ refl refl refl refl

abbrev activity : Exec String ℤ
activity s = (ok (pos 7), s)

abbrev ended : Entry
ended = record started { phase = "end"; status = "completed" }

abbrev after_start : Memory
after_start = (record_entry memory store started empty).1

abbrev after_end : Memory
after_end = (record_entry memory store ended after_start).1

execute_activity_logs_example :
    (table_of
        (execute_activity memory store first_try (aside memory activity) ("cluster", empty)).1.1
      ≡ [] ++ (row started empty ∷ row ended after_start ∷ []))
    × ((execute_activity memory store first_try (aside memory activity) ("cluster", empty)).0
        ≡ ok (pos 7))
    × ((execute_activity memory store first_try (aside memory activity) ("cluster", empty)).1.0
        ≡ "cluster")
unfolding record_entry has_key
execute_activity_logs_example =
    execute_activity_logs memory store table_of memory-IsLawful first_try activity "cluster" empty
      after_start after_end refl refl refl refl

-- Two calls read the clock, and the later one has the mutex first.
abbrev both_wait : Callers memory store
both_wait = begun memory store retried (begun memory store started (calm memory store empty))

abbrev later_first : Callers memory store
later_first = returned memory store second_entry (first_entry ∷ []) both_wait

abbrev both_back : Callers memory store
both_back = returned memory store first_entry [] later_first

overlap : Interleaves memory store (calm memory store empty) both_back
unfolding stamp temporalops.Audit.fill_time
overlap = returns later_first first_entry [] [] refl (
    returns both_wait second_entry (first_entry ∷ []) [] refl
      (begins _ retried (begins _ started none_yet)))

overlapping_calls_example :
    (table_of both_back.database ≡ insert_all both_back.accepted [])
    × ((more : List Row) × (table_of both_back.database ≡ [] ++ more))
    × All (λ r. has_key r (table_of both_back.database) ≡ true) both_back.accepted
    × IsUnique (table_of both_back.database)
overlapping_calls_example =
    overlapping_calls memory store table_of memory-IsLawful empty both_back tt overlap
