-- ===== src/Tests/Trail.antt =====
-- The audit log between the worker and the starter, at a concrete attempt.
use temporalops.Base.{pos, String, ok, Exec, pure}
use temporalops.Audit.{to_entry, record_entry}
use temporalops.Audit.Interceptor.{Info}
use temporalops.Audit.Expected.{start_of, end_of}
use temporalops.Starter.Program.{Shell}
use temporalops.Tests.Database.{Memory, memory, store, empty}
use temporalops.Tests.Starter.{desk, shell}

abbrev greeted : Info
greeted = record {
  workflow_id = "hello-1";
  run_id = "r-1";
  activity_id = "5";
  attempt_no = pos 1;
  activity_type = "Greet";
}

abbrev greeting : Exec (Unit {0}) String
greeting = pure "hello ada"

abbrev begun : Memory
begun = (record_entry memory store (start_of greeted) empty).1

abbrev ended : Memory
ended = (record_entry memory store (end_of {A = String} greeted (ok "hello ada")) begun).1

abbrev after : Shell desk memory
after = record shell { database = ended }
