-- ===== src/Tests/OnRecord.antt =====
-- A deploy whose workers record in a log in memory.
use temporalops.Base.{
  ℕ, suc, ◌+◌, ◌≤◌, ◌<◌, ℤ, pos, negsuc, ◌==ℤ◌, ◌≡◌, refl, String, false, none, List, [], ◌∷◌,
  arith, pure, Result,
}
use temporalops.Audit.{Row, has_key, same_key, to_row}
use temporalops.Audit.Interceptor.{Info}
use temporalops.Client.{World}
use temporalops.Worker.{run_task}
use temporalops.Worker.Logged.{Writable, Grows, Grows-refl, key_row, activity_name}
use temporalops.Workflows.Engine.{Engine, Call, Reply, timer_done}
use temporalops.Workflows.Canary.{canary_deploy}
use temporalops.Workflows.Canary.Balance.{fresh}
use temporalops.Workflows.Canary.OnRecord.{reports, IsAudited, OnRecord, canary_deploy-OnRecord}
use temporalops.Tests.Cluster.{world}
use temporalops.Tests.Cluster.{memory as cluster}
use temporalops.Tests.Database.{Memory, memory, store, table_of, memory-IsLawful, empty}
use temporalops.Tests.Rollout.{overflow, shop}

abbrev task : Call → ℕ → Info
task c n = record {
  workflow_id = "release-7-shop";
  run_id = "run-1";
  activity_id = "12";
  attempt_no = pos n;
  activity_type = activity_name c;
}

size : ℤ → ℕ
size (pos n) = n
size (negsuc n) = n

-- No row has an attempt of this number or a later one.
unfoldable above : List Row → ℕ
unfolding size
above [] = 0
above (r ∷ rows) = suc (size r.attempt_no) + above rows

later : (n : ℕ) (k : ℤ) → size k < n → (pos n ==ℤ k) ≡ false
unfolding size
later n (pos m) h = ground arith
later n (negsuc m) h = ground arith

free :
    (c : Call) (n : ℕ) (phase : String) (rows : List Row)
    → above rows ≤ n
    → has_key (key_row memory store table_of memory-IsLawful (task c n) phase) rows ≡ false
unfolding has_key same_key to_row above
free c n phase [] h = refl
free c n phase (r ∷ rows) h =
    ground (arith, later n r.attempt_no (omega arith), free c n phase rows (omega arith))

abbrev attempt : (c : Call) → Memory → Result (Reply c) × (World cluster × Memory)
attempt c s = run_task overflow cluster memory store (task c (above s.table)) c (world, s)

-- Each activity is attempted once, under a number that the log does not have.
abbrev recorded : Engine
recorded = record {
  State = Memory;
  set_query_handler = λ _. pure tt;
  execute = λ _ _ c s. ((attempt c s).0, (attempt c s).1.1);
  select = λ _ _ s. (timer_done none, s);
}

abbrev log_of : Memory → Memory
log_of s = s

grows : (s : Memory) → Grows memory store table_of memory-IsLawful s s
grows = Grows-refl memory store table_of memory-IsLawful

recorded-IsAudited :
    IsAudited overflow cluster memory store table_of memory-IsLawful recorded log_of
recorded-IsAudited = record {
  execute-Reports = λ scope options c s.
      reports (task c (above s.table)) world s _ (grows s) refl
        (λ phase. free c (above s.table) phase s.table (omega arith)) (grows (attempt c s).1.1);
  query-Grows = λ name s. grows s;
  select-Grows = λ name d s. grows s;
}

memory-Writable : Writable memory store table_of memory-IsLawful
memory-Writable r s = refl

canary_deploy-OnRecord_example :
    let after = (canary_deploy recorded shop (fresh recorded shop empty)).1 in
    (infos : List Info) × OnRecord overflow cluster memory store table_of memory-IsLawful
      (log_of after.engine)
      after.steps
      infos
canary_deploy-OnRecord_example =
    canary_deploy-OnRecord overflow cluster memory store table_of memory-IsLawful memory-Writable
      recorded log_of recorded-IsAudited shop empty
