-- ===== src/Tests/Database.antt =====
-- A log in memory that keeps the laws of `Audit.Database`. A time is written as that many strokes.
use Prim.Native.String.{count}
use text.Mathlib.TextLemmas.{length-append}
use temporalops.Base.{ℕ, zero, suc, String, ◌<>◌, ◌≡◌, refl, ap, some, List, [], arith, ok, pure}
use temporalops.Audit.{Sqlite, Store, Row, insert_or_ignore, rows_of}
use temporalops.Audit.Database.{IsLawful}

pub record Memory : Type 0 where
  pub table : List Row
  pub clock : ℕ

abbrev strokes : ℕ → String
strokes zero = ""
strokes (suc n) = "|" <> strokes n

count-strokes : (n : ℕ) → count (strokes n) ≡ n
count-strokes zero = refl
count-strokes (suc n) = omega (arith, length-append "|" (strokes n), count-strokes n)

abbrev pub memory : Sqlite
memory = record {
  State = Memory;
  Db = Unit;
  now = λ s. (suc s.clock, record s { clock = suc s.clock });
  format_time = strokes;
  parse_time = λ t. some (count t);
  open_db = λ _. pure tt;
  exec_schema = λ _. pure tt;
  close_db = λ _. pure tt;
  exec_insert = λ _ r s. (ok tt, record s { table = insert_or_ignore r s.table });
  query_rows = λ _ id s. (ok (rows_of id s.table), s);
}

abbrev pub store : Store memory
store = record { db = tt }

abbrev pub table_of : Memory → List Row
table_of s = s.table

pub memory-IsLawful : IsLawful memory store.db table_of
memory-IsLawful = record {
  now_reads = λ s. refl;
  now_set = λ s e. elim (positive s.clock e) [ ];
  parse-format = λ t early. ap some (count-strokes t);
  insert-Inserted = λ r s. refl;
  query-Selected = λ id s. (refl, refl);
}
  where
    positive : (n : ℕ) → suc n ≡ 0 → ⊥
    positive n e = omega arith

abbrev pub empty : Memory
empty = record { table = []; clock = 41 }
