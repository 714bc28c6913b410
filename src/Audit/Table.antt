-- ===== src/Audit/Table.antt =====
-- The rows of the table: at most one for a key, and no row is ever changed.
use temporalops.Base.{
  ◌≡◌, refl, sym, ◌==ℤ◌, ==ℤ_eq, true, false, ◌&&◌, ◌||◌, List, [], ◌∷◌, ◌++◌, arith, str_eq,
  String, All, Bool-cases, inl, inr,
}
use mathlib.Core.List.{append-nil}
use text.Mathlib.TextEquality.{eq_iff}
use text.Mathlib.TextPositions.{eq_refl}
use temporalops.Audit.{Row, same_key, has_key, insert_or_ignore, rows_of}

-- No later row has the key of an earlier one: what the index demands of the table.
abbrev pub IsUnique : List Row → Type 0
IsUnique [] = Unit
IsUnique (r ∷ rows) = All (λ q. same_key q r ≡ false) rows × IsUnique rows

pub same_key_self : (r : Row) → same_key r r ≡ true
unfolding same_key
same_key_self r =
    ground (arith, eq_refl r.workflow_id, eq_refl r.run_id, eq_refl r.activity_id, eq_refl r.phase)

All-snoc :
    (P : Row → Type 0) (rows : List Row) (r : Row) → All P rows → P r → All P (rows ++ (r ∷ []))
All-snoc P [] r h p = (p, tt)
All-snoc P (q ∷ rows) r (p', h) p = (p', All-snoc P rows r h p)

snoc-IsUnique :
    (r : Row) (rows : List Row)
    → IsUnique rows
    → has_key r rows ≡ false
    → IsUnique (rows ++ (r ∷ []))
unfolding has_key
snoc-IsUnique r [] u h = (tt, tt)
snoc-IsUnique r (q ∷ rows) (fresh, u) h =
    (All-snoc _ rows r fresh (ground arith), snoc-IsUnique r rows u (ground arith))

pub has_key-append :
    (r : Row) (xs ys : List Row) → has_key r (xs ++ ys) ≡ (has_key r xs || has_key r ys)
unfolding has_key
has_key-append r [] ys = refl
has_key-append r (x ∷ xs) ys = ground (arith, has_key-append r xs ys)

has_key-snoc : (r : Row) (rows : List Row) → has_key r (rows ++ (r ∷ [])) ≡ true
unfolding has_key
has_key-snoc r [] = ground (arith, same_key_self r)
has_key-snoc r (x ∷ rows) = ground (arith, has_key-snoc r rows)

-- The index stays satisfied.
pub insert_or_ignore-IsUnique :
    (r : Row) (rows : List Row) → IsUnique rows → IsUnique (insert_or_ignore r rows)
unfolding insert_or_ignore
insert_or_ignore-IsUnique r rows u = elim (Bool-cases (has_key r rows)) [
  | inl old ↦ rw old u
  | inr new ↦ rw new (snoc-IsUnique r rows u new)
]

-- After an insertion the key is there.
pub has_key-insert_or_ignore :
    (r : Row) (rows : List Row) → has_key r (insert_or_ignore r rows) ≡ true
unfolding insert_or_ignore
has_key-insert_or_ignore r rows = elim (Bool-cases (has_key r rows)) [
  | inl old ↦ rw old old
  | inr new ↦ rw new (has_key-snoc r rows)
]

-- Rows are only ever added at the end.
pub insert_or_ignore_appends :
    (r : Row) (rows : List Row) → (more : List Row) × (insert_or_ignore r rows ≡ rows ++ more)
unfolding insert_or_ignore
insert_or_ignore_appends r rows = elim (Bool-cases (has_key r rows)) [
  | inl old ↦ ([], rw old (sym (append-nil rows)))
  | inr new ↦ (r ∷ [], rw new)
]

-- Two rows with one key agree on the columns of the index.
pub same_key_columns :
    (a b : Row)
    → same_key a b ≡ true
    → (a.workflow_id ≡ b.workflow_id)
      × (a.run_id ≡ b.run_id)
      × (a.activity_id ≡ b.activity_id)
      × (a.attempt_no ≡ b.attempt_no)
      × (a.phase ≡ b.phase)
unfolding same_key
same_key_columns a b h = (
  (eq_iff a.workflow_id b.workflow_id).0 (ground arith),
  (eq_iff a.run_id b.run_id).0 (ground arith),
  (eq_iff a.activity_id b.activity_id).0 (ground arith),
  ==ℤ_eq a.attempt_no b.attempt_no (ground arith),
  (eq_iff a.phase b.phase).0 (ground arith),
)

same_key_congr : (a b q : Row) → same_key a b ≡ true → same_key a q ≡ same_key b q
unfolding same_key
same_key_congr a b q h =
    let (w, r, t, n, p) = same_key_columns a b h in
    λ i.
      str_eq (w i) q.workflow_id
      && (str_eq (r i) q.run_id
          && (str_eq (t i) q.activity_id && (n i ==ℤ q.attempt_no && str_eq (p i) q.phase)))

-- A row is found by its key, whatever its other columns say.
pub has_key_congr :
    (a b : Row) (rows : List Row) → same_key a b ≡ true → has_key a rows ≡ has_key b rows
unfolding has_key
has_key_congr a b [] h = refl
has_key_congr a b (q ∷ rows) h = λ i. same_key_congr a b q h i || has_key_congr a b rows h i

pub rows_of-append :
    (id : String) (xs ys : List Row) → rows_of id (xs ++ ys) ≡ rows_of id xs ++ rows_of id ys
unfolding rows_of
rows_of-append id [] ys = refl
rows_of-append id (x ∷ xs) ys = ground (arith, rows_of-append id xs ys)
