-- ===== src/Audit/Callers.antt =====
-- Activities that record at the same time. `Record` reads the clock before it takes the mutex, so a
-- call is two steps, and the calls may take the mutex in another order than the one of their times.
use mathlib.Core.List.{append-nil, append_assoc}
use temporalops.Base.{
  ◌≡◌, refl, sym, ap, subst, ◌∙◌, true, ◌||◌, List, [], ◌∷◌, ◌++◌, All, Result, ok, err,
}
use temporalops.Audit.{
  Sqlite, Store, Entry, Row, to_row, stamp, insert_entry, has_key, insert_or_ignore,
}
use temporalops.Audit.Table.{
  IsUnique, insert_or_ignore-IsUnique, insert_or_ignore_appends, has_key-insert_or_ignore,
  has_key-append,
}
use temporalops.Audit.Database.{IsLawful, Inserted}
use temporalops.Audit.Log.{stamp_reads, Recorded-context}

-- The rows inserted one after another, the first one first.
abbrev pub insert_all : List Row → List Row → List Row
insert_all [] rows = rows
insert_all (r ∷ rs) rows = insert_all rs (insert_or_ignore r rows)

insert_all-append :
    (rs qs rows : List Row) → insert_all (rs ++ qs) rows ≡ insert_all qs (insert_all rs rows)
insert_all-append [] qs rows = refl
insert_all-append (r ∷ rs) qs rows = insert_all-append rs qs (insert_or_ignore r rows)

insert_all-IsUnique : (rs rows : List Row) → IsUnique rows → IsUnique (insert_all rs rows)
insert_all-IsUnique [] rows u = u
insert_all-IsUnique (r ∷ rs) rows u =
    insert_all-IsUnique rs (insert_or_ignore r rows) (insert_or_ignore-IsUnique r rows u)

insert_all_appends : (rs rows : List Row) → (more : List Row) × (insert_all rs rows ≡ rows ++ more)
insert_all_appends [] rows = ([], sym (append-nil rows))
insert_all_appends (r ∷ rs) rows =
    let (later, q) = insert_all_appends rs (insert_or_ignore r rows) in
    let (more, p) = insert_or_ignore_appends r rows in
    (more ++ later, q ∙ ap (λ xs. xs ++ later) p ∙ append_assoc rows more later)

-- A key stays.
has_key-insert_all :
    (r : Row) (rs rows : List Row) → has_key r rows ≡ true → has_key r (insert_all rs rows) ≡ true
has_key-insert_all r rs rows h =
    let (more, e) = insert_all_appends rs rows in
    ap (has_key r) e ∙ has_key-append r rows more ∙ ap (λ b. b || has_key r more) h

insert_all-All : (rs rows : List Row) → All (λ r. has_key r (insert_all rs rows) ≡ true) rs
insert_all-All [] rows = tt
insert_all-All (r ∷ rs) rows = (
  has_key-insert_all r rs (insert_or_ignore r rows) (has_key-insert_or_ignore r rows),
  insert_all-All rs (insert_or_ignore r rows),
)

module _ (S : Sqlite) (store : Store S) where
  -- The calls that have their time and wait for the mutex; the rows of those that came back without
  -- an error, in the order in which they had it; and the database.
  pub record Callers : Type 0 where
    pub waiting : List Entry
    pub accepted : List Row
    pub database : S.State

  abbrev pub calm : S.State → Callers
  calm s = record { waiting = []; accepted = []; database = s }

  abbrev pub begun : Entry → Callers → Callers
  begun e p =
      let (stamped, s) = stamp S e p.database in
      record p { waiting = p.waiting ++ (stamped ∷ []); database = s }

  abbrev accepted_row : Entry → Result (Unit {0}) → List Row
  accepted_row e (ok _) = to_row S e ∷ []
  accepted_row e (err _) = []

  -- The call for `e` has had the mutex; the others wait on.
  abbrev pub returned : Entry → List Entry → Callers → Callers
  returned e others p =
      let (r, s) = insert_entry S store e p.database in
      record { waiting = others; accepted = p.accepted ++ accepted_row e r; database = s }

  -- What calls come to, from `p`: any call may begin at any time, and any that waits may be next.
  pub data Interleaves (p : Callers) : Callers → Type 0 where
    none_yet : Interleaves p p
    begins : (q : Callers) (e : Entry) → Interleaves p q → Interleaves p (begun e q)
    returns :
        (q : Callers) (e : Entry) (us vs : List Entry)
        → q.waiting ≡ us ++ (e ∷ vs)
        → Interleaves p q
        → Interleaves p (returned e (us ++ vs) q)

  module _ (rows : S.State → List Row) (L : IsLawful S store.db rows) where
    insert_entry-Inserted :
        (e : Entry) (s : S.State)
        → Inserted S store.db rows (to_row S e) s (insert_entry S store e s)
    insert_entry-Inserted e s =
        Recorded-context S store rows L "record audit entry" (to_row S e) s s _ refl
          (L.insert-Inserted (to_row S e) s)

    Inserted-insert_all :
        (e : Entry) (s : S.State) (out : Result (Unit {0}) × S.State)
        → Inserted S store.db rows (to_row S e) s out
        → rows out.1 ≡ insert_all (accepted_row e out.0) (rows s)
    Inserted-insert_all e s (ok _, t) h = h
    Inserted-insert_all e s (err _, t) h = h

    Interleaves-rows :
        (s : S.State) (q : Callers)
        → Interleaves (calm s) q
        → rows q.database ≡ insert_all q.accepted (rows s)
    Interleaves-rows s _ none_yet = refl
    Interleaves-rows s _ (begins q e before) =
        stamp_reads S store rows L e q.database ∙ Interleaves-rows s q before
    Interleaves-rows s _ (returns q e us vs picked before) =
        Inserted-insert_all e q.database _ (insert_entry-Inserted e q.database)
        ∙ ap (insert_all (accepted_row e (insert_entry S store e q.database).0))
            (Interleaves-rows s q before)
        ∙ sym (insert_all-append q.accepted _ (rows s))

    -- Over a lawful database, however the calls of `Record` overlap: the table is what the calls that came back without an error would
    -- have made of it one after another, in the order in which they had the mutex. So the rows that
    -- were there before stay in front, the key of each of these calls is there, and if no two
    -- rows shared a key at the start, none do.
    pub overlapping_calls :
        (s : S.State) (q : Callers)
        → IsUnique (rows s)
        → Interleaves (calm s) q
        → (rows q.database ≡ insert_all q.accepted (rows s))
          × ((more : List Row) × (rows q.database ≡ rows s ++ more))
          × All (λ r. has_key r (rows q.database) ≡ true) q.accepted
          × IsUnique (rows q.database)
    overlapping_calls s q u calls =
        let made = Interleaves-rows s q calls in
        let (more, kept) = insert_all_appends q.accepted (rows s) in
        (
          made,
          (more, made ∙ kept),
          subst (λ table. All (λ r. has_key r table ≡ true) q.accepted) (sym made)
              (insert_all-All q.accepted (rows s)),
          subst IsUnique (sym made) (insert_all-IsUnique q.accepted (rows s) u),
        )
