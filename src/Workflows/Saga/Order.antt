-- ===== src/Workflows/Saga/Order.antt =====
-- The unwinding runs every compensation once, in the reverse of the order of registration.
use mathlib.Core.List.{reverse-cons, reverse-reverse}
use temporalops.Base.{
  ℕ, zero, suc, ◌≡◌, refl, ap, sym, ◌∙◌, String, some, List, [], ◌∷◌, ◌++◌, reverse, pure, attempt,
  ◌>>◌, ok, length, get_elem?, length-append, arith, ◌<◌, ◌≤◌,
}
use temporalops.Workflows.Engine.{Engine, Run, Flow, Scope, disconnected}
use temporalops.Workflows.Saga.{Compensation, Saga, register, undo, compensate_from, compensate}

module _ (T : Engine) where
  -- Every compensation of a list, from the first to the last.
  abbrev undo_all : List (Compensation T) → Flow T (Unit {0})
  undo_all [] = pure tt
  undo_all (c ∷ cs) = undo T (some c) >> undo_all cs

  -- The first `i` compensations, with one more behind the list, do not see it.
  get_elem?-left :
      (cs : List (Compensation T)) (c : Compensation T) (i : ℕ)
      → i < length cs
      → get_elem? (cs ++ (c ∷ [])) i ≡ get_elem? cs i
  get_elem?-left [] c i h = elim h [ ]
  get_elem?-left (d ∷ cs) c zero h = refl
  get_elem?-left (d ∷ cs) c (suc i) h = get_elem?-left cs c i (omega arith)

  get_elem?-last :
      (cs : List (Compensation T)) (c : Compensation T)
      → get_elem? (cs ++ (c ∷ [])) (length cs) ≡ some c
  get_elem?-last [] c = refl
  get_elem?-last (d ∷ cs) c = get_elem?-last cs c

  compensate_from-left :
      (cs : List (Compensation T)) (c : Compensation T) (i : ℕ)
      → i ≤ length cs
      → compensate_from T (cs ++ (c ∷ [])) i ≡ compensate_from T cs i
  unfolding compensate_from
  compensate_from-left cs c zero h = refl
  compensate_from-left cs c (suc i) h =
      λ j. undo T (get_elem?-left cs c i h j) >> compensate_from-left cs c i (omega arith) j

  length-snoc :
      (cs : List (Compensation T)) (c : Compensation T) → length (cs ++ (c ∷ [])) ≡ suc (length cs)
  length-snoc cs c = omega (arith, length-append cs (c ∷ []))

  abbrev unwound : List (Compensation T) → Flow T (Unit {0})
  unwound cs = compensate_from T cs (length cs)

  unwound-snoc :
      (cs : List (Compensation T)) (c : Compensation T)
      → unwound (cs ++ (c ∷ [])) ≡ (undo T (some c) >> unwound cs)
  unfolding compensate_from
  unwound-snoc cs c = ap (compensate_from T (cs ++ (c ∷ []))) (length-snoc cs c) ∙ (λ j.
      undo T (get_elem?-last cs c j) >> compensate_from-left cs c (length cs) (omega arith) j)

  -- What was registered last is undone first, and then the rest as if it had not been there.
  pub compensate-register :
      (s : Saga T) (name : String) (fn : Scope → Flow T (Unit {0}))
      → compensate T (register T s name fn)
        ≡ (attempt (fn disconnected) >> pure tt >> compensate T s)
  unfolding compensate register
  compensate-register s name fn = unwound-snoc s.compensations (record { name = name; fn = fn })

  unwound-reverse : (cs : List (Compensation T)) → unwound (reverse cs) ≡ undo_all cs
  unfolding compensate_from
  unwound-reverse [] = refl
  unwound-reverse (c ∷ cs) =
      ap unwound (reverse-cons c cs)
      ∙ unwound-snoc (reverse cs) c
      ∙ ap (λ rest. undo T (some c) >> rest) (unwound-reverse cs)

  -- The compensations of a list called one after the other, each on the disconnected context, with
  -- what each of them returns left aside.
  abbrev pub run_all : List (Compensation T) → Run T → Run T
  run_all [] w = w
  run_all (c ∷ cs) w = run_all cs (c.fn disconnected w).1

  undo_all-run_all :
      (cs : List (Compensation T)) (w : Run T) → undo_all cs w ≡ (ok tt, run_all cs w)
  undo_all-run_all [] w = refl
  undo_all-run_all (c ∷ cs) w = undo_all-run_all cs (c.fn disconnected w).1

  -- The loop always ends without an error, and in the state that calling every compensation once
  -- leaves: each on the disconnected context, in the reverse of the order of registration, the next
  -- one also after one that has failed.
  pub compensate-reverse :
      (s : Saga T) (w : Run T) → compensate T s w ≡ (ok tt, run_all (reverse s.compensations) w)
  unfolding compensate
  compensate-reverse s w =
      ap (λ (m : Flow T (Unit {0})). m w)
        (ap unwound (sym (reverse-reverse s.compensations))
          ∙ unwound-reverse (reverse s.compensations))
      ∙ undo_all-run_all (reverse s.compensations) w
