-- ===== src/Workflows/Saga.antt =====
-- internal/workflows/saga.go: the stack of compensations. What is logged is not modelled.
pub mod Order
use temporalops.Base.{
  ℕ, zero, suc, String, Option, none, some, List, [], ◌∷◌, ◌++◌, Exec, pure, attempt, ◌>>◌, ◌>>=◌,
  length, get_elem?,
}
use temporalops.Workflows.Engine.{Engine, Run, Flow, Scope, disconnected}

module _ (T : Engine) where
  pub record Compensation : Type 0 where
    pub name : String
    pub fn : Scope → Flow T (Unit {0})

  pub record Saga : Type 0 where
    pub compensations : List Compensation

  unfoldable pub new_saga : Saga
  new_saga = record { compensations = [] }

  unfoldable pub register : Saga → String → (Scope → Flow T (Unit {0})) → Saga
  register s name fn = record s {
    compensations = s.compensations ++ (record { name = name; fn = fn } ∷ []);
  }

  -- One compensation, its error dropped. There is none behind the end of the list.
  abbrev pub undo : Option Compensation → Flow T (Unit {0})
  undo none = pure tt
  undo (some c) = attempt (c.fn disconnected) >> pure tt

  -- The loop: the number of compensations that are left, which is `i + 1`.
  unfoldable pub compensate_from : List Compensation → ℕ → Flow T (Unit {0})
  compensate_from cs zero = pure tt
  compensate_from cs (suc i) = undo (get_elem? cs i) >> compensate_from cs i

  unfoldable pub compensate : Saga → Flow T (Unit {0})
  unfolding compensate_from
  compensate s = compensate_from s.compensations (length s.compensations)
