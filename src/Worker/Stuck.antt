-- ===== src/Worker/Stuck.antt =====
-- A worker whose Kubernetes client could not be loaded.
use temporalops.Base.{ℤ, ◌≡◌, Result, ok, err}
use temporalops.Kube.{Kube}
use temporalops.Kube.View.{View}
use temporalops.Client.{World}
use temporalops.Audit.{Sqlite}

module _ (overflow : ℤ → ℤ → ℤ) (K : Kube) (S : Sqlite) (view : K.Cluster → View) where
  -- It fails, and what it works on stays as it was.
  abbrev pub FailsIdle : {A : Type 0} → World K → Result A × World K → Type 0
  FailsIdle w (ok a, w') = ⊥
  FailsIdle w (err x, w') = w' ≡ w
