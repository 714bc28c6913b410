-- ===== src/Activities/Notify.antt =====
-- internal/activities/alert.go and hello.go. The structured log that `Alert` writes is not
-- modelled; beside it the activity does nothing.
use temporalops.Base.{String, ◌<>◌, str_eq, Exec, pure, if◌then◌else◌}
use temporalops.Kube.{Kube}
use temporalops.Client.{World}

pub record AlertInput : Type 0 where
  pub service : String
  pub status : String
  pub reason : String

module _ (K : Kube) where
  unfoldable pub alert : AlertInput → Exec (World K) (Unit {0})
  alert input = pure tt

  unfoldable pub greet : String → Exec (World K) String
  greet name = let named = if str_eq name "" then "world" else name in pure ("hello, " <> named)
