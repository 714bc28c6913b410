-- ===== src/Starter/Main.antt =====
-- `main`.
pub mod Closing
use temporalops.Base.{String, List, [], ◌∷◌, str_eq, if◌then◌else◌}
use temporalops.Audit.{Sqlite}
use temporalops.Starter.Program.{
  Server, Surroundings, logged, Prog, returned, exit, ◌>>=◌, ◌>>◌, need, put_line,
}
use temporalops.Starter.Deploys.{run_hello, run_canary, run_approve, run_status}
use temporalops.Starter.Releases.{run_release}
use temporalops.Starter.History.{run_audit}

module _ (V : Server) (S : Sqlite) (H : Surroundings) where
  unfoldable pub usage : Prog V S (Unit {0})
  usage =
      put_line (logged "usage: starter <hello|canary|release|approve|status|audit> [flags]")
      >> exit 2

  unfoldable pub host_port : String
  host_port =
      if str_eq (H.getenv "TEMPORAL_ADDRESS") ""
      then V.default_host_port
      else H.getenv "TEMPORAL_ADDRESS"

  unfoldable pub dispatch : V.Client → String → List String → Prog V S (Unit {0})
  unfolding usage
  dispatch c cmd args =
      if str_eq cmd "hello"
      then run_hello V S H c args
      else if str_eq cmd "canary"
      then run_canary V S H c args
      else if str_eq cmd "release"
      then run_release V S H c args
      else if str_eq cmd "approve"
      then run_approve V S H c args
      else if str_eq cmd "status"
      then run_status V S H c args
      else if str_eq cmd "audit"
      then run_audit H V S args
      else usage

  -- The deferred `c.Close()`.
  abbrev pub hang_up : V.Client → Prog V S (Unit {0})
  hang_up c w = (returned tt, record w { server = V.close c w.server })

  -- The arguments behind the program's name.
  unfoldable pub main : List String → Prog V S (Unit {0})
  unfolding usage host_port dispatch
  main [] = usage
  main (cmd ∷ args) = do c ← need "dial temporal" (V.dial host_port); dispatch c cmd args; hang_up c
