-- ===== src/Tests/Decides.antt =====
-- An approval from the command line to the end of the deploy.
use temporalops.Base.{String, pos, ◌≡◌, sym, ap, false, refl, List, [], ◌∷◌, ◌++◌, ok, pure}
use temporalops.Workflows.Engine.{ApprovalSignal, received}
use temporalops.Workflows.Canary.{canary_deploy}
use temporalops.Workflows.Canary.Balance.{fresh}
use temporalops.Workflows.Canary.Course.Outcomes.{verdict}
use temporalops.Starter.Flags.{parse, parsed}
use temporalops.Starter.Program.{Server, Shell, Outcome, returned}
use temporalops.Starter.Deploys.{approve_flags, run_approve, decision}
use temporalops.Starter.Deploys.Decides.{first, IsPost, approve_decides}
use temporalops.Tests.Cluster.{at_rest}
use temporalops.Tests.Courses.{shop-IsSmooth}
use temporalops.Tests.Database.{memory, empty}
use temporalops.Tests.Rollout.{hosted, shop}
use temporalops.Tests.Starter.{surroundings, answer}

-- It keeps the signals that it was sent.
abbrev post : Server
post = record {
  State = List ApprovalSignal;
  Client = Unit {0};
  Handle = λ _. String;
  id_of = λ _ h. h;
  run_id_of = λ _ h. h;
  default_host_port = "localhost:7233";
  dial = λ _. pure tt;
  close = λ _ s. s;
  execute_workflow = λ _ options _. pure options.id;
  get = λ j _. pure (answer j);
  signal_workflow = λ _ _ _ _ signal s. (ok tt, s ++ (signal ∷ []));
  Encoded = String;
  query_workflow = λ _ _ _ _. pure "awaiting-approval";
  decode = ok;
  now_unix = λ s. (pos 17, s);
}

abbrev no_signals : Shell post memory
no_signals = record { server = []; database = empty; output = [] }

abbrev arguments : List String
arguments = "--id" ∷ "c-1" ∷ "--actor=ada" ∷ []

abbrev run : Outcome (Unit {0}) × Shell post memory
run = run_approve post memory surroundings tt arguments no_signals

abbrev sent : List ApprovalSignal → List ApprovalSignal
sent s = s

arguments_read :
    parse surroundings.readers approve_flags arguments ≡ parsed ("c-1", ("ada", (false, tt)))
unfolding parse
arguments_read = refl

run_returns : run ≡ (returned tt, run.1)
unfolding run_approve parse
run_returns = refl

run-IsPost : IsPost post memory surroundings tt hosted "c-1" sent run.1.server
unfolding run_approve parse
run-IsPost = record {
  signal-Sent = λ signal t u h. sym (ap (λ out. out.1) h);
  select-TakesFirst = λ d e. refl;
}

approve_decides_example :
    (canary_deploy hosted shop (fresh hosted shop at_rest)).0
    ≡ ok (verdict hosted shop (received (first [] (decision post memory surroundings "ada" false))))
approve_decides_example =
    approve_decides post memory surroundings tt hosted "c-1" sent shop arguments "ada" false
      no_signals run.1 at_rest arguments_read run_returns run-IsPost shop-IsSmooth refl
