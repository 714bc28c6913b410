-- ===== src/Workflows/Hello.antt =====
-- internal/workflows/hello.go: the smoke test.
use temporalops.Base.{pos, String}
use temporalops.Workflows.Options.{ActivityOptions, second}
use temporalops.Workflows.Engine.{Engine, Flow, attached, Call, execute}

abbrev pub task_queue : String
task_queue = "temporalops"

unfoldable pub hello_opts : ActivityOptions
hello_opts = record {
  start_to_close_timeout = pos 5000000000;
  heartbeat_timeout = pos 0;
  retry_policy = record {
    initial_interval = second;
    backoff_coefficient = 20;
    maximum_interval = pos 10000000000;
    maximum_attempts = 3;
  };
}

module _ (T : Engine) where
  unfoldable pub hello_workflow : String → Flow T String
  unfolding hello_opts
  hello_workflow name = execute T attached hello_opts (Call.greet name)
