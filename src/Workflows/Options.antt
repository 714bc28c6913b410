-- ===== src/Workflows/Options.antt =====
-- internal/workflows/canary.go: the timeouts and retry policies of the activities.
use temporalops.Base.{ℕ, ◌+◌, ◌*◌, ◌≤◌, ◌<◌, ◌≡◌, ap, ◌∙◌, arith, ℤ, pos, ◌+ℤ◌, ◌*ℤ◌, to_int64}

-- A `time.Duration`: nanoseconds in an int64.
abbrev pub Duration : Type 0
Duration = ℤ

abbrev pub second : Duration
second = pos 1000000000

abbrev pub minute : Duration
minute = pos 60000000000

-- `time.Duration(n) * time.Second`, which wraps.
unfoldable pub seconds : ℤ → Duration
unfolding to_int64 ◌*ℤ◌
seconds n = to_int64 (n *ℤ second)

-- `temporal.RetryPolicy`, with what it leaves out at its zero value. The backoff coefficient is in
-- tenths.
pub record RetryPolicy : Type 0 where
  pub initial_interval : Duration
  pub backoff_coefficient : ℕ
  pub maximum_interval : Duration
  pub maximum_attempts : ℕ

pub record ActivityOptions : Type 0 where
  pub start_to_close_timeout : Duration
  pub heartbeat_timeout : Duration
  pub retry_policy : RetryPolicy

unfoldable pub policy_opts : ActivityOptions
policy_opts = record {
  start_to_close_timeout = pos 30000000000;
  heartbeat_timeout = pos 0;
  retry_policy = record {
    initial_interval = second;
    backoff_coefficient = 20;
    maximum_interval = pos 10000000000;
    maximum_attempts = 4;
  };
}

unfoldable pub scale_opts : ActivityOptions
scale_opts = record {
  start_to_close_timeout = minute;
  heartbeat_timeout = pos 0;
  retry_policy = record {
    initial_interval = pos 2000000000;
    backoff_coefficient = 20;
    maximum_interval = pos 20000000000;
    maximum_attempts = 5;
  };
}

unfoldable pub traffic_opts : ActivityOptions
unfolding scale_opts
traffic_opts = scale_opts

unfoldable pub promote_opts : ActivityOptions
unfolding scale_opts
promote_opts = scale_opts

-- The timeout outlasts the bake by half a minute.
unfoldable pub health_opts : ℤ → ActivityOptions
unfolding seconds ◌+ℤ◌
health_opts bake_seconds = record {
  start_to_close_timeout = to_int64 (seconds bake_seconds +ℤ pos 30000000000);
  heartbeat_timeout = pos 15000000000;
  retry_policy = record {
    initial_interval = pos 2000000000;
    backoff_coefficient = 20;
    maximum_interval = pos 0;
    maximum_attempts = 2;
  };
}

unfoldable pub alert_opts : ActivityOptions
alert_opts = record {
  start_to_close_timeout = pos 15000000000;
  heartbeat_timeout = pos 0;
  retry_policy = record {
    initial_interval = pos 0;
    backoff_coefficient = 0;
    maximum_interval = pos 0;
    maximum_attempts = 3;
  };
}

to_int64_small : (m : ℕ) → m < 9223372036854775808 → to_int64 (pos m) ≡ pos m
unfolding to_int64
to_int64_small m h = ground arith

product : (n m : ℕ) → pos n *ℤ pos m ≡ pos (n * m)
unfolding ◌*ℤ◌
product n m = ground arith

sum : (n m : ℕ) → pos n +ℤ pos m ≡ pos (n + m)
unfolding ◌+ℤ◌
sum n m = ground arith

-- The health check's timeout outlasts the bake: for up to 9223372006 seconds, neither the bake's
-- length nor the timeout wraps around, and the timeout is the longer by half a minute.
pub health_opts-outlasts :
    (n : ℕ)
    → n ≤ 9223372006
    → (seconds (pos n) ≡ pos (n * 1000000000))
      × ((health_opts (pos n)).start_to_close_timeout ≡ pos (n * 1000000000 + 30000000000))
unfolding health_opts seconds
health_opts-outlasts n h = (
  bake_length,
  ap (λ d. to_int64 (d +ℤ pos 30000000000)) bake_length
      ∙ ap to_int64 (sum (n * 1000000000) 30000000000)
      ∙ to_int64_small (n * 1000000000 + 30000000000) (omega arith),
)
  where
    bake_length : seconds (pos n) ≡ pos (n * 1000000000)
    bake_length = ap to_int64 (product n 1000000000) ∙ to_int64_small (n * 1000000000) (omega arith)
