-- ===== src/Tests/Dial.antt =====
-- dial_policy.go with the default backoff, and with a base delay of ten seconds.
use channel.Base.{ℕ, ◌≡◌, arith, none}
use channel.Base.Maps.{nat_eq}
use channel.DialPolicy.{BackoffConfig, BackoffDialPolicy, backs_off_for}
use channel.DialPolicy.Delay.{backoff_lost}

abbrev default_config : BackoffConfig
default_config = record {
  base_delay = 2000000000;
  max_delay = 60000000000;
  min_stable_duration = 30000000000;
  min_dial_interval = 0;
}

abbrev ten_seconds : BackoffConfig
ten_seconds = record default_config { base_delay = 10000000000 }

abbrev policy_after : BackoffConfig → ℕ → BackoffDialPolicy
policy_after config failures = record {
  backoff = config;
  consecutive_failures = failures;
  last_dial_success = none;
  last_negative_event = 0;
  last_dial_time = none;
  iteration = 0;
}

backoff_lost_example : backs_off_for (λ delay. delay) (policy_after ten_seconds 31) ≡ 0
backoff_lost_example =
    backoff_lost (λ delay. delay) (policy_after ten_seconds 31) (omega arith) (omega arith)
      (omega arith) (omega arith)
