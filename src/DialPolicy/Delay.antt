-- ===== src/DialPolicy/Delay.antt =====
-- The delay before a dial: its bound, and where the product of durations leaves the int64.
use channel.Base.{ℕ, ◌-◌, ◌*◌, ◌^◌, ◌==◌, ◌≤◌, ◌<◌, ◌≡◌, arith, min, true, false, leb}
use native.Mathlib.Nat.{pow-le-pow_right, mul-le-mul_left}
use channel.DialPolicy.{
  BackoffConfig, BackoffDialPolicy, exponential_delay, min_duration, get_backoff_delay,
  backs_off_for,
}

-- With a base delay below 2 ^ 33 nanoseconds, about 8.6 seconds, and a maximum that is not negative,
-- the delay is the base doubled for each failure after the first, 30 times at most, up to the maximum.
pub exponential_delay-min :
    (config : BackoffConfig) (failures : ℕ)
    → config.base_delay < 2 ^ 33
    → config.max_delay < 2 ^ 63
    → exponential_delay config failures
      ≡ min (config.base_delay * 2 ^ min (failures - 1) 30) config.max_delay
unfolding exponential_delay min_duration
exponential_delay-min config failures small capped =
    let doublings = min (failures - 1) 30 in
    let factor : 2 ^ doublings ≤ 2 ^ 30 =
      pow-le-pow_right {n = 2} (omega arith) {i = doublings} {j = 30} (omega arith) in
    let product : config.base_delay * 2 ^ doublings ≤ config.base_delay * 2 ^ 30 =
      mul-le-mul_left {m = 2 ^ doublings} {n = 2 ^ 30} config.base_delay factor in
    ground (arith, product)

-- With a base delay from 2 ^ 33 up to 2 ^ 34 nanoseconds, 10 seconds for one, the delay overflows to a
-- negative duration after 31 failures in a row: `Dial` does not back off at all.
pub backoff_lost :
    (jittered : ℕ → ℕ) (p : BackoffDialPolicy)
    → 2 ^ 33 ≤ p.backoff.base_delay
    → p.backoff.base_delay < 2 ^ 34
    → p.backoff.max_delay < 2 ^ 63
    → 31 ≤ p.consecutive_failures
    → backs_off_for jittered p ≡ 0
unfolding backs_off_for get_backoff_delay exponential_delay min_duration
backoff_lost jittered p large below capped many =
    let all_doublings : min (p.consecutive_failures - 1) 30 ≡ 30 = omega arith in
    let failed : (p.consecutive_failures == 0) ≡ false = ground arith in
    let wraps : leb (2 ^ 63) (exponential_delay p.backoff p.consecutive_failures) ≡ true =
      rw all_doublings (ground arith) in
    rw (failed, wraps) (ground (arith, wraps))
