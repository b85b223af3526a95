-- ===== src/DialPolicy.antt =====
-- dial_policy.go: `BackoffDialPolicy`. Times are nanoseconds on one clock; a duration is an int64, kept
-- as its bit pattern below 2 ^ 64. The dialer, the clock and the cancel channel answer through
-- `DialAnswers`; `rand` and floating point through the parameter `jittered`, the delay less its jitter;
-- `fmt.Sprintf("%s-%d")` through the parameter `suffixed`.
pub mod Delay
pub mod Groups
use channel.Base.{
  ℕ, ◌+◌, ◌-◌, ◌*◌, ◌%◌, ◌^◌, ◌==◌, min, List, [], ◌∷◌, Bool, true, false, not, ◌&&◌, ◌||◌, Option,
  none, some, if◌then◌else◌, ltb, leb,
}
use channel.Base.Bytes.{Bytes, u32_mod}
use channel.Base.Maps.{Map, insert, nat_eq}
use channel.Message.{Headers}
use channel.Message.Headers.{put_bool_header}
use channel.Message.Keys.{
  connection_id_header, type_header, is_grouped_header, group_secret_header,
  is_first_group_connection,
}
use channel.Underlays.{Underlay}

pub record BackoffConfig : Type 0 where
  pub base_delay : ℕ
  pub max_delay : ℕ
  pub min_stable_duration : ℕ
  pub min_dial_interval : ℕ

pub record BackoffDialPolicy : Type 0 where
  pub backoff : BackoffConfig
  pub consecutive_failures : ℕ
  pub last_dial_success : Option ℕ  -- none is the zero time, here and below
  pub last_negative_event : ℕ
  pub last_dial_time : Option ℕ
  pub iteration : ℕ

unfoldable pub add_failure : ℕ → BackoffDialPolicy → BackoffDialPolicy
add_failure now p = record p {
  consecutive_failures = (p.consecutive_failures + 1) % u32_mod;
  last_negative_event = now;
}

-- `UnderlayClosed`, for an underlay that lived `lifetime`.
unfoldable pub underlay_closed : ℕ → ℕ → BackoffDialPolicy → BackoffDialPolicy
unfolding add_failure
underlay_closed now lifetime p =
    if ltb lifetime p.backoff.min_stable_duration
    then add_failure now p
    else record p { consecutive_failures = 0 }

unfoldable pub proven_stable : ℕ → BackoffDialPolicy → Option ℕ → Bool
proven_stable now p none = false
proven_stable now p (some success) =
    ltb p.last_negative_event success && leb p.backoff.min_stable_duration (now - success)

-- `resetStaleFailures`
unfoldable pub reset_stale_failures : ℕ → BackoffDialPolicy → BackoffDialPolicy
unfolding proven_stable
reset_stale_failures now p =
    if p.consecutive_failures == 0
    then p
    else if proven_stable now p p.last_dial_success
    then record p { consecutive_failures = 0 }
    else p

abbrev pub i64_mod : ℕ
i64_mod = 2 ^ 64

abbrev pub is_negative : ℕ → Bool
is_negative d = leb (2 ^ 63) d

-- `min` of two durations.
unfoldable pub min_duration : ℕ → ℕ → ℕ
min_duration a b =
    if is_negative a && not (is_negative b)
    then a
    else if is_negative b && not (is_negative a)
    then b
    else min a b

unfoldable pub exponential_delay : BackoffConfig → ℕ → ℕ
unfolding min_duration
exponential_delay config failures =
    min_duration ((config.base_delay * 2 ^ min (failures - 1) 30) % i64_mod) config.max_delay

-- `delay > 0`
abbrev pub is_positive : ℕ → Bool
is_positive d = not (is_negative d) && ltb 0 d

module _ (jittered : ℕ → ℕ) where
  -- `getBackoffDelay`
  unfoldable pub get_backoff_delay : BackoffDialPolicy → ℕ
  unfolding exponential_delay
  get_backoff_delay p =
      if p.consecutive_failures == 0
      then 0
      else let delay = exponential_delay p.backoff p.consecutive_failures in
        if is_positive delay then jittered delay else delay

  -- How long `Dial` backs off: not at all for a delay that is not positive.
  unfoldable pub backs_off_for : BackoffDialPolicy → ℕ
  unfolding get_backoff_delay
  backs_off_for p = let delay = get_backoff_delay p in if is_positive delay then delay else 0

-- `groupConnectionId`: a first connection starts the next iteration.
unfoldable pub next_iteration : Bool → BackoffDialPolicy → BackoffDialPolicy
next_iteration is_first p =
    if is_first then record p { iteration = (p.iteration + 1) % u32_mod } else p

unfoldable pub group_id : (Bytes → ℕ → Bytes) → Bytes → ℕ → Bytes
group_id suffixed connection_id iteration =
    if iteration == 0 then connection_id else suffixed connection_id iteration

-- The headers of a dial.
unfoldable pub dial_headers : Bytes → Bytes → Bytes → Bool → Headers
unfolding put_bool_header insert
dial_headers underlay_type group secret is_first =
    let headers : Headers =
      (type_header, underlay_type)
      ∷ (connection_id_header, group)
      ∷ (group_secret_header, secret)
      ∷ (is_grouped_header, 1 ∷ [])
      ∷ [] in
    if is_first then put_bool_header is_first_group_connection true headers else headers

pub record DialAnswers : Type 0 where
  pub at_reset : ℕ  -- the clock when the failures are looked at
  pub cancelled_in_interval : Bool
  pub at_dial : ℕ  -- the clock when the dial time is set
  pub cancelled_in_backoff : Bool
  pub cancelled : Bool
  pub at_end : ℕ
  pub create_with_headers : Headers → Option Underlay

pub data DialResult : Type 0 where
  closed_error : DialResult
  dial_failed : DialResult
  dialed : Underlay → DialResult

unfoldable pub record_result :
    ℕ → Option Underlay → BackoffDialPolicy → BackoffDialPolicy × DialResult
unfolding add_failure
record_result now none p = (add_failure now p, dial_failed)
record_result now (some u) p = (record p { last_dial_success = some now }, dialed u)

-- The interval since the last dial has not passed. The zero time is longer ago than any interval.
unfoldable pub is_early : ℕ → ℕ → Option ℕ → Bool
is_early now interval none = false
is_early now interval (some last) = ltb (now - last) interval

-- `Dial`
unfoldable pub dial :
    (Bytes → ℕ → Bytes)
    → (ℕ → ℕ)
    → DialAnswers
    → Bytes
    → Bytes
    → Bytes
    → Bool
    → BackoffDialPolicy
    → BackoffDialPolicy × DialResult
unfolding next_iteration group_id reset_stale_failures is_early backs_off_for dial_headers
    record_result
dial suffixed jittered a underlay_type connection_id secret is_first p =
    let q = reset_stale_failures a.at_reset (next_iteration is_first p) in
    let r : BackoffDialPolicy = record q { last_dial_time = some a.at_dial } in
    let early = is_early a.at_reset q.backoff.min_dial_interval q.last_dial_time in
    let group = group_id suffixed connection_id q.iteration in
    let answer = a.create_with_headers (dial_headers underlay_type group secret is_first) in
    if early && a.cancelled_in_interval
    then (q, closed_error)
    else if ltb 0 (backs_off_for jittered r) && a.cancelled_in_backoff
    then (r, closed_error)
    else if a.cancelled
    then (r, closed_error)
    else record_result a.at_end answer r
