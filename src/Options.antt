-- ===== src/Options.antt =====
-- options.go, constants.go and the options of heartbeater.go: the defaults, what is loaded from a
-- configuration, and the bounds on connect options. An int or a duration is its bit pattern of 64 bits.
-- `time.ParseDuration` is a parameter, and so is what Go makes of a float that int cannot hold.
pub mod Loading
pub mod Sizes
pub mod Heartbeats
use channel.Base.{
  ℕ, ◌+◌, ◌-◌, ◌*◌, ◌%◌, ◌^◌, ◌==◌, List, [], ◌∷◌, Bool, true, false, not, ◌||◌, ◌&&◌, Option, none,
  some, if◌then◌else◌, ltb, leb,
}
use channel.Base.Bytes.{Bytes}
use channel.Base.Maps.{Map}

abbrev pub u64_mod : ℕ
u64_mod = 2 ^ 64

-- The sign bit of an int64.
abbrev pub is_negative : ℕ → Bool
is_negative n = leb (2 ^ 63) n

-- The order of int64: the patterns, with the sign bit turned over.
unfoldable pub signed_lt : ℕ → ℕ → Bool
signed_lt a b = ltb ((a + 2 ^ 63) % u64_mod) ((b + 2 ^ 63) % u64_mod)

abbrev pub millisecond : ℕ
millisecond = 1000000

abbrev pub second : ℕ
second = 1000000000

abbrev pub default_outstanding_connects : ℕ
default_outstanding_connects = 16

abbrev pub default_queued_connects : ℕ
default_queued_connects = 1

abbrev pub default_connect_timeout : ℕ
default_connect_timeout = 5 * second

abbrev pub min_queued_connects : ℕ
min_queued_connects = 1

abbrev pub min_outstanding_connects : ℕ
min_outstanding_connects = 1

abbrev pub min_connect_timeout : ℕ
min_connect_timeout = 30 * millisecond

abbrev pub max_queued_connects : ℕ
max_queued_connects = 5000

abbrev pub max_outstanding_connects : ℕ
max_outstanding_connects = 1000

abbrev pub max_connect_timeout : ℕ
max_connect_timeout = 60000 * millisecond

abbrev pub default_out_queue_size : ℕ
default_out_queue_size = 4

pub record ConnectOptions : Type 0 where
  pub max_queued_connects : ℕ
  pub max_outstanding_connects : ℕ
  pub connect_timeout : ℕ

-- The message strategy and the logger are not part of a configuration.
pub record Options : Type 0 where
  pub out_queue_size : ℕ
  pub connect : ConnectOptions
  pub write_timeout : ℕ

unfoldable pub default_connect_options : ConnectOptions
default_connect_options = record {
  max_queued_connects = default_queued_connects;
  max_outstanding_connects = default_outstanding_connects;
  connect_timeout = default_connect_timeout;
}

unfoldable pub default_options : Options
unfolding default_connect_options
default_options = record {
  out_queue_size = default_out_queue_size;
  connect = default_connect_options;
  write_timeout = 0;
}

pub data Bound : Type 0 where
  too_small too_large : Bound

pub data ValidateError : Type 0 where
  bad_connect_timeout bad_outstanding bad_queued : Bound → ValidateError

-- One `validate...` function: below the minimum, else above the maximum.
unfoldable pub check_bounds : (Bound → ValidateError) → ℕ → ℕ → ℕ → Option ValidateError
unfolding signed_lt
check_bounds error value lo hi =
    if signed_lt value lo
    then some (error too_small)
    else if signed_lt hi value
    then some (error too_large)
    else none

unfoldable pub validate_connect_timeout : ConnectOptions → Option ValidateError
unfolding check_bounds
validate_connect_timeout o =
    check_bounds bad_connect_timeout o.connect_timeout min_connect_timeout max_connect_timeout

unfoldable pub validate_outstanding_connects : ConnectOptions → Option ValidateError
unfolding check_bounds
validate_outstanding_connects o =
    check_bounds bad_outstanding o.max_outstanding_connects min_outstanding_connects
      max_outstanding_connects

unfoldable pub validate_queue_connects : ConnectOptions → Option ValidateError
unfolding check_bounds
validate_queue_connects o =
    check_bounds bad_queued o.max_queued_connects min_queued_connects max_queued_connects

abbrev pub first_error : Option ValidateError → Option ValidateError → Option ValidateError
first_error none e = e
first_error (some x) e = some x

-- `Validate`
unfoldable pub validate : ConnectOptions → Option ValidateError
unfolding validate_connect_timeout validate_outstanding_connects validate_queue_connects
validate o =
    first_error (validate_connect_timeout o)
      (first_error (validate_outstanding_connects o) (validate_queue_connects o))
