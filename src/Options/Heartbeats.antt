-- ===== src/Options/Heartbeats.antt =====
-- heartbeater.go: `LoadHeartbeatOptions` and `GetDuration`.
use channel.Base.{ℕ, ◌*◌, Option, none, some, Result, ok, err, ◌>>=◌}
use channel.Base.Bytes.{Bytes}
use channel.Options.{second}
use channel.Options.Loading.{
  Setting, send_interval, check_interval, close_unresponsive_timeout, Value, LoadError, Data,
  duration_of,
}

pub record HeartbeatOptions : Type 0 where
  pub send_interval : ℕ
  pub check_interval : ℕ
  pub close_unresponsive_timeout : ℕ

abbrev default_heartbeat_send_interval : ℕ
default_heartbeat_send_interval = 10 * second

abbrev default_heartbeat_check_interval : ℕ
default_heartbeat_check_interval = second

abbrev default_heartbeat_timeout : ℕ
default_heartbeat_timeout = 30 * second

unfoldable pub default_heartbeat_options : HeartbeatOptions
default_heartbeat_options = record {
  send_interval = default_heartbeat_send_interval;
  check_interval = default_heartbeat_check_interval;
  close_unresponsive_timeout = default_heartbeat_timeout;
}

module _ (parse_duration : Bytes → Option ℕ) where
  abbrev found : Result LoadError ℕ → Result LoadError (Option ℕ)
  found (ok d) = ok (some d)
  found (err e) = err e

  -- `GetDuration`: nil where the setting is missing.
  unfoldable pub get_duration : Setting → Option Value → Result LoadError (Option ℕ)
  unfolding duration_of
  get_duration name none = ok none
  get_duration name (some v) = found (duration_of parse_duration name v)

  abbrev or_default : ℕ → Option ℕ → ℕ
  or_default d none = d
  or_default d (some n) = n

  unfoldable pub load_heartbeat_options : Data → Result LoadError HeartbeatOptions
  unfolding get_duration default_heartbeat_options
  load_heartbeat_options settings = do
    send ← get_duration send_interval (settings send_interval)
    check ← get_duration check_interval (settings check_interval)
    close ← get_duration close_unresponsive_timeout (settings close_unresponsive_timeout)
    ok (record {
      send_interval = or_default default_heartbeat_send_interval send;
      check_interval = or_default default_heartbeat_check_interval check;
      close_unresponsive_timeout = or_default default_heartbeat_timeout close;
    })
