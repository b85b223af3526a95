-- ===== src/Options/Loading.antt =====
-- options.go: `Load`, and `LoadHeartbeatOptions` of heartbeater.go. A setting that is wrong makes `Load`
-- return an error, and leaves those that were loaded before it in place.
use channel.Base.{
  ℕ, ◌-◌, ◌*◌, ◌%◌, ◌^◌, ◌==◌, Bool, true, false, Option, none, some, Result, ok, err, ◌>>=◌,
  if◌then◌else◌, ltb,
}
use channel.Base.Bytes.{Bytes}
use channel.Options.{u64_mod, is_negative, millisecond, Options}

-- A float64: one with a fraction or NaN, a whole number with its sign, or an infinity.
pub data Float : Type 0 where
  fractional : Float
  whole : Bool → ℕ → Float
  infinite : Float

-- What a setting may be; a list, a map and so on are `other`.
pub data Value : Type 0 where
  int : ℕ → Value
  float : Float → Value
  text : Bytes → Value
  other : Value

-- The names of the settings.
pub data Setting : Type 0 where
  out_queue_size max_queued_connects max_outstanding_connects : Setting
  connect_timeout connect_timeout_ms write_timeout : Setting
  send_interval check_interval close_unresponsive_timeout : Setting

pub data LoadError : Type 0 where
  not_whole out_of_range not_a_number negative : LoadError
  bad_duration not_text : Setting → LoadError

-- What the code asks of the configuration map.
abbrev pub Data : Type 0
Data = Setting → Option Value

-- `int(v)`: of 2 ^ 63, which is not above MaxInt as a float, Go does not say what it is.
unfoldable pub float_to_int : ℕ → Bool → ℕ → ℕ
float_to_int overflowed true n = (u64_mod - n) % u64_mod
float_to_int overflowed false n = if n == 2 ^ 63 then overflowed else n

unfoldable pub size_of_float : ℕ → Float → Result LoadError ℕ
unfolding float_to_int
size_of_float overflowed fractional = err not_whole
size_of_float overflowed infinite = err out_of_range
size_of_float overflowed (whole minus n) =
    if ltb (2 ^ 63) n then err out_of_range else ok (float_to_int overflowed minus n)

unfoldable pub size_of : ℕ → Value → Result LoadError ℕ
unfolding size_of_float
size_of overflowed (int n) = ok n
size_of overflowed (float f) = size_of_float overflowed f
size_of overflowed _ = err not_a_number

unfoldable pub not_negative : ℕ → Result LoadError ℕ
not_negative size = if is_negative size then err negative else ok size

unfoldable pub loaded_size : ℕ → Value → Result LoadError ℕ
unfolding size_of not_negative
loaded_size overflowed value = size_of overflowed value >>= not_negative

-- A setting that is ignored unless it is an int.
unfoldable pub int_or : ℕ → Option Value → ℕ
int_or old (some (int n)) = n
int_or old _ = old

-- An int64 product of an int and a duration.
unfoldable pub scaled : ℕ → ℕ → ℕ
scaled unit n = (n * unit) % u64_mod

unfoldable pub milliseconds_or : ℕ → Option Value → ℕ
unfolding scaled
milliseconds_or old (some (int n)) = scaled millisecond n
milliseconds_or old _ = old

module _ (parse_duration : Bytes → Option ℕ) where
  abbrev parsed : Setting → Option ℕ → Result LoadError ℕ
  parsed name none = err (bad_duration name)
  parsed name (some d) = ok d

  -- A duration as text.
  unfoldable pub duration_of : Setting → Value → Result LoadError ℕ
  duration_of name (text s) = parsed name (parse_duration s)
  duration_of name _ = err (not_text name)

  abbrev pub Loaded : Type 0
  Loaded = Options × Option LoadError

  -- One setting: an error stops `Load` with the options as they are.
  abbrev pub store : Result LoadError ℕ → (ℕ → Options → Options) → Options → Loaded
  store (err e) put o = (o, some e)
  store (ok n) put o = (put n o, none)

  abbrev pub store_if :
      Option Value → (Value → Result LoadError ℕ) → (ℕ → Options → Options) → Options → Loaded
  store_if none load put o = (o, none)
  store_if (some v) load put o = store (load v) put o

  abbrev pub and_then : Loaded → (Options → Loaded) → Loaded
  and_then (o, none) next = next o
  and_then (o, some e) next = (o, some e)

  abbrev pub put_size : ℕ → Options → Options
  put_size n o = record o { out_queue_size = n }

  abbrev pub put_connect_timeout : ℕ → Options → Options
  put_connect_timeout d o = record o { connect = record o.connect { connect_timeout = d } }

  abbrev pub put_write_timeout : ℕ → Options → Options
  put_write_timeout d o = record o { write_timeout = d }

  unfoldable pub load_size : ℕ → Data → Options → Loaded
  unfolding loaded_size
  load_size overflowed settings o =
      store_if (settings out_queue_size) (loaded_size overflowed) put_size o

  unfoldable pub load_connects : Data → Options → Options
  unfolding int_or
  load_connects settings o = record o {
    connect = record o.connect {
      max_queued_connects = int_or o.connect.max_queued_connects (settings max_queued_connects);
      max_outstanding_connects =
          int_or o.connect.max_outstanding_connects (settings max_outstanding_connects);
    };
  }

  -- `connectTimeout`, or else `connectTimeoutMs`.
  unfoldable pub connect_timeout_from : Data → Options → Option Value → Loaded
  unfolding duration_of milliseconds_or
  connect_timeout_from settings o (some v) =
      store (duration_of connect_timeout v) put_connect_timeout o
  connect_timeout_from settings o none = (
    put_connect_timeout (milliseconds_or o.connect.connect_timeout (settings connect_timeout_ms)) o,
    none,
  )

  unfoldable pub load_connect_timeout : Data → Options → Loaded
  unfolding connect_timeout_from
  load_connect_timeout settings o = connect_timeout_from settings o (settings connect_timeout)

  unfoldable pub load_write_timeout : Data → Options → Loaded
  unfolding duration_of
  load_write_timeout settings o =
      store_if (settings write_timeout) (duration_of write_timeout) put_write_timeout o

  -- `Load`: the options as they are left, and the error.
  unfoldable pub load : ℕ → Data → Options → Loaded
  unfolding load_size load_connects load_connect_timeout load_write_timeout
  load overflowed settings o = and_then (load_size overflowed settings o) (λ o1.
      and_then (load_connect_timeout settings (load_connects settings o1))
        (λ o2. load_write_timeout settings o2))
