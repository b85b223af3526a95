-- ===== src/Tests/Options.antt =====
-- Options from configurations.
use channel.Base.{ℕ, ◌≡◌, refl, [], ◌∷◌, false, Option, none, some, if◌then◌else◌, ◌*◌}
use channel.Base.Bytes.{Bytes}
use channel.Base.Maps.{bytes_beq}
use channel.Options.{default_options, validate, second}
use channel.Options.Loading.{
  out_queue_size, connect_timeout, write_timeout, float, text, whole, bad_duration, Data, load,
  load_size, load_connect_timeout,
}

-- A parser that knows "5s".
abbrev parse_duration : Bytes → Option ℕ
parse_duration s = if bytes_beq s (53 ∷ 115 ∷ []) then some (5 * second) else none

abbrev settings : Data
settings out_queue_size = some (float (whole false 8))
settings connect_timeout = some (text (53 ∷ []))
settings write_timeout = some (text (53 ∷ 115 ∷ []))
settings _ = none

defaults_are_valid : validate default_options.connect ≡ none
unfolding validate default_options
defaults_are_valid = refl

-- The timeout is wrong, so the write timeout is not loaded; the size has been.
load_stops :
    load parse_duration 0 settings default_options
    ≡ (record default_options { out_queue_size = 8 }, some (bad_duration connect_timeout))
unfolding load default_options load_size load_connect_timeout
load_stops = refl
