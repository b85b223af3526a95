-- ===== src/Handshake/Listening/PoolSizes.antt =====
-- What the bounds on connect options mean for the worker pool of a listener.
use channel.Base.{ℕ, ◌^◌, ◌≡◌, ◌≤◌, ◌<◌, refl, arith, Option, none, some, false}
use channel.Options.{
  Bound, ValidateError, bad_outstanding, bad_queued, validate, validate_connect_timeout,
  validate_outstanding_connects, validate_queue_connects, check_bounds, signed_lt, first_error,
}
use channel.Handshake.Listening.Config.{ListenerConfig, pool_config, apply_configurator}

signed_lt-small :
    (a b : ℕ) → a < 2 ^ 64 → b < 2 ^ 63 → signed_lt a b ≡ false → (b ≤ a) × (a < 2 ^ 63)
unfolding signed_lt
signed_lt-small a b wa wb h = ground (arith, h)

check_bounds-within :
    (error : Bound → ValidateError) (value lo hi : ℕ)
    → value < 2 ^ 64
    → lo < 2 ^ 63
    → hi < 2 ^ 63
    → check_bounds error value lo hi ≡ none
    → (lo ≤ value) × (value ≤ hi)
unfolding check_bounds signed_lt
check_bounds-within error value lo hi w wl wh h = ground (arith, h)

first_error-none : (a b : Option ValidateError) → first_error a b ≡ none → (a ≡ none) × (b ≡ none)
first_error-none none b h = (refl, h)
first_error-none (some x) b h = absurd (cc)

-- The pool of a listener whose connect options pass `Validate`, with no configurator of its own: the
-- 32-bit sizes are the options' own, at least one connection may wait and 5000 at most, and there are
-- at least as many workers at most as at least, and no more than 1000.
pub validated_pool :
    (config : ListenerConfig)
    → config.pool_configurator ≡ none
    → config.connect_options.max_queued_connects < 2 ^ 64
    → config.connect_options.max_outstanding_connects < 2 ^ 64
    → validate config.connect_options ≡ none
    → ((pool_config config).queue_size ≡ config.connect_options.max_queued_connects)
      × ((pool_config config).max_workers ≡ config.connect_options.max_outstanding_connects)
      × (1 ≤ (pool_config config).queue_size)
      × ((pool_config config).queue_size ≤ 5000)
      × ((pool_config config).min_workers ≤ (pool_config config).max_workers)
      × ((pool_config config).max_workers ≤ 1000)
unfolding pool_config apply_configurator validate validate_outstanding_connects
    validate_queue_connects
validated_pool config alone wq wo valid =
    let o = config.connect_options in
    let rest = (first_error-none (validate_connect_timeout o) _ valid).1 in
    let parts = first_error-none (validate_outstanding_connects o) _ rest in
    let outstanding =
      check_bounds-within bad_outstanding o.max_outstanding_connects 1 1000 wo (omega arith)
        (omega arith) parts.0 in
    let queued =
      check_bounds-within bad_queued o.max_queued_connects 1 5000 wq (omega arith) (omega arith)
        parts.1 in
    rw alone (
      omega (arith, queued),
      omega (arith, outstanding),
      omega (arith, queued),
      omega (arith, queued),
      omega (arith, outstanding),
      omega (arith, outstanding),
    )
