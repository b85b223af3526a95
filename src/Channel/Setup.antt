-- ===== src/Channel/Setup.antt =====
-- impl.go: `NewChannel`, up to the first run of the constraint check.
use channel.Base.{
  ℕ, ◌==◌, List, [], ◌∷◌, Bool, false, not, ◌||◌, ◌&&◌, Option, none, some, if◌then◌else◌, ltb,
  length,
}
use channel.Base.Bytes.{Bytes}
use channel.Base.Maps.{Map}
use channel.Waiters.{no_waiters}
use channel.Underlays.{Underlay, Listener, the_channel, other}
use channel.Channel.{
  underlay_closed, constraints_spawned, UnderlayConstraint, ChannelImpl, emit, secret_of, close,
  start_underlay,
}

-- A parameter that may be nil is an Option, or a Boolean where only its presence matters.
pub record Config : Type 0 where
  pub has_senders : Bool
  pub has_message_source_provider : Bool
  pub underlay : Option Underlay
  pub valid_underlay_types : List Bytes
  pub has_dial_policy : Bool
  pub constraints : Map Bytes UnderlayConstraint
  pub min_total_underlays : ℕ
  pub underlay_event_listeners : List ℕ

pub data SetupError : Type 0 where
  no_senders no_message_source_provider no_underlay no_group_secret bind_failed : SetupError

-- What a binder registers, or none if it fails. The handlers that a failing binder has registered are
-- left out, and a bind handler that closes the channel or hands it an underlay is outside the model.
pub record Bound : Type 0 where
  pub peek_handlers : List ℕ
  pub close_handlers : List ℕ
  pub transform_handlers : List ℕ
  pub error_handlers : List ℕ
  pub receive_handlers : Map ℕ ℕ

unfoldable pub listeners_of : List ℕ → List Listener
listeners_of [] = []
listeners_of (l ∷ ls) = other l ∷ listeners_of ls

-- The channel before it is bound; it is its own first listener.
unfoldable pub prepare : Config → Underlay → ChannelImpl
unfolding secret_of listeners_of no_waiters
prepare config u = record {
  fallback_underlay = u;
  waiters = no_waiters;
  is_closed = false;
  peek_handlers = [];
  close_handlers = [];
  transform_handlers = [];
  error_handlers = [];
  receive_handlers = [];
  reply_counter = 0;
  group_secret = secret_of u;
  has_dial_policy = config.has_dial_policy;
  constraints = config.constraints;
  min_total_underlays = config.min_total_underlays;
  valid_underlay_types = config.valid_underlay_types;
  underlays = record {
    entries = [];
    listeners = the_channel ∷ listeners_of config.underlay_event_listeners;
  };
  effects = [];
}

unfoldable pub bind : Bound → ChannelImpl → ChannelImpl
bind b c = record c {
  peek_handlers = b.peek_handlers;
  close_handlers = b.close_handlers;
  transform_handlers = b.transform_handlers;
  error_handlers = b.error_handlers;
  receive_handlers = b.receive_handlers;
}

unfoldable pub start : Option Bound → Underlay → ChannelImpl → ChannelImpl × Option SetupError
unfolding bind close start_underlay
start none u c = (emit (underlay_closed u.ident ∷ []) (close c), some bind_failed)
start (some b) u c = (emit (constraints_spawned ∷ []) (start_underlay u (bind b c)), none)

-- The group secret is only required of a channel that can grow.
unfoldable pub lacks_secret : Config → Underlay → Bool
unfolding secret_of
lacks_secret config u =
    (length (secret_of u) == 0)
    && (config.has_dial_policy
        || (ltb 0 (length config.constraints) || ltb 0 config.min_total_underlays))

unfoldable pub new_channel_with :
    Config → Option Bound → Option Underlay → Option ChannelImpl × Option SetupError
unfolding lacks_secret prepare start
new_channel_with config bound none = (none, some no_underlay)
new_channel_with config bound (some u) =
    let r = start bound u (prepare config u) in
    if lacks_secret config u then (none, some no_group_secret) else (some r.0, r.1)

-- `NewChannel`. The state is given also where binding fails and the source returns no channel, so
-- that the effects on the underlay can be stated.
unfoldable pub new_channel : Config → Option Bound → Option ChannelImpl × Option SetupError
unfolding new_channel_with
new_channel config bound =
    if not config.has_senders
    then (none, some no_senders)
    else if not config.has_message_source_provider
    then (none, some no_message_source_provider)
    else new_channel_with config bound config.underlay
