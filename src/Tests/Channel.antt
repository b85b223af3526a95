-- ===== src/Tests/Channel.antt =====
-- impl.go, underlays.go and bind.go on a channel that grows, with its bind handlers and handlers.
use channel.Base.{List, ℕ, ◌≡◌, ◌≢◌, refl, [], ◌∷◌, true, false, Option, none, some, if◌then◌else◌}
use channel.Base.Maps.{lookup, nat_eq}
use channel.Underlays.{Underlay}
use channel.Message.Keys.{type_header, group_secret_header}
use channel.Channel.{ChannelImpl, is_multi_underlay_capable, close, accept_underlay}
use channel.Channel.Setup.{Config, Bound, new_channel, prepare}
use channel.Channel.Steps.{accepts, closes, stay, then_step, Running}
use channel.Channel.Effects.{signal_count, AllClosed}
use channel.Channel.Invariant.{AllKnow}
use channel.Channel.Safety.{signal_count-Running, closed_holds_no_open, members_know_secret}
use channel.Channel.Binding.{
  BindHandler, bind_with, bind_handlers, add_peek_handler, add_close_handler,
}
use channel.Channel.Handlers.{transformed, peeked, delivered, rx_with_handlers}
use channel.Channel.Dispatch.{dropped}
use channel.Tests.Wire.{sample}

abbrev pub grouped : ℕ → Underlay
grouped k = record {
  ident = k;
  headers = (group_secret_header, 42 ∷ 43 ∷ []) ∷ (type_header, 107 ∷ k ∷ []) ∷ [];
}

abbrev pub one_listener : Config
one_listener = record {
  has_senders = true;
  has_message_source_provider = true;
  underlay = some (grouped 1);
  valid_underlay_types = [];
  has_dial_policy = false;
  constraints = (107 ∷ 1 ∷ [], record { desired = 1; min_count = 1 }) ∷ [];
  min_total_underlays = 2;
  underlay_event_listeners = 5 ∷ [];
}

abbrev one_handler : Bound
one_handler = record {
  peek_handlers = 3 ∷ [];
  close_handlers = 4 ∷ [];
  transform_handlers = [];
  error_handlers = [];
  receive_handlers = [];
}

abbrev the_state : Option ChannelImpl → ChannelImpl
the_state none = prepare one_listener (grouped 1)
the_state (some c) = c

abbrev pub opened : ChannelImpl
opened = the_state (new_channel one_listener (some one_handler)).0

abbrev joined : ChannelImpl
joined = (accept_underlay (grouped 2) opened).0

abbrev shut : ChannelImpl
shut = close joined

opened-is_new : new_channel one_listener (some one_handler) ≡ (some opened, none)
unfolding new_channel
opened-is_new = refl

shut-Running : Running one_listener shut
shut-Running = record {
  bound = one_handler;
  first_state = opened;
  is_new = opened-is_new;
  history = then_step (then_step stay (accepts (grouped 2))) closes;
}

joined-Running : Running one_listener joined
joined-Running = record {
  bound = one_handler;
  first_state = opened;
  is_new = opened-is_new;
  history = then_step stay (accepts (grouped 2));
}

signal_count-Running_example : signal_count shut.effects ≡ (if shut.is_closed then 1 else 0)
signal_count-Running_example = signal_count-Running one_listener shut shut-Running

closed_holds_no_open_example : AllClosed shut.effects shut.underlays.entries
unfolding close accept_underlay new_channel is_multi_underlay_capable lookup
closed_holds_no_open_example = closed_holds_no_open one_listener shut shut-Running refl

members_know_secret_example :
    (joined.group_secret ≢ []) × AllKnow joined.group_secret joined.underlays.entries
unfolding close accept_underlay new_channel is_multi_underlay_capable lookup
members_know_secret_example = members_know_secret one_listener joined joined-Running refl

-- Two bind handlers around a nil one; the second fails behind what it has registered.
abbrev two_binders : List (Option BindHandler)
two_binders =
    some (λ c. (add_peek_handler 5 c, none))
    ∷ none
    ∷ some (λ c. (add_close_handler 6 c, some 1))
    ∷ []

binders_run :
    ((bind_with (bind_handlers two_binders) opened).0.peek_handlers ≡ 3 ∷ 5 ∷ [])
    × ((bind_with (bind_handlers two_binders) opened).1 ≡ some 1)
unfolding bind_with bind_handlers add_peek_handler add_close_handler new_channel
binders_run = (refl, refl)

-- A message that nobody waits for, through a transform handler and a peek handler.
abbrev watched : ChannelImpl
watched = record opened { transform_handlers = 9 ∷ [] }

handlers_run :
    (rx_with_handlers (λ h m. record m { content_type = h }) 100 sample watched).1
    ≡ transformed 9
      ∷ peeked 3 (record sample { content_type = 9 })
      ∷ delivered dropped (record sample { content_type = 9 })
      ∷ []
unfolding rx_with_handlers new_channel
handlers_run = refl
