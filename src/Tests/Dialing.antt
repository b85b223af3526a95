-- ===== src/Tests/Dialing.antt =====
-- impl.go: a channel with one underlay that dials two more of one type.
use channel.Base.{ℕ, ◌+◌, ◌≡◌, refl, arith, [], ◌∷◌, Bool, true, Option, none, some}
use channel.Base.Bytes.{Bytes}
use channel.Base.Maps.{lookup, insert, nat_eq, bytes_eq}
use channel.Message.Keys.{type_header, group_secret_header}
use channel.Underlays.{Underlay, counts_by_type, get_underlay_type}
use channel.Channel.{ChannelImpl, is_multi_underlay_capable, secret_of}
use channel.Channel.Setup.{Config, Bound, new_channel, prepare}
use channel.Channel.Steps.{stay, Running}
use channel.Channel.Constraints.{counts_valid}
use channel.Channel.Dialing.{satisfied, Filling, fill_loop}
use channel.Channel.Dialing.Growth.{MeetsDesires, Grown}
use channel.Channel.Dialing.Progress.{fill_loop_satisfies}

abbrev typed : ℕ → Bytes → Underlay
typed k t = record {
  ident = k;
  headers = (group_secret_header, 42 ∷ 43 ∷ []) ∷ (type_header, t) ∷ [];
}

abbrev growing : Config
growing = record {
  has_senders = true;
  has_message_source_provider = true;
  underlay = some (typed 1 (107 ∷ []));
  valid_underlay_types = [];
  has_dial_policy = true;
  constraints =
      (107 ∷ [], record { desired = 1; min_count = 1 })
      ∷ (108 ∷ [], record { desired = 2; min_count = 0 })
      ∷ [];
  min_total_underlays = 1;
  underlay_event_listeners = [];
}

abbrev no_handlers : Bound
no_handlers = record {
  peek_handlers = [];
  close_handlers = [];
  transform_handlers = [];
  error_handlers = [];
  receive_handlers = [];
}

abbrev the_state : Option ChannelImpl → ChannelImpl
the_state none = prepare growing (typed 1 [])
the_state (some c) = c

abbrev first_channel : ChannelImpl
first_channel = the_state (new_channel growing (some no_handlers)).0

first_channel-Running : Running growing first_channel
unfolding new_channel
first_channel-Running = record {
  bound = no_handlers;
  first_state = first_channel;
  is_new = refl;
  history = stay;
}

-- Every dial succeeds.
abbrev policy : ℕ → Bytes → Bool → Option Underlay
policy n t first = some (typed (n + 10) t)

abbrev nothing_else : ℕ → ChannelImpl → ChannelImpl
nothing_else n c = c

abbrev unfilled : Filling
unfilled = record { dials = 0; channel_now = first_channel }

fill_loop_satisfies_example :
    ((fill_loop policy nothing_else 3 unfilled).1 ≡ satisfied)
    × Grown first_channel (fill_loop policy nothing_else 3 unfilled).0.channel_now
    × MeetsDesires
        (fill_loop policy nothing_else 3 unfilled).0.channel_now.underlays.entries
        growing.constraints
unfolding new_channel is_multi_underlay_capable counts_valid counts_by_type get_underlay_type
    secret_of lookup insert
fill_loop_satisfies_example =
    fill_loop_satisfies policy nothing_else (λ n c. refl) 3 unfilled refl refl refl
      (
        (λ n first. (typed (n + 10) (107 ∷ []), refl, refl, refl)),
        ((λ n first. (typed (n + 10) (108 ∷ []), refl, refl, refl)), tt),
      )
      (omega arith)
