-- ===== src/Channel/Single.antt =====
-- impl.go: `NewSingleChannel` and `NewSingleChannelWithUnderlay`, channels of one underlay.
use channel.Base.{
  ℕ, ◌==◌, ◌≡◌, refl, [], ◌∷◌, true, false, Option, none, some, Result, ok, err, ==_iff, arith,
  if-keeps,
}
use channel.Base.Maps.{nat_eq}
use channel.Options.{Options, default_out_queue_size}
use channel.Underlays.{Underlay, add, remove, remove_entry}
use channel.Channel.{
  underlay_closed, constraints_spawned, ChannelImpl, emit, is_multi_underlay_capable, close,
  start_underlay, no_additional_underlays, accept_underlay, underlay_removed, tell_removed,
  remove_underlay, move_fallback, close_underlay,
}
use channel.Channel.Setup.{
  Config, SetupError, Bound, listeners_of, prepare, bind, start, lacks_secret, new_channel_with,
  new_channel,
}

-- The size of the queue of messages to send.
unfoldable pub single_queue_size : Option Options → ℕ
single_queue_size none = default_out_queue_size
single_queue_size (some o) = o.out_queue_size

unfoldable pub single_config : Underlay → Config
single_config u = record {
  has_senders = true;
  has_message_source_provider = true;
  underlay = some u;
  valid_underlay_types = [];
  has_dial_policy = false;
  constraints = [];
  min_total_underlays = 0;
  underlay_event_listeners = [];
}

unfoldable pub new_single_channel_with_underlay :
    Underlay → Option Bound → Option ChannelImpl × Option SetupError
unfolding single_config new_channel
new_single_channel_with_underlay u bound = new_channel (single_config u) bound

pub data SingleResult : Type 0 where
  not_dialed : ℕ → SingleResult
  made : Option ChannelImpl → Option SetupError → SingleResult

-- `NewSingleChannel`, with what the underlay factory answers.
unfoldable pub new_single_channel : Result ℕ Underlay → Option Bound → SingleResult
unfolding new_single_channel_with_underlay
new_single_channel (err e) bound = not_dialed e
new_single_channel (ok u) bound = let r = new_single_channel_with_underlay u bound in made r.0 r.1

abbrev started : Underlay → Bound → ChannelImpl
started u b =
    emit (constraints_spawned ∷ []) (start_underlay u (bind b (prepare (single_config u) u)))

new_single-started :
    (u : Underlay) (b : Bound)
    → new_single_channel_with_underlay u (some b) ≡ (some (started u b), none)
unfolding new_single_channel_with_underlay single_config new_channel new_channel_with start
    lacks_secret
new_single-started u b = ground arith

moved-closed :
    (u : Underlay) (c : ChannelImpl) → c.is_closed ≡ true → (move_fallback u c).is_closed ≡ true
unfolding move_fallback
moved-closed u c h =
    if-keeps (λ (d : ChannelImpl). d.is_closed ≡ true) (c.fallback_underlay.ident == u.ident)
      (λ _. h) (λ _. h)

removed-closed :
    (u : Underlay) (b : Bound)
    → (remove_underlay u (emit (underlay_closed u.ident ∷ []) (started u b))).is_closed ≡ true
unfolding remove_underlay remove remove_entry tell_removed underlay_removed
    is_multi_underlay_capable close start_underlay bind prepare single_config listeners_of add
removed-closed u b = let self = (==_iff u.ident u.ident).1 refl in rw self refl

-- A channel of one underlay is made whatever the underlay's headers are, a missing group secret
-- included; it refuses every further underlay and closes it, and it is closed once its underlay ends.
pub single_channel_lives :
    (u v : Underlay) (b : Bound)
    → (c : ChannelImpl) × (new_single_channel_with_underlay u (some b) ≡ (some c, none))
      × (c.is_closed ≡ false)
      × (accept_underlay v c
          ≡ (emit (underlay_closed v.ident ∷ []) c, some no_additional_underlays))
      × ((close_underlay u c).is_closed ≡ true)
unfolding accept_underlay is_multi_underlay_capable close_underlay start_underlay bind prepare
    single_config
single_channel_lives u v b = (
  started u b,
  new_single-started u b,
  refl,
  refl,
  moved-closed u (remove_underlay u (emit (underlay_closed u.ident ∷ []) (started u b)))
      (removed-closed u b),
)
