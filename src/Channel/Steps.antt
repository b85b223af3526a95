-- ===== src/Channel/Steps.antt =====
-- impl.go: the steps of a channel that runs. Each is a region under a lock or a run of the listeners;
-- a goroutine that closes an underlay takes several, so that others may come between them.
use channel.Base.{[], ◌∷◌, none, some, ◌≡◌, List}
use channel.Underlays.{Underlay, Listener, remove}
use channel.Channel.{
  underlay_closed, constraints_spawned, ChannelImpl, emit, close, accept_underlay, tell_removed,
  move_fallback,
}
use channel.Channel.Setup.{Config, Bound, new_channel}
use channel.Channel.Constraints.{apply_constraints_check}

pub data Step : ChannelImpl → ChannelImpl → Type 0 where
  accepts : {c : ChannelImpl} (u : Underlay) → Step c (accept_underlay u c).0
  closes : {c : ChannelImpl} → Step c (close c)
  closes_underlay :
      {c : ChannelImpl} (u : Underlay) → Step c (emit (underlay_closed u.ident ∷ []) c)
  takes_out :
      {c : ChannelImpl} (u : Underlay) → Step c (record c { underlays = (remove u c.underlays).1 })
  tells : {c : ChannelImpl} (u : Underlay) (ls : List Listener) → Step c (tell_removed u ls c)
  moves_fallback : {c : ChannelImpl} (u : Underlay) → Step c (move_fallback u c)
  checks : {c : ChannelImpl} → Step c (apply_constraints_check c).0
  spawns : {c : ChannelImpl} → Step c (emit (constraints_spawned ∷ []) c)

-- Any number of steps.
pub data Steps : ChannelImpl → ChannelImpl → Type 0 where
  stay : {c : ChannelImpl} → Steps c c
  then_step : {c d e : ChannelImpl} → Steps c d → Step d e → Steps c e

-- A channel that `NewChannel` returned, after any number of steps.
pub record Running (config : Config) (c : ChannelImpl) : Type 0 where
  pub bound : Bound
  pub first_state : ChannelImpl
  pub is_new : new_channel config (some bound) ≡ (some first_state, none)
  pub history : Steps first_state c
