-- ===== src/Channel/Dialing.antt =====
-- impl.go: `applyConstraints` with its dial loop, and `dialUnderlay`. The dial policy is a parameter: the
-- underlay, if any, that its `n`-th dial gives for a type. While it dials, other goroutines change the
-- channel: `meanwhile` is what they make of it during the `n`-th dial. The constraints come in the order
-- in which the loop over the map visits them; the loop runs on fuel.
pub mod Growth
pub mod Progress
pub mod History
use channel.Base.{
  ℕ, zero, suc, ◌+◌, ◌==◌, List, [], ◌∷◌, Bool, true, false, not, ◌&&◌, ◌||◌, Option, none, some,
  if◌then◌else◌, ltb, length,
}
use channel.Base.Bytes.{Bytes}
use channel.Base.Maps.{Map, lookup, bytes_eq}
use channel.Underlays.{Underlay, count_of, count_or_zero, counts_by_type}
use channel.Channel.{
  constraints_spawned, UnderlayConstraint, ChannelImpl, emit, close, accept_underlay,
}
use channel.Channel.Constraints.{counts_valid, desires_satisfied, apply_constraints_check}

-- No underlay is left: the dial makes the group anew.
unfoldable pub is_first_dial : ChannelImpl → Bool
is_first_dial c = length c.underlays.entries == 0

-- What `dialUnderlay` makes of the policy's answer.
unfoldable pub accept_dialed : Option Underlay → ChannelImpl → ChannelImpl
unfolding accept_underlay
accept_dialed none c = c
accept_dialed (some u) c = (accept_underlay u c).0

pub data FillEnd : Type 0 where
  satisfied stopped out_of_fuel : FillEnd

-- The dials so far, and the channel.
pub record Filling : Type 0 where
  pub dials : ℕ
  pub channel_now : ChannelImpl

-- What is deferred: another run where the desires are not satisfied.
unfoldable pub recheck : ChannelImpl → ChannelImpl
unfolding desires_satisfied counts_by_type
recheck c =
    if c.has_dial_policy
      && (not c.is_closed && not (desires_satisfied c.constraints (counts_by_type c.underlays)))
    then emit (constraints_spawned ∷ []) c
    else c

module _ (policy : ℕ → Bytes → Bool → Option Underlay)
    (meanwhile : ℕ → ChannelImpl → ChannelImpl) where
  -- `dialUnderlay`
  unfoldable pub dial_underlay : Bytes → Filling → Filling
  unfolding accept_dialed is_first_dial
  dial_underlay t f = record {
    dials = f.dials + 1;
    channel_now =
        accept_dialed (policy f.dials t (is_first_dial f.channel_now))
          (meanwhile f.dials f.channel_now);
  }

  -- The loop over the constraints, with the counts that were read before it: whether all are satisfied.
  unfoldable pub fill_pass : Map Bytes ℕ → Map Bytes UnderlayConstraint → Filling → Filling × Bool
  unfolding dial_underlay count_or_zero lookup
  fill_pass counts [] f = (f, true)
  fill_pass counts ((t, k) ∷ cs) f =
      let dialed = fill_pass counts cs (dial_underlay t f) in
      let rest = fill_pass counts cs f in
      if ltb (count_of t counts) k.desired then (dialed.0, false) else rest

  -- The outer loop.
  unfoldable pub fill_loop : ℕ → Filling → Filling × FillEnd
  unfolding fill_pass counts_by_type counts_valid close
  fill_loop zero f = (f, out_of_fuel)
  fill_loop (suc fuel) f =
      let c = f.channel_now in
      let counts = counts_by_type c.underlays in
      let pass = fill_pass counts c.constraints f in
      let again = fill_loop fuel pass.0 in
      if c.is_closed
      then (f, stopped)
      else if not (counts_valid c counts)
      then (record f { channel_now = close c }, stopped)
      else if pass.1
      then (pass.0, satisfied)
      else again

  -- `applyConstraints`, from the number of dials so far and whether another run holds the guard.
  unfoldable pub apply_constraints : ℕ → ℕ → Bool → ChannelImpl → ChannelImpl
  unfolding apply_constraints_check fill_loop recheck
  apply_constraints fuel dials in_progress c =
      let (checked, goes_on) = apply_constraints_check c in
      if not goes_on || in_progress
      then checked
      else if not checked.has_dial_policy
      then checked
      else recheck (fill_loop fuel (record { dials = dials; channel_now = checked })).0.channel_now
