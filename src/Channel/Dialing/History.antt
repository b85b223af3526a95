-- ===== src/Channel/Dialing/History.antt =====
-- `applyConstraints` as steps of a running channel, so that what holds of every state of a channel
-- holds while it dials.
use channel.Base.{ℕ, zero, suc, [], ◌∷◌, Bool, not, ◌&&◌, ◌||◌, Option, none, some, if-keeps, ltb}
use channel.Base.Bytes.{Bytes}
use channel.Base.Maps.{Map}
use channel.Underlays.{Underlay, count_of, counts_by_type}
use channel.Channel.{UnderlayConstraint, ChannelImpl}
use channel.Channel.Setup.{Config}
use channel.Channel.Constraints.{counts_valid, desires_satisfied, apply_constraints_check}
use channel.Channel.Steps.{Steps, stay, then_step, accepts, closes, checks, spawns, Running}
use channel.Channel.Dialing.{
  accept_dialed, Filling, FillEnd, dial_underlay, fill_pass, fill_loop, recheck, apply_constraints,
  is_first_dial,
}

Steps-then : {c d e : ChannelImpl} → Steps c d → Steps d e → Steps c e
Steps-then before stay = before
Steps-then before (then_step middle last) = then_step (Steps-then before middle) last

accept_dialed-Steps : (o : Option Underlay) (c : ChannelImpl) → Steps c (accept_dialed o c)
unfolding accept_dialed
accept_dialed-Steps none c = stay
accept_dialed-Steps (some u) c = then_step stay (accepts u)

recheck-Steps : (c : ChannelImpl) → Steps c (recheck c)
unfolding recheck
recheck-Steps c =
    if-keeps (Steps c)
      (c.has_dial_policy
        && (not c.is_closed && not (desires_satisfied c.constraints (counts_by_type c.underlays))))
      (λ _. then_step stay spawns) (λ _. stay)

module _ (policy : ℕ → Bytes → Bool → Option Underlay) (meanwhile : ℕ → ChannelImpl → ChannelImpl)
    (others : (n : ℕ) (c : ChannelImpl) → Steps c (meanwhile n c)) where
  abbrev After : Filling → Filling → Type 0
  After f g = Steps f.channel_now g.channel_now

  dial_underlay-Steps : (t : Bytes) (f : Filling) → After f (dial_underlay policy meanwhile t f)
  unfolding dial_underlay
  dial_underlay-Steps t f =
      let c = f.channel_now in
      Steps-then (others f.dials c)
        (accept_dialed-Steps (policy f.dials t (is_first_dial c)) (meanwhile f.dials c))

  fill_pass-Steps :
      (counts : Map Bytes ℕ) (cs : Map Bytes UnderlayConstraint) (f : Filling)
      → After f (fill_pass policy meanwhile counts cs f).0
  unfolding fill_pass
  fill_pass-Steps counts [] f = stay
  fill_pass-Steps counts ((t, k) ∷ cs) f =
      if-keeps (λ (r : Filling × Bool). After f r.0) (ltb (count_of t counts) k.desired)
        (λ _.
          Steps-then (dial_underlay-Steps t f)
            (fill_pass-Steps counts cs (dial_underlay policy meanwhile t f)))
        (λ _. fill_pass-Steps counts cs f)

  fill_loop-Steps : (fuel : ℕ) (f : Filling) → After f (fill_loop policy meanwhile fuel f).0
  unfolding fill_loop
  fill_loop-Steps zero f = stay
  fill_loop-Steps (suc fuel) f =
      let c = f.channel_now in
      let counts = counts_by_type c.underlays in
      let pass = fill_pass policy meanwhile counts c.constraints f in
      let passed = fill_pass-Steps counts c.constraints f in
      let spec : Filling × FillEnd → Type 0 = λ r. After f r.0 in
      if-keeps spec c.is_closed (λ _. stay)
        (λ _.
          if-keeps spec (not (counts_valid c counts)) (λ _. then_step stay closes)
            (λ _.
              if-keeps spec pass.1 (λ _. passed)
                (λ _. Steps-then passed (fill_loop-Steps fuel pass.0))))

  -- A run of `applyConstraints`, whatever it dials and whatever others do while it dials, takes a running
  -- channel to a state of a running channel: what holds of all those holds during and after it.
  pub apply_constraints-Running :
      (config : Config) (c : ChannelImpl) (fuel dials : ℕ) (in_progress : Bool)
      → Running config c
      → Running config (apply_constraints policy meanwhile fuel dials in_progress c)
  unfolding apply_constraints
  apply_constraints-Running config c fuel dials in_progress running =
      let checked = (apply_constraints_check c).0 in
      let spec : ChannelImpl → Type 0 = λ d. Steps c d in
      let start : Filling = record { dials = dials; channel_now = checked } in
      let filled = fill_loop policy meanwhile fuel start in
      let once : Steps c checked = then_step stay checks in
      let ran : Steps c (apply_constraints policy meanwhile fuel dials in_progress c) =
        if-keeps spec (not (apply_constraints_check c).1 || in_progress) (λ _. once)
          (λ _.
            if-keeps spec (not checked.has_dial_policy) (λ _. once)
              (λ _.
                Steps-then once (
                  Steps-then (fill_loop-Steps fuel start) (recheck-Steps filled.0.channel_now)))) in
      record {
        bound = running.bound;
        first_state = running.first_state;
        is_new = running.is_new;
        history = Steps-then running.history ran;
      }
