-- ===== src/MultiListener.antt =====
-- multi_listener.go: `MultiListener.AcceptUnderlay` for grouped underlays, and the close callback.
-- Goroutine `t` handles underlay `t`. The atomic steps are the sections under the listener lock and
-- the calls between them; a schedule is a list of steps in the order in which they happen.
-- A pointer is named by the goroutine that makes it: its notifier, its registration, its channel.
pub mod Invariant
pub mod Safety
pub mod Progress
pub mod Joining
pub mod Ungrouped
use channel.Base.{
  ℕ, List, [], ◌∷◌, Bool, true, false, not, ◌&&◌, ◌||◌, Option, none, some, if◌then◌else◌, ◌==◌,
  ◌≡◌,
}

-- What is read of an underlay's hello: its connection id and `IsFirstGroupConnection`.
pub record Hello : Type 0 where
  pub connection_id : ℕ
  pub is_first : Bool

-- Where a goroutine stands in `AcceptUnderlay`.
pub data Stage : Type 0 where
  arrived : Stage  -- at the head of the loop
  waiting : ℕ → Stage  -- in the select on a notifier
  found : ℕ → Stage  -- has an existing channel, before the ack
  attaching : ℕ → Stage  -- acknowledged, calls `ch.AcceptUnderlay`
  reserved : Stage  -- holds the reservation, before the admitter
  admitted : Stage  -- before the ack
  acknowledged : Stage  -- before the factory
  created : Stage  -- the factory returned a channel
  releasing : Stage  -- before the deferred release of the reservation
  rejecting : Stage  -- refused by the admitter, before the release
  closed : Stage  -- returned, the underlay closed
  attached : Stage  -- returned, the underlay handed to an existing channel
  served : Stage  -- returned, after the factory was called

pub record State : Type 0 where
  pub channels : ℕ → Option ℕ  -- connection id to registration
  pub create_notifiers : ℕ → Option ℕ  -- connection id to notifier
  pub notified : ℕ → Bool  -- the notifier is closed
  pub reg_closed : ℕ → Bool  -- `registration.closed`
  pub ch_closed : ℕ → Bool  -- `ch.IsClosed()`
  pub unregistered : ℕ → Bool  -- the close callback has run to its end
  pub stage : ℕ → Stage

abbrev pub update {ℓ} : {A : Type ℓ} → (ℕ → A) → ℕ → A → ℕ → A
update f k v j = if k == j then v else f j

abbrev pub move : State → ℕ → Stage → State
move s t p = record s { stage = update s.stage t p }

-- What happens next, and to which goroutine or registration.
pub data Action : Type 0 where
  look_up wake time_out : Action
  admit refuse : Action
  ack_ok ack_failed : Action
  attach : Action
  factory_ok factory_failed : Action
  publish release : Action
  channel_closes callback_marks callback_unregisters : Action

unfoldable pub init : State
init = record {
  channels = λ _. none;
  create_notifiers = λ _. none;
  notified = λ _. false;
  reg_closed = λ _. false;
  ch_closed = λ _. false;
  unregistered = λ _. false;
  stage = λ _. arrived;
}

-- `!reg.closed.Load() && !reg.ch.IsClosed()`
abbrev pub is_live : State → ℕ → Bool
is_live s r = not (s.reg_closed r) && not (s.ch_closed r)

-- The channel that `t` creates may close, and its close callback run, once the factory is called.
abbrev pub is_called : Stage → Bool
is_called acknowledged = true
is_called created = true
is_called releasing = true
is_called served = true
is_called _ = false

module _ (hello : ℕ → Hello) where
  -- The second half of the locked section: the id is not registered now.
  unfoldable pub reserve : Option ℕ → ℕ → State → State
  reserve (some n) t s = move s t (waiting n)
  reserve none t s =
      if (hello t).is_first
      then record (move s t reserved) {
        create_notifiers = update s.create_notifiers (hello t).connection_id (some t);
      }
      else move s t closed

  -- A registration that is no longer live is evicted.
  unfoldable pub evict : ℕ → State → State
  evict t s = record s { channels = update s.channels (hello t).connection_id none }

  unfoldable pub look_up_in : Option ℕ → ℕ → State → State
  unfolding reserve evict
  look_up_in none t s = reserve (s.create_notifiers (hello t).connection_id) t s
  look_up_in (some r) t s =
      if is_live s r
      then move s t (found r)
      else reserve (s.create_notifiers (hello t).connection_id) t (evict t s)

  unfoldable pub release_reservation : ℕ → State → State
  release_reservation t s = record s {
    create_notifiers = update s.create_notifiers (hello t).connection_id none;
    notified = update s.notified t true;
  }

  -- The locked section behind the factory: a channel that closed meanwhile is not registered.
  unfoldable pub publish_channel : ℕ → State → State
  publish_channel t s =
      if s.reg_closed t || s.ch_closed t then move s t releasing else record (move s t releasing) {
        channels = update s.channels (hello t).connection_id (some t);
      }

  abbrev same : Option ℕ → ℕ → Bool
  same none t = false
  same (some r) t = r == t

  -- The locked half of `closeRegistration`.
  unfoldable pub unregister : ℕ → State → State
  unregister t s =
      let s' = record s { unregistered = update s.unregistered t true } in
      if same (s.channels (hello t).connection_id) t
      then record s' { channels = update s.channels (hello t).connection_id none }
      else s'

  -- A step of goroutine `t` at its stage; an action that is not possible there changes nothing.
  unfoldable pub act : Stage → Action → ℕ → State → State
  unfolding look_up_in release_reservation publish_channel
  act arrived look_up t s = look_up_in (s.channels (hello t).connection_id) t s
  act (waiting n) wake t s = if s.notified n then move s t arrived else s
  act (waiting n) time_out t s = move s t closed
  act (found r) ack_ok t s = move s t (attaching r)
  act (found r) ack_failed t s = move s t closed
  act (attaching r) attach t s = move s t attached
  act reserved admit t s = move s t admitted
  act reserved refuse t s = move s t rejecting
  act rejecting release t s = move (release_reservation t s) t closed
  act admitted ack_ok t s = move s t acknowledged
  act admitted ack_failed t s = move (release_reservation t s) t closed
  act acknowledged factory_ok t s = move s t created
  act acknowledged factory_failed t s = move s t releasing
  act created publish t s = publish_channel t s
  act releasing release t s = move (release_reservation t s) t served
  act _ _ t s = s

  unfoldable pub step : State → Action × ℕ → State
  unfolding act unregister
  step s (channel_closes, t) =
      if is_called (s.stage t) then record s { ch_closed = update s.ch_closed t true } else s
  step s (callback_marks, t) =
      if is_called (s.stage t) then record s { reg_closed = update s.reg_closed t true } else s
  step s (callback_unregisters, t) = if s.reg_closed t then unregister t s else s
  step s (a, t) = act (s.stage t) a t s

  unfoldable pub run : State → List (Action × ℕ) → State
  run s [] = s
  run s (a ∷ more) = run (step s a) more

  -- Some schedule leads to the state.
  abbrev pub Reachable : State → Type 0
  Reachable s = (schedule : List (Action × ℕ)) × (run init schedule ≡ s)
