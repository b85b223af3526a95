-- ===== src/Channel/Effects.antt =====
-- What the record of effects says: how often the close signal was given, and which underlays were
-- closed.
use channel.Base.{
  ℕ, ◌+◌, ◌==◌, ◌≡◌, refl, arith, List, [], ◌∷◌, ◌++◌, Bool, true, false, ◌||◌, map, All,
}
use channel.Underlays.{Underlay, Listener, the_channel, other}
use channel.Channel.{
  Effect, close_notified, peek_handler_closed, close_handler_called, underlay_closed, ChannelImpl,
  closing_effects, tell_added,
}

abbrev pub signals : Effect → ℕ
signals close_notified = 1
signals _ = 0

-- How often `close(closeNotify)` was called; Go panics at the second time.
abbrev pub signal_count : List Effect → ℕ
signal_count [] = 0
signal_count (e ∷ es) = signals e + signal_count es

abbrev pub closes_ident : ℕ → Effect → Bool
closes_ident k (underlay_closed j) = j == k
closes_ident k _ = false

-- The underlay was closed.
abbrev pub was_closed : ℕ → List Effect → Bool
was_closed k [] = false
was_closed k (e ∷ es) = closes_ident k e || was_closed k es

abbrev pub AllClosed : List Effect → List Underlay → Type 0
AllClosed es us = All (λ (u : Underlay). was_closed u.ident es ≡ true) us

pub signal_count-append :
    (es fs : List Effect) → signal_count (es ++ fs) ≡ signal_count es + signal_count fs
signal_count-append [] fs = omega arith
signal_count-append (e ∷ es) fs = omega (arith, signal_count-append es fs)

pub was_closed-append_left :
    (k : ℕ) (es fs : List Effect) → was_closed k es ≡ true → was_closed k (es ++ fs) ≡ true
was_closed-append_left k [] fs h = cc
was_closed-append_left k (e ∷ es) fs h = ground (arith, was_closed-append_left k es fs)

pub was_closed-append_right :
    (k : ℕ) (es fs : List Effect) → was_closed k fs ≡ true → was_closed k (es ++ fs) ≡ true
was_closed-append_right k [] fs h = h
was_closed-append_right k (e ∷ es) fs h = ground (arith, was_closed-append_right k es fs h)

pub AllClosed-append :
    (es fs : List Effect) (us : List Underlay) → AllClosed es us → AllClosed (es ++ fs) us
AllClosed-append es fs [] h = tt
AllClosed-append es fs (u ∷ us) h =
    (was_closed-append_left u.ident es fs h.0, AllClosed-append es fs us h.1)

AllClosed-cons :
    (e : Effect) (es : List Effect) (us : List Underlay) → AllClosed es us → AllClosed (e ∷ es) us
AllClosed-cons e es [] h = tt
AllClosed-cons e es (u ∷ us) h = (ground (arith, h.0), AllClosed-cons e es us h.1)

pub AllClosed-append_right :
    (es fs : List Effect) (us : List Underlay) → AllClosed fs us → AllClosed (es ++ fs) us
AllClosed-append_right es fs [] h = tt
AllClosed-append_right es fs (u ∷ us) h =
    (was_closed-append_right u.ident es fs h.0, AllClosed-append_right es fs us h.1)

abbrev close_all : List Underlay → List Effect
close_all us = map (λ (u : Underlay). underlay_closed u.ident) us

close_all-AllClosed : (us : List Underlay) → AllClosed (close_all us) us
close_all-AllClosed [] = tt
close_all-AllClosed (u ∷ us) = (
  ground arith,
  AllClosed-cons (underlay_closed u.ident) (close_all us) us (close_all-AllClosed us),
)

peeks_silent : (hs : List ℕ) → signal_count (map peek_handler_closed hs) ≡ 0
peeks_silent [] = refl
peeks_silent (h ∷ hs) = omega (arith, peeks_silent hs)

handlers_silent : (hs : List ℕ) → signal_count (map close_handler_called hs) ≡ 0
handlers_silent [] = refl
handlers_silent (h ∷ hs) = omega (arith, handlers_silent hs)

close_all_silent : (us : List Underlay) → signal_count (close_all us) ≡ 0
close_all_silent [] = refl
close_all_silent (u ∷ us) = omega (arith, close_all_silent us)

-- Closing gives the signal once and closes every underlay of the channel.
pub signal_count-closing_effects : (c : ChannelImpl) → signal_count (closing_effects c) ≡ 1
unfolding closing_effects
signal_count-closing_effects c =
    let ps = map peek_handler_closed c.peek_handlers in
    let hs = map close_handler_called c.close_handlers in
    omega (
      arith,
      signal_count-append ps (hs ++ close_all c.underlays.entries),
      signal_count-append hs (close_all c.underlays.entries),
      peeks_silent c.peek_handlers,
      handlers_silent c.close_handlers,
      close_all_silent c.underlays.entries,
    )

pub closing_effects-AllClosed :
    (c : ChannelImpl) → AllClosed (closing_effects c) c.underlays.entries
unfolding closing_effects
closing_effects-AllClosed c =
    let ps = map peek_handler_closed c.peek_handlers in
    let hs = map close_handler_called c.close_handlers in
    let us = c.underlays.entries in
    AllClosed-cons close_notified (ps ++ (hs ++ close_all us)) us (
      AllClosed-append_right ps (hs ++ close_all us) us
        (AllClosed-append_right hs (close_all us) us (close_all-AllClosed us)))

pub tell_added_silent : (u : Underlay) (ls : List Listener) → signal_count (tell_added u ls) ≡ 0
unfolding tell_added
tell_added_silent u [] = refl
tell_added_silent u (the_channel ∷ ls) = tell_added_silent u ls
tell_added_silent u (other l ∷ ls) = omega (arith, tell_added_silent u ls)
