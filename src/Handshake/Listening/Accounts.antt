-- ===== src/Handshake/Listening/Accounts.antt =====
-- Where each underlay of a listener ends up.
use channel.Base.{
  ℕ, ◌+◌, ◌≤◌, ◌≡◌, ◌==◌, refl, arith, List, [], ◌∷◌, true, false, none, some, if◌then◌else◌,
}
use channel.Handshake.Listening.{
  ListenerState, new_listener, listen, close_socket, close_listener, accept_or_close, offer,
  is_offered, without, hand_to_create, drop_offer, ListenerAction, listens, closes, accepts,
  creates, gives_up, listener_step, run_listener,
}

abbrev pub times : ℕ → List ℕ → ℕ
times u [] = 0
times u (x ∷ xs) = if x == u then times u xs + 1 else times u xs

abbrev pub times_accepted : ℕ → List ListenerAction → ℕ
times_accepted u [] = 0
times_accepted u (accepts b x ∷ acts) =
    if x == u then times_accepted u acts + 1 else times_accepted u acts
times_accepted u (_ ∷ acts) = times_accepted u acts

times-without :
    (u v : ℕ) (xs : List ℕ)
    → is_offered u xs ≡ true
    → times v (without u xs) + (if u == v then 1 else 0) ≡ times v xs
unfolding is_offered without
times-without u v [] h = absurd (cc)
times-without u v (x ∷ xs) h = ground (arith, times-without u v xs)

-- Where `u` stands, in all.
abbrev pub accounted : ℕ → ListenerState → ℕ
accounted u s = times u s.offered + times u s.created + times u s.dropped + times u s.refused

-- The signal was given once if the listener is closed, and only then may an underlay be dropped.
abbrev pub SignalOnce : ListenerState → Type 0
SignalOnce s = (s.signals ≡ (if s.closed then 1 else 0)) × (times_any s.dropped ≤ s.signals)
  where
    times_any : List ℕ → ℕ
    times_any [] = 0
    times_any (x ∷ xs) = 1

accounted-step :
    (u : ℕ) (s : ListenerState) (a : ListenerAction)
    → accounted u (listener_step s a) ≡ accounted u s + times_accepted u (a ∷ [])
unfolding listener_step listen close_listener close_socket accept_or_close offer hand_to_create
    drop_offer
accounted-step u s (listens none) = omega arith
accounted-step u s (listens (some socket)) = omega arith
accounted-step u s (closes fails) = ground arith
accounted-step u s (accepts b v) = ground arith
accounted-step u s (creates v) = ground (arith, times-without v u s.offered)
accounted-step u s (gives_up v) = ground (arith, times-without v u s.offered)

SignalOnce-step :
    (s : ListenerState) (a : ListenerAction) → SignalOnce s → SignalOnce (listener_step s a)
unfolding listener_step listen close_listener close_socket accept_or_close offer hand_to_create
    drop_offer
SignalOnce-step s (listens none) h = h
SignalOnce-step s (listens (some socket)) h = h
SignalOnce-step s (closes fails) h = ground arith
SignalOnce-step s (accepts true v) h = h
SignalOnce-step s (accepts false v) h = h
SignalOnce-step s (creates v) h = ground arith
SignalOnce-step s (gives_up v) h = ground arith

accounted-run :
    (u : ℕ) (acts : List ListenerAction) (s : ListenerState)
    → accounted u (run_listener s acts) ≡ accounted u s + times_accepted u acts
accounted-run u [] s = omega arith
accounted-run u (accepts b x ∷ acts) s =
    ground (
      arith,
      accounted-run u acts (listener_step s (accepts b x)),
      accounted-step u s (accepts b x),
    )
accounted-run u (listens x ∷ acts) s =
    omega
      (arith, accounted-run u acts (listener_step s (listens x)), accounted-step u s (listens x))
accounted-run u (closes x ∷ acts) s =
    omega (arith, accounted-run u acts (listener_step s (closes x)), accounted-step u s (closes x))
accounted-run u (creates x ∷ acts) s =
    omega
      (arith, accounted-run u acts (listener_step s (creates x)), accounted-step u s (creates x))
accounted-run u (gives_up x ∷ acts) s =
    omega
      (arith, accounted-run u acts (listener_step s (gives_up x)), accounted-step u s (gives_up x))

SignalOnce-run :
    (acts : List ListenerAction) (s : ListenerState)
    → SignalOnce s
    → SignalOnce (run_listener s acts)
SignalOnce-run [] s h = h
SignalOnce-run (a ∷ acts) s h = SignalOnce-run acts (listener_step s a) (SignalOnce-step s a h)

-- Whatever Listen, Close, Create and the acceptors do, and in whatever order: each underlay that the
-- acceptor was called with is offered still, was returned by one Create, was dropped, or was closed since
-- its hello could not be acknowledged, and that as often as the acceptor was called with it; the close channel is closed once if the listener is closed and not
-- at all if it is open; and nothing is dropped before that.
pub underlays_accounted_for :
    (acts : List ListenerAction) (u : ℕ)
    → (accounted u (run_listener new_listener acts) ≡ times_accepted u acts)
      × SignalOnce (run_listener new_listener acts)
unfolding new_listener
underlays_accounted_for acts u = (
  omega (arith, accounted-run u acts new_listener),
  SignalOnce-run acts new_listener (refl, omega arith),
)
