-- ===== src/Tests/Listener.antt =====
-- multi_listener.go on a group of two underlays: 0 comes first, 1 follows it.
use channel.Base.{ℕ, List, [], ◌∷◌, ◌≡◌, ◌≢◌, refl, true, none, some, ◌==◌, ◌⊎◌, ◌<◌, arith}
use channel.MultiListener.{
  Hello, waiting, found, attaching, attach, release_reservation, State, Action, look_up, admit,
  ack_ok, factory_ok, publish, callback_marks, callback_unregisters, init, is_live, reserve,
  look_up_in, publish_channel, unregister, act, step, run, Reachable,
}
use channel.MultiListener.Invariant.{is_holding}
use channel.MultiListener.Safety.{one_creator, group_is_known, closed_stays_gone}
use channel.MultiListener.Progress.{waiter_has_creator, IsReleased, finish, creator_finishes}
use channel.MultiListener.Joining.{woken_up, looked_up, waiter_joins}

abbrev pair : ℕ → Hello
pair t = record { connection_id = 7; is_first = t == 0 }

abbrev to_created : List (Action × ℕ)
to_created = (look_up, 0) ∷ (admit, 0) ∷ (ack_ok, 0) ∷ (look_up, 1) ∷ (factory_ok, 0) ∷ []

-- 0 has its channel and 1 waits.
abbrev mid_creation : State
mid_creation = run pair init to_created

mid_creation-Reachable : Reachable pair mid_creation
mid_creation-Reachable = (to_created, refl)

-- 0 has been acknowledged, and 1 has arrived.
abbrev released_dialer : State
released_dialer = run pair init ((look_up, 0) ∷ (admit, 0) ∷ (ack_ok, 0) ∷ [])

-- The channel closed, and its callback ran, before it was published.
abbrev to_gone : List (Action × ℕ)
to_gone =
    (look_up, 0)
    ∷ (admit, 0)
    ∷ (ack_ok, 0)
    ∷ (factory_ok, 0)
    ∷ (callback_marks, 0)
    ∷ (callback_unregisters, 0)
    ∷ []

mid_creation_stage : mid_creation.stage 1 ≡ waiting 0
unfolding run init step act look_up_in reserve
mid_creation_stage = refl

late_publish : (run pair (run pair init to_gone) ((publish, 0) ∷ [])).channels 7 ≡ none
unfolding run init step act look_up_in reserve publish_channel unregister
late_publish = refl

one_creator_example : ◌≡◌ {A = ℕ} 0 0
unfolding run init step act look_up_in reserve
one_creator_example = one_creator pair mid_creation 0 0 mid_creation-Reachable refl refl refl

group_is_known_example :
    ((step pair released_dialer (look_up, 1)).stage 1 ≡ waiting 0)
    ⊎ ((r : ℕ) × ((step pair released_dialer (look_up, 1)).stage 1 ≡ found r)
        × (is_live released_dialer r ≡ true))
unfolding run init step act look_up_in reserve
group_is_known_example =
    group_is_known pair released_dialer 0 1 ((look_up, 0) ∷ (admit, 0) ∷ (ack_ok, 0) ∷ [], refl)
      refl refl refl

closed_stays_gone_example :
    (run pair (run pair init to_gone) ((publish, 0) ∷ [])).channels 7 ≢ some 0
unfolding run init step act look_up_in reserve unregister
closed_stays_gone_example =
    closed_stays_gone pair (run pair init to_gone) ((publish, 0) ∷ []) 7 0 (to_gone, refl) refl

waiter_has_creator_example :
    (◌≡◌ {A = ℕ} 7 7)
    × ((mid_creation.notified 0 ≡ true)
        ⊎ ((is_holding (mid_creation.stage 0) ≡ true) × (mid_creation.create_notifiers 7 ≡ some 0)))
waiter_has_creator_example =
    waiter_has_creator pair mid_creation 1 0 mid_creation-Reachable mid_creation_stage

creator_finishes_example :
    IsReleased pair (run pair mid_creation (finish (mid_creation.stage 0) 0)) 0
unfolding run init step act look_up_in reserve
creator_finishes_example = creator_finishes pair mid_creation 0 refl

-- Another underlay of the group, 2, takes its steps in between.
waiter_joins_example :
    ((looked_up pair
          (woken_up pair mid_creation 0 1 ((look_up, 2) ∷ []) ((ack_ok, 2) ∷ []) ((attach, 2) ∷ []))
          1
          []).stage
        1
      ≡ found 0)
    × ((step pair
            (looked_up pair
              (woken_up pair mid_creation 0 1
                ((look_up, 2) ∷ [])
                ((ack_ok, 2) ∷ [])
                ((attach, 2) ∷ []))
              1
              [])
            (ack_ok, 1)).stage
          1
        ≡ attaching 0)
unfolding run init step act look_up_in reserve publish_channel release_reservation
waiter_joins_example =
    waiter_joins pair mid_creation 0 1 ((look_up, 2) ∷ []) ((ack_ok, 2) ∷ []) ((attach, 2) ∷ []) []
      mid_creation-Reachable refl refl (apart 0 (omega arith), tt) (apart 1 (omega arith), tt)
      (apart 1 (omega arith), tt) (apart 1 (omega arith), tt) tt refl
  where
    apart : (k : ℕ) → k < 2 → 2 ≢ k
    apart k small e = omega (arith, e, small)
