-- ===== src/MultiListener/Joining.antt =====
-- An underlay that waited for its group's creator gets that creator's channel, whatever others do.
use channel.Base.{ℕ, List, [], ◌∷◌, ◌≡◌, ◌≢◌, refl, ◌∙◌, arith, true, some, All}
use channel.MultiListener.{
  Hello, Stage, arrived, waiting, found, attaching, created, releasing, State, Action, look_up,
  wake, ack_ok, publish, release, channel_closes, callback_marks, callback_unregisters, is_live,
  reserve, evict, look_up_in, release_reservation, publish_channel, unregister, act, step, run,
  Reachable,
}
use channel.MultiListener.Invariant.{id_of, Inv, step-Inv, run-Inv}
use channel.MultiListener.Safety.{Reachable-Inv}
use channel.MultiListener.Progress.{Reachable-Links}

-- Goroutine `u` takes none of the steps.
abbrev pub Without : ℕ → List (Action × ℕ) → Type 0
Without u steps = All (λ (a : Action × ℕ). a.1 ≢ u) steps

module _ (hello : ℕ → Hello) where
  act-stage :
      (p : Stage) (a : Action) (k u : ℕ) (s : State)
      → k ≢ u
      → (act hello p a k s).stage u ≡ s.stage u
  unfolding act look_up_in reserve evict release_reservation publish_channel
  act-stage p a k u s other = ground (arith, other)

  -- A goroutine's stage changes by its own steps only.
  step-stage :
      (s : State) (a : Action) (k u : ℕ) → k ≢ u → (step hello s (a, k)).stage u ≡ s.stage u
  unfolding step unregister
  step-stage s channel_closes k u other = ground arith
  step-stage s callback_marks k u other = ground arith
  step-stage s callback_unregisters k u other = ground arith
  step-stage s a k u other = act-stage (s.stage k) a k u s other

  act-live :
      (p : Stage) (a : Action) (k t : ℕ) (s : State) → is_live (act hello p a k s) t ≡ is_live s t
  unfolding act look_up_in reserve evict release_reservation publish_channel
  act-live p a k t s = ground arith

  -- What is live was live before.
  step-live :
      (s : State) (a : Action) (k t : ℕ)
      → is_live (step hello s (a, k)) t ≡ true
      → is_live s t ≡ true
  unfolding step unregister
  step-live s channel_closes k t live = ground arith
  step-live s callback_marks k t live = ground arith
  step-live s callback_unregisters k t live = ground arith
  step-live s a k t live = rw (← act-live (s.stage k) a k t s) live

  -- The group's channel is registered.
  abbrev IsRegistered : State → ℕ → Type 0
  IsRegistered s t = s.channels (id_of hello t) ≡ some t

  act-IsRegistered :
      (p : Stage) (a : Action) (k t : ℕ) (s : State)
      → s.stage k ≡ p
      → Inv hello s
      → is_live s t ≡ true
      → IsRegistered s t
      → IsRegistered (act hello p a k s) t
  unfolding act look_up_in reserve evict release_reservation publish_channel
  act-IsRegistered p a k t s e v live here = ground (arith, v.vacant k)

  step-IsRegistered :
      (s : State) (a : Action) (k t : ℕ)
      → Inv hello s
      → is_live s t ≡ true
      → IsRegistered s t
      → IsRegistered (step hello s (a, k)) t
  unfolding step unregister
  step-IsRegistered s channel_closes k t v live here = ground arith
  step-IsRegistered s callback_marks k t v live here = ground arith
  step-IsRegistered s callback_unregisters k t v live here = ground arith
  step-IsRegistered s a k t v live here = act-IsRegistered (s.stage k) a k t s refl v live here

  act-notified :
      (p : Stage) (a : Action) (k t : ℕ) (s : State)
      → s.notified t ≡ true
      → (act hello p a k s).notified t ≡ true
  unfolding act look_up_in reserve evict release_reservation publish_channel
  act-notified p a k t s woken = ground (arith, woken)

  step-notified :
      (s : State) (a : Action) (k t : ℕ)
      → s.notified t ≡ true
      → (step hello s (a, k)).notified t ≡ true
  unfolding step unregister
  step-notified s channel_closes k t woken = ground arith
  step-notified s callback_marks k t woken = ground arith
  step-notified s callback_unregisters k t woken = ground arith
  step-notified s a k t woken = act-notified (s.stage k) a k t s woken

  run-stage :
      (steps : List (Action × ℕ)) (s : State) (u : ℕ)
      → Without u steps
      → (run hello s steps).stage u ≡ s.stage u
  unfolding run
  run-stage [] s u others = refl
  run-stage ((a, k) ∷ steps) s u others =
      run-stage steps (step hello s (a, k)) u others.1 ∙ step-stage s a k u others.0

  run-live :
      (steps : List (Action × ℕ)) (s : State) (t : ℕ)
      → is_live (run hello s steps) t ≡ true
      → is_live s t ≡ true
  unfolding run
  run-live [] s t live = live
  run-live ((a, k) ∷ steps) s t live =
      step-live s a k t (run-live steps (step hello s (a, k)) t live)

  run-IsRegistered :
      (steps : List (Action × ℕ)) (s : State) (t : ℕ)
      → Inv hello s
      → is_live (run hello s steps) t ≡ true
      → IsRegistered s t
      → IsRegistered (run hello s steps) t
  unfolding run
  run-IsRegistered [] s t v live here = here
  run-IsRegistered ((a, k) ∷ steps) s t v live here =
      run-IsRegistered steps (step hello s (a, k)) t (step-Inv hello s a k v) live
        (step-IsRegistered s a k t v (run-live ((a, k) ∷ steps) s t live) here)

  run-notified :
      (steps : List (Action × ℕ)) (s : State) (t : ℕ)
      → s.notified t ≡ true
      → (run hello s steps).notified t ≡ true
  unfolding run
  run-notified [] s t woken = woken
  run-notified ((a, k) ∷ steps) s t woken =
      run-notified steps (step hello s (a, k)) t (step-notified s a k t woken)

  -- The creator `t` publishes its channel and lets go, and the underlay `u` wakes; others take their
  -- steps behind each of these.
  abbrev pub let_go : State → ℕ → List (Action × ℕ) → List (Action × ℕ) → State
  let_go s t os0 os1 =
      run hello (step hello (run hello (step hello s (publish, t)) os0) (release, t)) os1

  abbrev pub woken_up :
      State → ℕ → ℕ → List (Action × ℕ) → List (Action × ℕ) → List (Action × ℕ) → State
  woken_up s t u os0 os1 os2 = run hello (step hello (let_go s t os0 os1) (wake, u)) os2

  -- It looks its group up, acknowledges its hello, and hands itself to the channel that it found.
  abbrev pub looked_up : State → ℕ → List (Action × ℕ) → State
  looked_up s u os3 = run hello (step hello s (look_up, u)) os3

  wakes :
      (s : State) (t u : ℕ)
      → s.stage u ≡ waiting t
      → s.notified t ≡ true
      → (step hello s (wake, u)).stage u ≡ arrived
  unfolding step act
  wakes s t u at woken = ground (arith, at, woken)

  finds :
      (s : State) (t u : ℕ)
      → s.stage u ≡ arrived
      → IsRegistered s t
      → id_of hello t ≡ id_of hello u
      → is_live s t ≡ true
      → (step hello s (look_up, u)).stage u ≡ found t
  unfolding step act look_up_in
  finds s t u at here same live =
      let reg : s.channels (id_of hello u) ≡ some t = rw (← same) here in
      rw (at, reg, live) (ground arith)

  publishes :
      (s : State) (t : ℕ)
      → s.stage t ≡ created
      → is_live (step hello s (publish, t)) t ≡ true
      → IsRegistered (step hello s (publish, t)) t
        × ((step hello s (publish, t)).stage t ≡ releasing)
  unfolding step act publish_channel
  publishes s t at live = ground (arith, at, live)

  lets_go :
      (s : State) (t : ℕ) → s.stage t ≡ releasing → (step hello s (release, t)).notified t ≡ true
  unfolding step act release_reservation
  lets_go s t at = ground (arith, at)

  acknowledges :
      (s : State) (t u : ℕ) → s.stage u ≡ found t → (step hello s (ack_ok, u)).stage u ≡ attaching t
  unfolding step act
  acknowledges s t u at = ground (arith, at)

  -- An underlay that waited while its group's channel was created joins that channel: when the creator
  -- has published it and let go, the underlay wakes, finds it and, its hello acknowledged, calls
  -- `AcceptUnderlay` of just that channel, as long as the channel is live when it is looked up; whatever
  -- other goroutines do before and in between, and whether or not the call takes the underlay, which is
  -- the channel's to say.
  pub waiter_joins :
      (s : State) (t u : ℕ) (os0 os1 os2 os3 : List (Action × ℕ))
      → Reachable hello s
      → s.stage t ≡ created
      → s.stage u ≡ waiting t
      → Without t os0
      → Without u os0
      → Without u os1
      → Without u os2
      → Without u os3
      → is_live (woken_up s t u os0 os1 os2) t ≡ true
      → ((looked_up (woken_up s t u os0 os1 os2) u os3).stage u ≡ found t)
        × ((step hello (looked_up (woken_up s t u os0 os1 os2) u os3) (ack_ok, u)).stage u
            ≡ attaching t)
  waiter_joins s t u os0 os1 os2 os3 reach ht hu t0 u0 u1 u2 u3 live =
      let apart : t ≢ u = λ e. absurd (cc) in
      let s0 = step hello s (publish, t) in
      let a0 = run hello s0 os0 in
      let s1 = step hello a0 (release, t) in
      let a1 = run hello s1 os1 in
      let s2 = step hello a1 (wake, u) in
      let a2 = run hello s2 os2 in
      let s3 = step hello a2 (look_up, u) in
      let live_a1 = step-live a1 wake u t (run-live os2 s2 t live) in
      let live_a0 = step-live a0 release t t (run-live os1 s1 t live_a1) in
      let published = publishes s t ht (run-live os0 s0 t live_a0) in
      let v0 = step-Inv hello s publish t (Reachable-Inv hello s reach) in
      let w0 = run-Inv hello s0 os0 v0 in
      let v1 = step-Inv hello a0 release t w0 in
      let w1 = run-Inv hello s1 os1 v1 in
      let here_a0 = run-IsRegistered os0 s0 t v0 live_a0 published.0 in
      let here_a1 =
        run-IsRegistered os1 s1 t v1 live_a1
          (step-IsRegistered a0 release t t w0 live_a0 here_a0) in
      let here =
        run-IsRegistered os2 s2 t (step-Inv hello a1 wake u w1) live
          (step-IsRegistered a1 wake u t w1 live_a1 here_a1) in
      let noted = run-notified os1 s1 t (lets_go a0 t (run-stage os0 s0 t t0 ∙ published.1)) in
      let waits : a1.stage u ≡ waiting t =
        run-stage os1 s1 u u1
        ∙ step-stage a0 release t u apart
        ∙ run-stage os0 s0 u u0
        ∙ step-stage s publish t u apart
        ∙ hu in
      let arrives = run-stage os2 s2 u u2 ∙ wakes a1 t u waits noted in
      let same = (Reachable-Links hello s reach).waits u t hu in
      let got = run-stage os3 s3 u u3 ∙ finds a2 t u arrives here same live in
      (got, acknowledges (run hello s3 os3) t u got)
