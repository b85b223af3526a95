-- ===== src/MultiListener/Safety.antt =====
-- What the listener guarantees in every state that some schedule reaches.
use channel.Base.{
  ℕ, List, [], ◌∷◌, ◌≡◌, ◌≢◌, ◌∙◌, arith, true, none, some, if◌then◌else◌, ◌==◌, ◌&&◌, ◌⊎◌, inl,
  inr, Bool-cases, Option-cases,
}
use channel.MultiListener.{
  Hello, Stage, arrived, waiting, found, created, State, Action, look_up, publish, channel_closes,
  callback_marks, callback_unregisters, init, is_live, reserve, evict, look_up_in,
  release_reservation, publish_channel, unregister, act, step, run, Reachable,
}
use channel.MultiListener.Invariant.{is_holding, id_of, Inv, init-Inv, run-Inv}

module _ (hello : ℕ → Hello) where
  pub Reachable-Inv : (s : State) → Reachable hello s → Inv hello s
  Reachable-Inv s (schedule, e) = rw (← e) (run-Inv hello init schedule (init-Inv hello))

  -- In every reachable state at most one goroutine holds the reservation of a connection id.
  pub one_creator :
      (s : State) (t u : ℕ)
      → Reachable hello s
      → is_holding (s.stage t) ≡ true
      → is_holding (s.stage u) ≡ true
      → id_of hello t ≡ id_of hello u
      → t ≡ u
  one_creator s t u reach ht hu e =
      let v = Reachable-Inv s reach in ground (arith, v.holds t ht, v.holds u hu)

  -- While a group is being created, also after its hello was acknowledged, another underlay of the
  -- group is never turned away: its lookup makes it wait for the creator or finds a live channel.
  pub group_is_known :
      (s : State) (t u : ℕ)
      → Reachable hello s
      → is_holding (s.stage t) ≡ true
      → s.stage u ≡ arrived
      → id_of hello u ≡ id_of hello t
      → ((step hello s (look_up, u)).stage u ≡ waiting t)
        ⊎ ((r : ℕ) × ((step hello s (look_up, u)).stage u ≡ found r) × (is_live s r ≡ true))
  unfolding step act look_up_in reserve evict
  group_is_known s t u reach ht hu e =
      let v = Reachable-Inv s reach in
      let mine : s.create_notifiers (id_of hello u) ≡ some t = rw e (v.holds t ht) in
      elim (Option-cases (s.channels (id_of hello u))) [
        | inl free ↦ inl (rw (hu, free, mine) (ground arith))
        | inr (r, reg) ↦ elim (Bool-cases (is_live s r)) [
          | inl live ↦ inr (r, rw (hu, reg, live) (ground arith), live)
          | inr stale ↦ inl (rw (hu, reg, stale, mine) (ground arith))
        ]
      ]

  act-unregistered :
      (p : Stage) (a : Action) (t r : ℕ) (s : State)
      → (act hello p a t s).unregistered r ≡ s.unregistered r
  unfolding act look_up_in reserve evict release_reservation publish_channel
  act-unregistered p a t r s = ground arith

  step-unregistered :
      (s : State) (a : Action) (t r : ℕ)
      → s.unregistered r ≡ true
      → (step hello s (a, t)).unregistered r ≡ true
  unfolding step unregister
  step-unregistered s channel_closes t r h = ground arith
  step-unregistered s callback_marks t r h = ground arith
  step-unregistered s callback_unregisters t r h = ground arith
  step-unregistered s a t r h = act-unregistered (s.stage t) a t r s ∙ h

  run-unregistered :
      (s : State) (schedule : List (Action × ℕ)) (r : ℕ)
      → s.unregistered r ≡ true
      → (run hello s schedule).unregistered r ≡ true
  unfolding run
  run-unregistered s [] r h = h
  run-unregistered s ((a, t) ∷ more) r h =
      run-unregistered (step hello s (a, t)) more r (step-unregistered s a t r h)

  -- Once the close callback of a registration has run, no entry of the map is that registration,
  -- whatever happens from then on: a creation that was under way does not bring it back.
  pub closed_stays_gone :
      (s : State) (later : List (Action × ℕ)) (k r : ℕ)
      → Reachable hello s
      → s.unregistered r ≡ true
      → (run hello s later).channels k ≢ some r
  closed_stays_gone s later k r reach h =
      (run-Inv hello s later (Reachable-Inv s reach)).gone k r (run-unregistered s later r h)

  -- Publishing a channel fills an empty entry, its own, unless the channel closed meanwhile: no
  -- registration is ever replaced.
  pub publish_fills :
      (s : State) (t : ℕ)
      → Reachable hello s
      → s.stage t ≡ created
      → (s.channels (id_of hello t) ≡ none)
        × ((k : ℕ)
            → (step hello s (publish, t)).channels k
              ≡ (if id_of hello t == k && is_live s t then some t else s.channels k))
  unfolding step act publish_channel
  publish_fills s t reach e =
      let v = Reachable-Inv s reach in
      let free = v.vacant t (rw e) in (free, λ k. ground (arith, free))
