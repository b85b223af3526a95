-- ===== src/MultiListener/Progress.antt =====
-- Nothing waits for ever: a waiting goroutine's notifier is closed or its creator still runs, the
-- creator can always finish by itself, and the waiter then attaches to the channel it created.
use channel.Base.{ℕ, List, [], ◌∷◌, ◌≡◌, refl, arith, true, false, none, some, ◌⊎◌, inl, inr}
use channel.MultiListener.{
  Hello, Stage, waiting, found, reserved, admitted, acknowledged, created, releasing, rejecting,
  State, Action, admit, ack_ok, factory_ok, publish, release, channel_closes, callback_marks,
  callback_unregisters, init, reserve, evict, look_up_in, release_reservation, publish_channel,
  unregister, act, step, run, Reachable,
}
use channel.MultiListener.Invariant.{is_holding, id_of, Inv, init-Inv, step-Inv}
use channel.MultiListener.Safety.{Reachable-Inv}

-- The steps that are left to a creator when nothing fails.
abbrev pub finish : Stage → ℕ → List (Action × ℕ)
finish reserved t = (admit, t) ∷ (ack_ok, t) ∷ (factory_ok, t) ∷ (publish, t) ∷ (release, t) ∷ []
finish admitted t = (ack_ok, t) ∷ (factory_ok, t) ∷ (publish, t) ∷ (release, t) ∷ []
finish acknowledged t = (factory_ok, t) ∷ (publish, t) ∷ (release, t) ∷ []
finish created t = (publish, t) ∷ (release, t) ∷ []
finish _ t = (release, t) ∷ []

module _ (hello : ℕ → Hello) where
  -- A goroutine waits for a creator of its own group, which is still at work or has woken it.
  pub record Links (s : State) : Type 0 where
    pub awake :
        (u n : ℕ) → s.stage u ≡ waiting n → (s.notified n ≡ true) ⊎ (is_holding (s.stage n) ≡ true)
    pub waits : (u n : ℕ) → s.stage u ≡ waiting n → id_of hello n ≡ id_of hello u
    pub joins : (u r : ℕ) → s.stage u ≡ found r → id_of hello r ≡ id_of hello u

  init-Links : Links init
  unfolding init
  init-Links = record { awake = λ u n h. cc; waits = λ u n h. cc; joins = λ u r h. cc }

  act-Links :
      (p : Stage) (a : Action) (t : ℕ) (s : State)
      → s.stage t ≡ p
      → Inv hello s
      → Links s
      → Links (act hello p a t s)
  unfolding act look_up_in reserve evict release_reservation publish_channel
  act-Links p a t s e v l = record {
    awake = λ u n h. ground (arith, l.awake u n, v.held (id_of hello t) n);
    waits = λ u n h. ground (arith, l.waits u n, v.held (id_of hello t) n);
    joins = λ u r h. ground (arith, l.joins u r, v.own_id (id_of hello t) r);
  }

  step-Links :
      (s : State) (a : Action) (t : ℕ) → Inv hello s → Links s → Links (step hello s (a, t))
  unfolding step unregister
  step-Links s channel_closes t v l = record {
    awake = λ u n h. ground (arith, l.awake u n);
    waits = λ u n h. ground (arith, l.waits u n);
    joins = λ u r h. ground (arith, l.joins u r);
  }
  step-Links s callback_marks t v l = record {
    awake = λ u n h. ground (arith, l.awake u n);
    waits = λ u n h. ground (arith, l.waits u n);
    joins = λ u r h. ground (arith, l.joins u r);
  }
  step-Links s callback_unregisters t v l = record {
    awake = λ u n h. ground (arith, l.awake u n);
    waits = λ u n h. ground (arith, l.waits u n);
    joins = λ u r h. ground (arith, l.joins u r);
  }
  step-Links s a t v l = act-Links (s.stage t) a t s refl v l

  run-Links :
      (s : State) (schedule : List (Action × ℕ))
      → Inv hello s
      → Links s
      → Links (run hello s schedule)
  unfolding run
  run-Links s [] v l = l
  run-Links s ((a, t) ∷ more) v l =
      run-Links (step hello s (a, t)) more (step-Inv hello s a t v) (step-Links s a t v l)

  pub Reachable-Links : (s : State) → Reachable hello s → Links s
  Reachable-Links s (schedule, e) = rw (← e) (run-Links init schedule (init-Inv hello) init-Links)

  -- A goroutine that waits on a notifier waits for a creator of its own group: either it has been
  -- woken, or that creator is still at work and holds the group's reservation.
  pub waiter_has_creator :
      (s : State) (u n : ℕ)
      → Reachable hello s
      → s.stage u ≡ waiting n
      → (id_of hello n ≡ id_of hello u)
        × ((s.notified n ≡ true)
            ⊎ ((is_holding (s.stage n) ≡ true) × (s.create_notifiers (id_of hello u) ≡ some n)))
  waiter_has_creator s u n reach h =
      let v = Reachable-Inv hello s reach in
      let l = Reachable-Links s reach in ground (arith, l.awake u n h, l.waits u n h, v.holds n)

  -- An underlay only ever joins a channel that was created for its own connection id.
  pub joins_own_group :
      (s : State) (u r : ℕ)
      → Reachable hello s
      → s.stage u ≡ found r
      → id_of hello r ≡ id_of hello u
  joins_own_group s u r reach h = (Reachable-Links s reach).joins u r h

  -- The reservation is released and whoever waits on it is woken.
  pub record IsReleased (s : State) (t : ℕ) : Type 0 where
    pub woken : s.notified t ≡ true
    pub free : s.create_notifiers (id_of hello t) ≡ none
    pub done : is_holding (s.stage t) ≡ false

  release_frees :
      (s : State) (t : ℕ)
      → (s.stage t ≡ releasing) ⊎ (s.stage t ≡ rejecting)
      → IsReleased (step hello s (release, t)) t
  unfolding step act release_reservation
  release_frees s t h = ground arith

  finish_created :
      (s : State) (t : ℕ) → s.stage t ≡ created → IsReleased (run hello s (finish created t)) t
  unfolding run
  finish_created s t e =
      release_frees (step hello s (publish, t)) t
        (inl (unfold step act publish_channel in ground arith))

  finish_acknowledged :
      (s : State) (t : ℕ)
      → s.stage t ≡ acknowledged
      → IsReleased (run hello s (finish acknowledged t)) t
  unfolding run
  finish_acknowledged s t e =
      finish_created (step hello s (factory_ok, t)) t (unfold step act in ground arith)

  finish_admitted :
      (s : State) (t : ℕ) → s.stage t ≡ admitted → IsReleased (run hello s (finish admitted t)) t
  unfolding run
  finish_admitted s t e =
      finish_acknowledged (step hello s (ack_ok, t)) t (unfold step act in ground arith)

  finish_from :
      (p : Stage) (s : State) (t : ℕ)
      → s.stage t ≡ p
      → is_holding p ≡ true
      → IsReleased (run hello s (finish p t)) t
  unfolding run
  finish_from reserved s t e h =
      finish_admitted (step hello s (admit, t)) t (unfold step act in ground arith)
  finish_from admitted s t e h = finish_admitted s t e
  finish_from acknowledged s t e h = finish_acknowledged s t e
  finish_from created s t e h = finish_created s t e
  finish_from releasing s t e h = release_frees s t (inl e)
  finish_from rejecting s t e h = release_frees s t (inr e)
  finish_from _ s t e h = cc

  -- A creator can always finish by its own steps alone, at most five of them: its reservation is
  -- then released, and whoever waits on it has been woken.
  pub creator_finishes :
      (s : State) (t : ℕ)
      → is_holding (s.stage t) ≡ true
      → IsReleased (run hello s (finish (s.stage t) t)) t
  creator_finishes s t h = finish_from (s.stage t) s t refl h
