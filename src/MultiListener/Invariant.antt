-- ===== src/MultiListener/Invariant.antt =====
-- What holds of the listener between any two steps.
use channel.Base.{
  ℕ, List, [], ◌∷◌, ◌≡◌, ◌≢◌, refl, sym, arith, Bool, true, false, none, some, inl, inr, Bool-cases,
  Option-cases,
}
use channel.MultiListener.{
  Hello, Stage, arrived, waiting, found, attaching, reserved, admitted, acknowledged, created,
  releasing, rejecting, closed, attached, served, State, update, move, Action, look_up, wake,
  time_out, admit, refuse, ack_ok, ack_failed, attach, factory_ok, factory_failed, publish, release,
  channel_closes, callback_marks, callback_unregisters, init, is_live, reserve, evict, look_up_in,
  release_reservation, publish_channel, unregister, act, is_called, step, run,
}

-- Between taking the reservation and releasing it.
abbrev pub is_holding : Stage → Bool
is_holding reserved = true
is_holding admitted = true
is_holding acknowledged = true
is_holding created = true
is_holding releasing = true
is_holding rejecting = true
is_holding _ = false

-- Holding, with no channel published yet.
abbrev pub is_creating : Stage → Bool
is_creating releasing = false
is_creating p = is_holding p

module _ (hello : ℕ → Hello) where
  abbrev pub id_of : ℕ → ℕ
  id_of t = (hello t).connection_id

  pub record Inv (s : State) : Type 0 where
    -- A goroutine holds the reservation of its id exactly while its notifier is the map's.
    pub holds : (t : ℕ) → is_holding (s.stage t) ≡ true → s.create_notifiers (id_of t) ≡ some t
    pub held :
        (k t : ℕ) → s.create_notifiers k ≡ some t → (is_holding (s.stage t) ≡ true) × (id_of t ≡ k)
    -- While a group is being created, no channel is registered under its id.
    pub vacant : (t : ℕ) → is_creating (s.stage t) ≡ true → s.channels (id_of t) ≡ none
    -- A registration stands under its own id.
    pub own_id : (k r : ℕ) → s.channels k ≡ some r → id_of r ≡ k
    -- Once its close callback has run, a registration is marked, and no lookup finds it.
    pub marked : (r : ℕ) → s.unregistered r ≡ true → s.reg_closed r ≡ true
    pub gone : (k r : ℕ) → s.unregistered r ≡ true → s.channels k ≢ some r

  pub init-Inv : Inv init
  unfolding init
  init-Inv = record {
    holds = λ t h. cc;
    held = λ k t h. cc;
    vacant = λ t h. refl;
    own_id = λ k r h. cc;
    marked = λ r h. cc;
    gone = λ k r h e. cc;
  }

  release-Inv :
      (s : State) (t : ℕ) (p : Stage)
      → Inv s
      → is_holding p ≡ false
      → is_holding (s.stage t) ≡ true
      → Inv (move (release_reservation hello t s) t p)
  unfolding release_reservation
  release-Inv s t p v idle holding = record {
    holds = λ u h. ground (arith, v.holds u, v.holds t);
    held = λ k u h. ground (arith, v.held k u, v.holds t, v.held (id_of t) u);
    vacant = λ u h. ground (arith, v.vacant u);
    own_id = v.own_id;
    marked = v.marked;
    gone = v.gone;
  }

  -- A goroutine that moves on without touching the maps.
  shift-Inv :
      (s : State) (t : ℕ) (p : Stage)
      → Inv s
      → is_holding p ≡ is_holding (s.stage t)
      → is_creating p ≡ is_creating (s.stage t)
      → Inv (move s t p)
  shift-Inv s t p v eh ec = record {
    holds = λ u h. ground (arith, v.holds u, v.holds t);
    held = λ k u h. ground (arith, v.held k u);
    vacant = λ u h. ground (arith, v.vacant u, v.vacant t);
    own_id = v.own_id;
    marked = v.marked;
    gone = v.gone;
  }

  evict-Inv : (s : State) (t : ℕ) → Inv s → Inv (evict hello t s)
  unfolding evict
  evict-Inv s t v = record {
    holds = v.holds;
    held = v.held;
    vacant = λ u h. ground (arith, v.vacant u);
    own_id = λ k r h. ground (arith, v.own_id k r);
    marked = v.marked;
    gone = λ k r h e. ground (arith, v.gone k r);
  }

  reserve-Inv :
      (s : State) (t : ℕ)
      → Inv s
      → is_holding (s.stage t) ≡ false
      → s.channels (id_of t) ≡ none
      → Inv (reserve hello (s.create_notifiers (id_of t)) t s)
  unfolding reserve
  reserve-Inv s t v idle free = elim (Option-cases (s.create_notifiers (id_of t))) [
    | inr (n, e) ↦ rw e (shift-Inv s t (waiting n) v (sym idle) (ground (arith, v.vacant t)))
    | inl none_yet ↦ elim (Bool-cases (hello t).is_first) [
      | inr later ↦ rw (none_yet, later) (shift-Inv s t closed v (sym idle) (ground arith))
      | inl first ↦
          rw (none_yet, first)
            (record {
              holds = λ u h. ground (arith, v.holds u);
              held = λ k u h. ground (arith, v.held k u);
              vacant = λ u h. ground (arith, v.vacant u);
              own_id = v.own_id;
              marked = v.marked;
              gone = v.gone;
            })
    ]
  ]

  look_up-Inv :
      (s : State) (t : ℕ)
      → Inv s
      → is_holding (s.stage t) ≡ false
      → Inv (look_up_in hello (s.channels (id_of t)) t s)
  unfolding look_up_in
  look_up-Inv s t v idle = elim (Option-cases (s.channels (id_of t))) [
    | inl free ↦ rw free (reserve-Inv s t v idle free)
    | inr (r, e) ↦ elim (Bool-cases (is_live s r)) [
      | inl live ↦ rw (e, live) (shift-Inv s t (found r) v (sym idle) (ground arith))
      | inr stale ↦
          rw (e, stale)
            (unfold evict in reserve-Inv (evict hello t s) t (evict-Inv s t v) idle (ground arith))
    ]
  ]

  publish-Inv : (s : State) (t : ℕ) → Inv s → s.stage t ≡ created → Inv (publish_channel hello t s)
  unfolding publish_channel
  publish-Inv s t v e = record {
    holds = λ u h. ground (arith, v.holds u, v.holds t);
    held = λ k u h. ground (arith, v.held k u, v.holds t);
    vacant = λ u h. ground (arith, v.vacant u, v.holds u, v.holds t);
    own_id = λ k r h. ground (arith, v.own_id k r);
    marked = λ r h. ground (arith, v.marked r);
    gone = λ k r h p. ground (arith, v.gone k r, v.marked r);
  }

  unregister-Inv : (s : State) (t : ℕ) → Inv s → s.reg_closed t ≡ true → Inv (unregister hello t s)
  unfolding unregister
  unregister-Inv s t v e = record {
    holds = λ u h. ground (arith, v.holds u);
    held = λ k u h. ground (arith, v.held k u);
    vacant = λ u h. ground (arith, v.vacant u);
    own_id = λ k r h. ground (arith, v.own_id k r);
    marked = λ r h. ground (arith, v.marked r);
    gone = λ k r h p. ground (arith, v.gone k r, v.own_id k r);
  }

  mark-Inv :
      (s : State) (t : ℕ) → Inv s → Inv (record s { reg_closed = update s.reg_closed t true })
  mark-Inv s t v = record {
    holds = v.holds;
    held = v.held;
    vacant = v.vacant;
    own_id = v.own_id;
    marked = λ r h. ground (arith, v.marked r);
    gone = v.gone;
  }

  act-Inv :
      (p : Stage) (a : Action) (t : ℕ) (s : State) → s.stage t ≡ p → Inv s → Inv (act hello p a t s)
  unfolding act
  act-Inv arrived look_up t s e v = look_up-Inv s t v (rw e)
  act-Inv (waiting n) wake t s e v = elim (Bool-cases (s.notified n)) [
    | inl open_now ↦ rw open_now (shift-Inv s t arrived v (rw e) (rw e))
    | inr still ↦ rw still v
  ]
  act-Inv (waiting n) time_out t s e v = shift-Inv s t closed v (rw e) (rw e)
  act-Inv (found r) ack_ok t s e v = shift-Inv s t (attaching r) v (rw e) (rw e)
  act-Inv (found r) ack_failed t s e v = shift-Inv s t closed v (rw e) (rw e)
  act-Inv (attaching r) attach t s e v = shift-Inv s t attached v (rw e) (rw e)
  act-Inv reserved admit t s e v = shift-Inv s t admitted v (rw e) (rw e)
  act-Inv reserved refuse t s e v = shift-Inv s t rejecting v (rw e) (rw e)
  act-Inv rejecting release t s e v = release-Inv s t closed v refl (rw e)
  act-Inv admitted ack_ok t s e v = shift-Inv s t acknowledged v (rw e) (rw e)
  act-Inv admitted ack_failed t s e v = release-Inv s t closed v refl (rw e)
  act-Inv acknowledged factory_ok t s e v = shift-Inv s t created v (rw e) (rw e)
  act-Inv acknowledged factory_failed t s e v = record {
    holds = λ u h. ground (arith, v.holds u, v.holds t);
    held = λ k u h. ground (arith, v.held k u);
    vacant = λ u h. ground (arith, v.vacant u, v.vacant t);
    own_id = v.own_id;
    marked = v.marked;
    gone = v.gone;
  }
  act-Inv created publish t s e v = publish-Inv s t v e
  act-Inv releasing release t s e v = release-Inv s t served v refl (rw e)
  act-Inv _ _ t s e v = v

  -- Every step, of any goroutine or close callback, keeps the invariant.
  pub step-Inv : (s : State) (a : Action) (t : ℕ) → Inv s → Inv (step hello s (a, t))
  unfolding step
  step-Inv s channel_closes t v = elim (Bool-cases (is_called (s.stage t))) [
    | inl called ↦ rw called (record {
      holds = v.holds;
      held = v.held;
      vacant = v.vacant;
      own_id = v.own_id;
      marked = v.marked;
      gone = v.gone;
    })
    | inr early ↦ rw early v
  ]
  step-Inv s callback_marks t v = elim (Bool-cases (is_called (s.stage t))) [
    | inl called ↦ rw called (mark-Inv s t v)
    | inr early ↦ rw early v
  ]
  step-Inv s callback_unregisters t v = elim (Bool-cases (s.reg_closed t)) [
    | inl marked ↦ rw marked (unregister-Inv s t v marked)
    | inr not_yet ↦ rw not_yet v
  ]
  step-Inv s a t v = act-Inv (s.stage t) a t s refl v

  pub run-Inv : (s : State) (schedule : List (Action × ℕ)) → Inv s → Inv (run hello s schedule)
  unfolding run
  run-Inv s [] v = v
  run-Inv s ((a, t) ∷ more) v = run-Inv (step hello s (a, t)) more (step-Inv s a t v)
