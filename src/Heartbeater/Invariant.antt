-- ===== src/Heartbeater/Invariant.antt =====
-- The invariant of the heartbeats, in all interleavings.
use channel.Base.{
  ℕ, ◌-◌, ◌==◌, ◌≤◌, ◌≡◌, ◌≢◌, ◌⊎◌, inl, inr, refl, sym, ap, subst, arith, List, [], ◌∷◌, ◌++◌,
  Bool, true, false, ◌||◌, Option, none, some, if◌then◌else◌, if-keeps, ltb, length, length-append,
}
use channel.Base.Maps.{nat_eq}
use channel.Message.{Message}
use channel.Message.Headers.{get_uint64_header}
use channel.Message.Keys.{heartbeat_header, heartbeat_response_header, content_type_raw}
use channel.Senders.{update}
use channel.Heartbeater.{
  HeartbeatEvent, tx_event, rx_event, resp_tx_event, resp_rx_event, handle_unresponded, Callback,
  heartbeat_tx, heartbeat_rx, heartbeat_resp_tx, heartbeat_resp_rx, check_heart_beat, TxStage,
  not_transformed, is_due, is_stamped, has_loaded, transformed, Heartbeater, event_capacity,
  queue_event, is_heartbeat_due, move, put_header, compare, stamp, load_unresponded, respond,
  advance, handle, tell, when_idle, Interval, handle_next, tick, reconfigure, fire_timer, queue_if,
  rx_heartbeat, update_intervals, HeartbeatStep, transforms, arrives, handles, tells, fires,
  retunes, ticks, updates, heartbeat, heartbeat_if_queue_free, heartbeat_step, run_heartbeats,
  configure_heartbeat,
}

-- The callback was told of heartbeat `v`.
abbrev pub was_told : ℕ → List Callback → Bool
was_told v [] = false
was_told v (heartbeat_rx w ∷ cs) = (v == w) || was_told v cs
was_told v (heartbeat_tx w ∷ cs) = was_told v cs
was_told v (heartbeat_resp_tx w ∷ cs) = was_told v cs
was_told v (heartbeat_resp_rx w ∷ cs) = was_told v cs
was_told v (check_heart_beat ∷ cs) = was_told v cs

was_told-append :
    (v : ℕ) (cs ds : List Callback) → was_told v cs ≡ true → was_told v (cs ++ ds) ≡ true
was_told-append v [] ds h = absurd (cc)
was_told-append v (heartbeat_rx w ∷ cs) ds h = ground (arith, was_told-append v cs ds)
was_told-append v (heartbeat_tx w ∷ cs) ds h = was_told-append v cs ds h
was_told-append v (heartbeat_resp_tx w ∷ cs) ds h = was_told-append v cs ds h
was_told-append v (heartbeat_resp_rx w ∷ cs) ds h = was_told-append v cs ds h
was_told-append v (check_heart_beat ∷ cs) ds h = was_told-append v cs ds h

was_told-last : (v : ℕ) (cs : List Callback) → was_told v (cs ++ (heartbeat_rx v ∷ [])) ≡ true
was_told-last v [] = ground (arith)
was_told-last v (heartbeat_rx w ∷ cs) = ground (arith, was_told-last v cs)
was_told-last v (heartbeat_tx w ∷ cs) = was_told-last v cs
was_told-last v (heartbeat_resp_tx w ∷ cs) = was_told-last v cs
was_told-last v (heartbeat_resp_rx w ∷ cs) = was_told-last v cs
was_told-last v (check_heart_beat ∷ cs) = was_told-last v cs

-- The callback was told of the heartbeat, or the pulse is about to tell it.
abbrev pub IsTaken : ℕ → List Callback → Option ℕ → Type 0
IsTaken v cs tl = (was_told v cs ≡ true) ⊎ (tl ≡ some v)

-- A heartbeat that is held is one that the pulse took.
abbrev Held : ℕ → List Callback → Option ℕ → Type 0
Held v cs tl = v ≢ 0 → IsTaken v cs tl

-- What `Tx` has loaded, if it has.
abbrev StageInv : List Callback → Option ℕ → TxStage → Type 0
StageInv cs tl p = (now v : ℕ) → p ≡ has_loaded now v → (v ≢ 0) × IsTaken v cs tl

pub record HeartbeatInv (s : Heartbeater) : Type 0 where
  pub bounded : length s.events ≤ event_capacity
  pub pending : Held s.unresponded_heartbeat s.callbacks s.telling
  pub loaded : (t : ℕ) → StageInv s.callbacks s.telling (s.stage t)

same_place :
    (cs : List Callback) (tl : Option ℕ) (now v : ℕ)
    → v ≢ 0
    → IsTaken v cs tl
    → StageInv cs tl (has_loaded now v)
same_place cs tl now v nonzero taken n w e =
    let same : v ≡ w = cc in (rw (sym same) nonzero, subst (λ x. IsTaken x cs tl) same taken)

move-StageInv :
    (s : Heartbeater) (t : ℕ) (p : TxStage)
    → StageInv s.callbacks s.telling p
    → ((k : ℕ) → StageInv s.callbacks s.telling (s.stage k))
    → (k : ℕ) → StageInv s.callbacks s.telling (update s.stage t p k)
move-StageInv s t p here all k =
    if-keeps (StageInv s.callbacks s.telling) (t == k) (λ _. here) (λ _. all k)

move-HeartbeatInv :
    (s : Heartbeater) (t : ℕ) (p : TxStage)
    → StageInv s.callbacks s.telling p
    → HeartbeatInv s
    → HeartbeatInv (move t p s)
move-HeartbeatInv s t p here inv = record {
  bounded = inv.bounded;
  pending = inv.pending;
  loaded = move-StageInv s t p here inv.loaded;
}

queue_event-HeartbeatInv :
    (e : HeartbeatEvent) (s : Heartbeater) → HeartbeatInv s → HeartbeatInv (queue_event e s)
unfolding queue_event
queue_event-HeartbeatInv e s inv =
    if-keeps HeartbeatInv (ltb (length s.events) event_capacity)
      (λ space. record {
        bounded = ground (arith, length-append s.events (e ∷ []), space);
        pending = inv.pending;
        loaded = inv.loaded;
      })
      (λ _. inv)

advance-HeartbeatInv :
    (s : Heartbeater) (p : TxStage) (now t : ℕ) → HeartbeatInv s → HeartbeatInv (advance p now t s)
unfolding advance compare stamp load_unresponded respond put_header
advance-HeartbeatInv s not_transformed now t inv =
    if-keeps HeartbeatInv ((s.messages t).content_type == content_type_raw)
      (λ _. move-HeartbeatInv s t transformed (λ n v e. absurd (cc)) inv)
      (λ _.
        if-keeps HeartbeatInv (is_heartbeat_due now s)
          (λ _. move-HeartbeatInv s t (is_due now) (λ n v e. absurd (cc)) inv)
          (λ _. move-HeartbeatInv s t (is_stamped now) (λ n v e. absurd (cc)) inv))
advance-HeartbeatInv s (is_due n) now t inv =
    queue_event-HeartbeatInv (tx_event n)
      (record (move t (is_stamped n) (put_header t heartbeat_header n s)) { last_heartbeat_tx = n })
      (record {
        bounded = inv.bounded;
        pending = inv.pending;
        loaded = move-StageInv s t (is_stamped n) (λ m v e. absurd (cc)) inv.loaded;
      })
advance-HeartbeatInv s (is_stamped n) now t inv =
    let v = s.unresponded_heartbeat in
    if-keeps HeartbeatInv (v == 0)
      (λ _. move-HeartbeatInv s t transformed (λ m w e. absurd (cc)) inv)
      (λ held.
        let nonzero : v ≢ 0 = λ e. absurd (ground (arith, held, e)) in
        move-HeartbeatInv s t (has_loaded n v)
          (same_place s.callbacks s.telling n v nonzero (inv.pending nonzero)) inv)
advance-HeartbeatInv s (has_loaded n v) now t inv =
    queue_event-HeartbeatInv (resp_tx_event n)
      (record (move t transformed (put_header t heartbeat_response_header v s)) {
        unresponded_heartbeat = 0;
      })
      (record {
        bounded = inv.bounded;
        pending = λ nonzero. absurd (nonzero refl);
        loaded = move-StageInv s t transformed (λ m w e. absurd (cc)) inv.loaded;
      })
advance-HeartbeatInv s transformed now t inv = inv

-- A callback that is told more still was told.
IsTaken-more :
    (cs ds : List Callback) (tl : Option ℕ) (v : ℕ) → IsTaken v cs tl → IsTaken v (cs ++ ds) tl
IsTaken-more cs ds tl v (inl told) = inl (was_told-append v cs ds told)
IsTaken-more cs ds tl v (inr telling) = inr telling

told-HeartbeatInv :
    (c : Callback) (s : Heartbeater)
    → HeartbeatInv s
    → HeartbeatInv (record s { callbacks = s.callbacks ++ (c ∷ []) })
told-HeartbeatInv c s inv = record {
  bounded = inv.bounded;
  pending = λ nonzero.
      IsTaken-more s.callbacks (c ∷ []) s.telling s.unresponded_heartbeat (inv.pending nonzero);
  loaded = λ t now v e.
      let h = inv.loaded t now v e in (h.0, IsTaken-more s.callbacks (c ∷ []) s.telling v h.1);
}

-- The callback that is made is the one that was to be made.
tell_done :
    (cs : List Callback) (w v : ℕ)
    → IsTaken v cs (some w)
    → IsTaken v (cs ++ (heartbeat_rx w ∷ [])) none
tell_done cs w v (inl told) = inl (was_told-append v cs (heartbeat_rx w ∷ []) told)
tell_done cs w v (inr telling) =
    let same : w ≡ v = cc in
    inl (subst (λ x. was_told x (cs ++ (heartbeat_rx w ∷ [])) ≡ true) same (was_told-last w cs))

tell-HeartbeatInv :
    (o : Option ℕ) (s : Heartbeater) → s.telling ≡ o → HeartbeatInv s → HeartbeatInv (tell o s)
unfolding tell
tell-HeartbeatInv none s e inv = inv
tell-HeartbeatInv (some w) s e inv = record {
  bounded = inv.bounded;
  pending = λ nonzero.
      tell_done s.callbacks w s.unresponded_heartbeat
        (subst (IsTaken s.unresponded_heartbeat s.callbacks) e (inv.pending nonzero));
  loaded = λ t now v h.
      let l = inv.loaded t now v h in
      (l.0, tell_done s.callbacks w v (subst (IsTaken v s.callbacks) e l.1));
}

-- Once the pulse has told what it was to tell, the callback was told of all that it took.
pub tell_tells :
    (o : Option ℕ) (s : Heartbeater) (v : ℕ)
    → s.telling ≡ o
    → IsTaken v s.callbacks s.telling
    → was_told v (tell o s).callbacks ≡ true
unfolding tell
tell_tells none s v e (inl told) = told
tell_tells none s v e (inr telling) = absurd (cc)
tell_tells (some w) s v e (inl told) = was_told-append v s.callbacks (heartbeat_rx w ∷ []) told
tell_tells (some w) s v e (inr telling) =
    let same : w ≡ v = cc in
    subst (λ x. was_told x (s.callbacks ++ (heartbeat_rx w ∷ [])) ≡ true) same
      (was_told-last w s.callbacks)

-- A pulse that is in the middle of `handle` takes no case.
when_idle-HeartbeatInv :
    (o : Option ℕ) (next s : Heartbeater)
    → HeartbeatInv s
    → (o ≡ none → HeartbeatInv next)
    → HeartbeatInv (when_idle o next s)
when_idle-HeartbeatInv none next s inv keeps = keeps refl
when_idle-HeartbeatInv (some v) next s inv keeps = inv

-- What is sent, and how often the pulse checks, is apart from the invariant.
aside-HeartbeatInv :
    (s r : Heartbeater)
    → r.events ≡ s.events
    → r.unresponded_heartbeat ≡ s.unresponded_heartbeat
    → r.callbacks ≡ s.callbacks
    → r.telling ≡ s.telling
    → r.stage ≡ s.stage
    → HeartbeatInv s
    → HeartbeatInv r
aside-HeartbeatInv s r events pending told telling stages inv = record {
  bounded = rw events inv.bounded;
  pending = rw (pending, told, telling) inv.pending;
  loaded = rw (told, telling, stages) inv.loaded;
}

-- What the pulse took before it had told.
still-IsTaken :
    (cs : List Callback) (tl : Option ℕ) (v w : ℕ)
    → tl ≡ none
    → IsTaken w cs tl
    → IsTaken w cs (some v)
still-IsTaken cs tl v w idle (inl told) = inl told
still-IsTaken cs tl v w idle (inr telling) = absurd (cc)

handle-HeartbeatInv :
    (e : HeartbeatEvent) (s : Heartbeater)
    → s.telling ≡ none
    → HeartbeatInv s
    → HeartbeatInv (handle e s)
unfolding handle
handle-HeartbeatInv (tx_event v) s idle inv = told-HeartbeatInv (heartbeat_tx v) s inv
handle-HeartbeatInv (rx_event v) s idle inv = record {
  bounded = inv.bounded;
  pending = λ nonzero. inr refl;
  loaded = λ t now w e.
      let l = inv.loaded t now w e in (l.0, still-IsTaken s.callbacks s.telling v w idle l.1);
}
handle-HeartbeatInv (resp_tx_event v) s idle inv = told-HeartbeatInv (heartbeat_resp_tx v) s inv
handle-HeartbeatInv (resp_rx_event v) s idle inv = told-HeartbeatInv (heartbeat_resp_rx v) s inv
handle-HeartbeatInv handle_unresponded s idle inv =
    if-keeps HeartbeatInv (s.unresponded_heartbeat == 0) (λ _. inv)
      (λ _.
        aside-HeartbeatInv s (record s { sends = s.sends ++ (heartbeat_if_queue_free ∷ []) }) refl
          refl refl refl refl inv)

handle_next-HeartbeatInv :
    (es : List HeartbeatEvent) (s : Heartbeater)
    → s.events ≡ es
    → s.telling ≡ none
    → HeartbeatInv s
    → HeartbeatInv (handle_next es s)
unfolding handle_next
handle_next-HeartbeatInv [] s queue idle inv = inv
handle_next-HeartbeatInv (e ∷ rest) s queue idle inv =
    handle-HeartbeatInv e (record s { events = rest }) idle
      (record {
        bounded = omega (arith, ap length queue, inv.bounded);
        pending = inv.pending;
        loaded = inv.loaded;
      })

queue_if-HeartbeatInv :
    (b : Bool) (e : HeartbeatEvent) (s : Heartbeater)
    → HeartbeatInv s
    → HeartbeatInv (queue_if b e s)
unfolding queue_if
queue_if-HeartbeatInv true e s inv = queue_event-HeartbeatInv e s inv
queue_if-HeartbeatInv false e s inv = inv

reconfigure-HeartbeatInv :
    (o : Option ℕ) (s : Heartbeater) → HeartbeatInv s → HeartbeatInv (reconfigure o s)
unfolding reconfigure
reconfigure-HeartbeatInv none s inv = inv
reconfigure-HeartbeatInv (some interval) s inv =
    aside-HeartbeatInv s (reconfigure (some interval) s) refl refl refl refl refl inv

heartbeat_step-HeartbeatInv :
    (s : Heartbeater) (e : HeartbeatStep) → HeartbeatInv s → HeartbeatInv (heartbeat_step s e)
unfolding heartbeat_step rx_heartbeat fire_timer tick update_intervals
heartbeat_step-HeartbeatInv s (transforms now t) inv = advance-HeartbeatInv s (s.stage t) now t inv
heartbeat_step-HeartbeatInv s (arrives h) inv =
    let (val, found) = get_uint64_header heartbeat_header h in
    let (resp_val, resp_found) = get_uint64_header heartbeat_response_header h in
    queue_if-HeartbeatInv resp_found (resp_rx_event resp_val) (queue_if found (rx_event val) s)
      (queue_if-HeartbeatInv found (rx_event val) s inv)
heartbeat_step-HeartbeatInv s handles inv =
    when_idle-HeartbeatInv s.telling (handle_next s.events s) s inv
      (λ idle. handle_next-HeartbeatInv s.events s refl idle inv)
heartbeat_step-HeartbeatInv s tells inv = tell-HeartbeatInv s.telling s refl inv
heartbeat_step-HeartbeatInv s fires inv =
    let fired = record s { timers = s.timers - 1 } in
    if-keeps HeartbeatInv (s.timers == 0) (λ _. inv)
      (λ _.
        queue_event-HeartbeatInv handle_unresponded fired
          (aside-HeartbeatInv s fired refl refl refl refl refl inv))
heartbeat_step-HeartbeatInv s retunes inv =
    when_idle-HeartbeatInv s.telling (reconfigure s.reconfig s) s inv
      (λ _. reconfigure-HeartbeatInv s.reconfig s inv)
heartbeat_step-HeartbeatInv s (ticks now) inv =
    let sent = record s {
      sends = if is_heartbeat_due now s then s.sends ++ (heartbeat ∷ []) else s.sends;
    } in
    when_idle-HeartbeatInv s.telling (tick now s) s inv (λ _.
      told-HeartbeatInv check_heart_beat sent
        (aside-HeartbeatInv s sent refl refl refl refl refl inv))
heartbeat_step-HeartbeatInv s (updates send_interval check_interval) inv =
    aside-HeartbeatInv s (update_intervals send_interval check_interval s) refl refl refl refl refl
      inv

pub run_heartbeats-HeartbeatInv :
    (s : Heartbeater) (steps : List HeartbeatStep)
    → HeartbeatInv s
    → HeartbeatInv (run_heartbeats s steps)
unfolding run_heartbeats
run_heartbeats-HeartbeatInv s [] inv = inv
run_heartbeats-HeartbeatInv s (e ∷ steps) inv =
    run_heartbeats-HeartbeatInv (heartbeat_step s e) steps (heartbeat_step-HeartbeatInv s e inv)

pub configure_heartbeat-HeartbeatInv :
    (heartbeat_interval : Interval) (check_interval : ℕ) (messages : ℕ → Message)
    → HeartbeatInv (configure_heartbeat heartbeat_interval check_interval messages)
unfolding configure_heartbeat
configure_heartbeat-HeartbeatInv heartbeat_interval check_interval messages = record {
  bounded = omega arith;
  pending = λ nonzero. absurd (nonzero refl);
  loaded = λ t now v e. absurd (cc);
}
