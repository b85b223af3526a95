-- ===== src/Heartbeater/RoundTrip.antt =====
-- How a heartbeat comes back.
use channel.Base.{
  ℕ, ◌==◌, ◌<◌, ◌≤◌, ◌^◌, ◌≡◌, refl, ap, ◌∙◌, arith, List, [], ◌∷◌, ◌++◌, Bool, true, false, not,
  none, some, if-keeps, length, length-append,
}
use channel.Base.Maps.{nat_eq}
use channel.Message.{Headers}
use channel.Message.HeaderLaws.{get_uint64-put, get_uint64-put_ne}
use channel.Message.Headers.{get_uint64_header}
use channel.Message.Keys.{heartbeat_header, heartbeat_response_header, content_type_raw}
use channel.Heartbeater.{
  HeartbeatEvent, rx_event, resp_rx_event, heartbeat_rx, not_transformed, Heartbeater,
  event_capacity, queue_event, is_heartbeat_due, handle, tell, when_idle, handle_next, queue_if,
  rx_heartbeat, arrives, handles, tells, heartbeat_step, run_heartbeats, tx_steps,
}
use channel.Heartbeater.Transform.{put_when, tx_headers}

-- A response leaves the heartbeat of a message alone.
heartbeat-put_when :
    (b : Bool) (v : ℕ) (h : Headers)
    → get_uint64_header heartbeat_header (put_when b heartbeat_response_header v h)
      ≡ get_uint64_header heartbeat_header h
heartbeat-put_when true v h =
    get_uint64-put_ne heartbeat_header heartbeat_response_header v h
      (λ e. absurd (omega (arith, e)))
heartbeat-put_when false v h = refl

queue_event-events :
    (e : HeartbeatEvent) (s : Heartbeater)
    → length s.events < event_capacity
    → (queue_event e s).events ≡ s.events ++ (e ∷ [])
unfolding queue_event
queue_event-events e s space = ground (arith, space)

abbrev StartsWith : HeartbeatEvent → Heartbeater → Heartbeater → Type 0
StartsWith e s r =
    ((rest : List HeartbeatEvent) × (r.events ≡ e ∷ rest))
    × (r.stage ≡ s.stage)
    × (r.messages ≡ s.messages)
    × (r.callbacks ≡ s.callbacks)
    × (r.telling ≡ s.telling)

-- A heartbeat that arrives at an empty queue comes first.
arrives_first :
    (s : Heartbeater) (h : Headers) (now : ℕ)
    → get_uint64_header heartbeat_header h ≡ (now, true)
    → s.events ≡ []
    → StartsWith (rx_event now) s (rx_heartbeat h s)
unfolding rx_heartbeat queue_if queue_event
arrives_first s h now found idle =
    let resp = get_uint64_header heartbeat_response_header h in
    rw (found, idle)
      (if-keeps (StartsWith (rx_event now) s) resp.1
        (λ _. (((resp_rx_event resp.0 ∷ []), refl), refl, refl, refl, refl))
        (λ _. (([], refl), refl, refl, refl, refl)))

-- A response that arrives at a queue with two free places comes last.
arrives_last :
    (s : Heartbeater) (h : Headers) (now : ℕ)
    → get_uint64_header heartbeat_response_header h ≡ (now, true)
    → length s.events ≤ 2
    → (front : List HeartbeatEvent) × ((rx_heartbeat h s).events
        ≡ front ++ (resp_rx_event now ∷ []))
unfolding rx_heartbeat queue_if
arrives_last s h now found space =
    let beat = get_uint64_header heartbeat_header h in
    let s1 = queue_if beat.1 (rx_event beat.0) s in
    let few : length s1.events ≤ 3 =
      if-keeps (λ (r : Heartbeater). length r.events ≤ 3) beat.1
        (λ _.
          rw (queue_event-events (rx_event beat.0) s (omega (arith, space)))
            (omega (arith, length-append s.events (rx_event beat.0 ∷ []), space)))
        (λ _. omega (arith, space)) in
    rw found (s1.events, queue_event-events (resp_rx_event now) s1 (omega (arith, few)))

-- The next message answers the heartbeat that was taken.
answers :
    (s : Heartbeater) (now t v : ℕ)
    → s.stage t ≡ not_transformed
    → ((s.messages t).content_type == content_type_raw) ≡ false
    → s.unresponded_heartbeat ≡ v
    → (v == 0) ≡ false
    → v < 2 ^ 64
    → get_uint64_header heartbeat_response_header
        ((run_heartbeats s (tx_steps now t)).messages t).headers
      ≡ (v, true)
answers s now t v fresh cooked pending nonzero small =
    let rest = put_when (is_heartbeat_due now s) heartbeat_header now (s.messages t).headers in
    ap (get_uint64_header heartbeat_response_header) (tx_headers s now t fresh cooked)
    ∙ ap
        (λ w.
          get_uint64_header heartbeat_response_header
            (put_when (not (w == 0)) heartbeat_response_header w rest))
        pending
    ∙ rw nonzero (get_uint64-put heartbeat_response_header v rest small)

-- A pulse with nothing to tell takes the heartbeat that comes first, and tells the callback.
abbrev pub taken : ℕ → List HeartbeatEvent → Heartbeater → Heartbeater
taken now rest s = tell (some now) (handle (rx_event now) (record s { events = rest }))

pub handles_and_tells :
    (s : Heartbeater) (now : ℕ) (rest : List HeartbeatEvent)
    → s.events ≡ rx_event now ∷ rest
    → s.telling ≡ none
    → run_heartbeats s (handles ∷ tells ∷ []) ≡ taken now rest s
unfolding run_heartbeats heartbeat_step handle_next handle tell
handles_and_tells s now rest queue idle =
    ap (λ (r : Heartbeater). heartbeat_step r tells)
      (ap (λ o. when_idle o (handle_next s.events s) s) idle ∙ ap (λ es. handle_next es s) queue)

-- A heartbeat comes back: when `a` is due for one, the message that `a` transforms carries the time, which
-- is not 0; of that message `b`, whose queue is empty and whose pulse is not in the middle of a callback,
-- takes the time and tells its callback; the next message that `b` transforms answers with the same
-- time; and of that message `c`, whose queue has two free places, queues the response, with the time that
-- `a` sent. Neither message is raw, and each `Tx` runs alone.
pub heartbeat_comes_back :
    (a b c : Heartbeater) (t u now later : ℕ)
    → a.stage t ≡ not_transformed
    → ((a.messages t).content_type == content_type_raw) ≡ false
    → is_heartbeat_due now a ≡ true
    → b.stage u ≡ not_transformed
    → ((b.messages u).content_type == content_type_raw) ≡ false
    → b.events ≡ []
    → b.telling ≡ none
    → length c.events ≤ 2
    → 0 < now
    → now < 2 ^ 64
    → (front : List HeartbeatEvent) × (get_uint64_header heartbeat_header
          ((run_heartbeats a (tx_steps now t)).messages t).headers
        ≡ (now, true))
      × ((run_heartbeats b (
            arrives ((run_heartbeats a (tx_steps now t)).messages t).headers
            ∷ handles
            ∷ tells
            ∷ [])).callbacks
          ≡ b.callbacks ++ (heartbeat_rx now ∷ []))
      × ((rx_heartbeat
            ((run_heartbeats b (
                arrives ((run_heartbeats a (tx_steps now t)).messages t).headers
                ∷ handles
                ∷ tells
                ∷ tx_steps later u)).messages
              u).headers
            c).events
          ≡ front ++ (resp_rx_event now ∷ []))
unfolding run_heartbeats heartbeat_step handle tell
heartbeat_comes_back a b c t u now later fresh_a cooked_a due fresh_b cooked_b idle quiet space
      nonzero small =
    let h = ((run_heartbeats a (tx_steps now t)).messages t).headers in
    let sent : get_uint64_header heartbeat_header h ≡ (now, true) =
      ap (get_uint64_header heartbeat_header) (tx_headers a now t fresh_a cooked_a)
      ∙ heartbeat-put_when (not (a.unresponded_heartbeat == 0)) a.unresponded_heartbeat
          (put_when (is_heartbeat_due now a) heartbeat_header now (a.messages t).headers)
      ∙ rw due (get_uint64-put heartbeat_header now (a.messages t).headers small) in
    let b1 = rx_heartbeat h b in
    let ((rest, queue), same_stage, same_messages, same_callbacks, same_telling) =
      arrives_first b h now sent idle in
    let b2 = taken now rest b1 in
    let took : run_heartbeats b1 (handles ∷ tells ∷ []) ≡ b2 =
      handles_and_tells b1 now rest queue (same_telling ∙ quiet) in
    let answer = ((run_heartbeats b2 (tx_steps later u)).messages u).headers in
    let answered : get_uint64_header heartbeat_response_header answer ≡ (now, true) =
      answers b2 later u now (ap (λ f. f u) same_stage ∙ fresh_b)
        (ap (λ f. (f u).content_type == content_type_raw) same_messages ∙ cooked_b) refl
        (ground (arith, nonzero)) small in
    let (front, back) = arrives_last c answer now answered space in
    (
      front,
      sent,
      ap (λ (r : Heartbeater). r.callbacks) took
          ∙ ap (λ cs. cs ++ (heartbeat_rx now ∷ [])) same_callbacks,
      ap
            (λ (r : Heartbeater).
              (rx_heartbeat ((run_heartbeats r (tx_steps later u)).messages u).headers c).events)
            took
          ∙ back,
    )
