-- ===== src/Heartbeater/Transform.antt =====
-- What `Tx` does to a message when nothing happens in between.
use channel.Base.{
  ℕ, ◌==◌, ◌≡◌, refl, ap, ◌∙◌, Bool, false, not, if◌then◌else◌, if-keeps, ltb, length, Bool-cases,
  inl, inr, ==_iff,
}
use channel.Base.Maps.{nat_eq}
use channel.Message.{Headers, Message}
use channel.Message.Headers.{put_uint64_header}
use channel.Message.Keys.{heartbeat_header, heartbeat_response_header, content_type_raw}
use channel.Senders.{update}
use channel.Heartbeater.{
  HeartbeatEvent, tx_event, resp_tx_event, TxStage, not_transformed, is_due, is_stamped, has_loaded,
  transformed, Heartbeater, event_capacity, queue_event, is_heartbeat_due, move, put_header,
  compare, stamp, load_unresponded, respond, advance, transforms, heartbeat_step, run_heartbeats,
  tx_steps,
}

update_self : {A : Type 0} (f : ℕ → A) (k : ℕ) (v : A) → update f k v k ≡ v
update_self f k v = rw ((==_iff k k).1 refl) refl

-- The step of a goroutine is what its stage says.
pub step_of :
    (s : Heartbeater) (now t : ℕ) (p : TxStage)
    → s.stage t ≡ p
    → heartbeat_step s (transforms now t) ≡ advance p now t s
unfolding heartbeat_step
step_of s now t p e = ap (λ q. advance q now t s) e

-- An event changes the queue only.
pub queue_event_keeps :
    (e : HeartbeatEvent) (s : Heartbeater)
    → ((queue_event e s).stage ≡ s.stage)
      × ((queue_event e s).messages ≡ s.messages)
      × ((queue_event e s).unresponded_heartbeat ≡ s.unresponded_heartbeat)
      × ((queue_event e s).callbacks ≡ s.callbacks)
unfolding queue_event
queue_event_keeps e s =
    if-keeps
      (λ (r : Heartbeater).
        (r.stage ≡ s.stage)
        × (r.messages ≡ s.messages)
        × (r.unresponded_heartbeat ≡ s.unresponded_heartbeat)
        × (r.callbacks ≡ s.callbacks))
      (ltb (length s.events) event_capacity) (λ _. (refl, refl, refl, refl))
      (λ _. (refl, refl, refl, refl))

stamp_lem :
    (n t : ℕ) (s : Heartbeater)
    → ((stamp n t s).stage t ≡ is_stamped n)
      × (((stamp n t s).messages t).headers
          ≡ put_uint64_header heartbeat_header n (s.messages t).headers)
      × ((stamp n t s).unresponded_heartbeat ≡ s.unresponded_heartbeat)
unfolding stamp put_header
stamp_lem n t s =
    let m = s.messages t in
    let stamped = put_header t heartbeat_header n s in
    let kept =
      queue_event_keeps (tx_event n)
        (record (move t (is_stamped n) stamped) { last_heartbeat_tx = n }) in
    (
      ap (λ f. f t) kept.0 ∙ update_self s.stage t (is_stamped n),
      ap (λ f. (f t).headers) kept.1
          ∙ ap (λ (r : Message). r.headers)
              (update_self s.messages t
                (record m { headers = put_uint64_header heartbeat_header n m.headers })),
      kept.2,
    )

pub respond_lem :
    (n v t : ℕ) (s : Heartbeater)
    → ((respond n v t s).stage t ≡ transformed)
      × (((respond n v t s).messages t).headers
          ≡ put_uint64_header heartbeat_response_header v (s.messages t).headers)
      × ((respond n v t s).unresponded_heartbeat ≡ 0)
      × ((respond n v t s).callbacks ≡ s.callbacks)
unfolding respond put_header
respond_lem n v t s =
    let m = s.messages t in
    let answered = put_header t heartbeat_response_header v s in
    let kept =
      queue_event_keeps (resp_tx_event n)
        (record (move t transformed answered) { unresponded_heartbeat = 0 }) in
    (
      ap (λ f. f t) kept.0 ∙ update_self s.stage t transformed,
      ap (λ f. (f t).headers) kept.1
          ∙ ap (λ (r : Message). r.headers)
              (update_self s.messages t
                (record m { headers = put_uint64_header heartbeat_response_header v m.headers })),
      kept.2,
      kept.3,
    )

-- The header of a stamp or of a response.
abbrev pub put_when : Bool → ℕ → ℕ → Headers → Headers
put_when b key value h = if b then put_uint64_header key value h else h

-- The second half of `Tx`.
response_part :
    (s : Heartbeater) (now t n : ℕ)
    → s.stage t ≡ is_stamped n
    → ((heartbeat_step (heartbeat_step s (transforms now t)) (transforms now t)).stage t
        ≡ transformed)
      × (((heartbeat_step (heartbeat_step s (transforms now t)) (transforms now t)).messages
            t).headers
          ≡ put_when
              (not (s.unresponded_heartbeat == 0))
              heartbeat_response_header
              s.unresponded_heartbeat
              (s.messages t).headers)
unfolding advance load_unresponded
response_part s now t n e = elim (Bool-cases (s.unresponded_heartbeat == 0)) [
  | inl none_pending ↦
      rw
        (
          step_of s now t (is_stamped n) e,
          none_pending,
          step_of (move t transformed s) now t transformed (update_self s.stage t transformed),
        )
        (update_self s.stage t transformed, refl)
  | inr pending ↦
      let v = s.unresponded_heartbeat in
      rw
        (
          step_of s now t (is_stamped n) e,
          pending,
          step_of (move t (has_loaded n v) s) now t (has_loaded n v)
              (update_self s.stage t (has_loaded n v)),
        )
        (let answered = respond_lem n v t (move t (has_loaded n v) s) in (answered.0, answered.1))
]

-- `Tx` of a message that is not raw, when nothing happens in between, adds a heartbeat if one is due
-- and a response if a heartbeat is not responded to.
pub tx_headers :
    (s : Heartbeater) (now t : ℕ)
    → s.stage t ≡ not_transformed
    → ((s.messages t).content_type == content_type_raw) ≡ false
    → ((run_heartbeats s (tx_steps now t)).messages t).headers
      ≡ put_when
          (not (s.unresponded_heartbeat == 0))
          heartbeat_response_header
          s.unresponded_heartbeat
          (put_when (is_heartbeat_due now s) heartbeat_header now (s.messages t).headers)
unfolding run_heartbeats tx_steps advance compare
tx_headers s now t e cooked = elim (Bool-cases (is_heartbeat_due now s)) [
  | inl due ↦
      let s1 = move t (is_due now) s in
      let s2 = stamp now t s1 in
      let stamped = stamp_lem now t s1 in
      rw
        (
          step_of s now t not_transformed e,
          cooked,
          due,
          step_of s1 now t (is_due now) (update_self s.stage t (is_due now)),
        )
        ((response_part s2 now t now stamped.0).1 ∙ rw (stamped.1, stamped.2) refl)
  | inr early ↦
      let s1 = move t (is_stamped now) s in
      let rest = response_part s1 now t now (update_self s.stage t (is_stamped now)) in
      let s3 = heartbeat_step (heartbeat_step s1 (transforms now t)) (transforms now t) in
      rw (step_of s now t not_transformed e, cooked, early, step_of s3 now t transformed rest.0)
        rest.1
]
