-- ===== src/Envelope/Contexts/Deadlines.antt =====
-- When the contexts of envelopes end, and what that does to the writing of their messages.
use channel.Base.{
  ℕ, ◌+◌, ◌≤◌, ◌≡◌, ◌≢◌, ◌⊎◌, refl, ap, ◌∙◌, subst, arith, Bool, true, false, ◌||◌, some, leb, inl,
  inr,
}
use channel.Senders.{SendResult, queued}
use channel.Waiters.{WaiterMap}
use channel.Channel.Dispatch.{
  Sendable, TxAnswers, TxResult, expired, written, tx, tx_sequence, tx_message,
}
use channel.Envelope.{
  WaitResult, WaitCase, WaitView, EnvelopeKind, send_wait, reply_wait, queue_wait, wait_timeout,
  still_waiting, sent_ok, failed_with, send_refused, wait_closed, got_reply, wait_for_wire,
  wait_for_reply,
}
use channel.Envelope.Contexts.{
  Context, background, given, error_context, with_cancel, with_deadline, Contexts, is_done,
  EnvelopeImpl, Envelope, envelope_impl, message_with_timeout, impl_with_timeout, wait_for_queue,
  with_timeout, cancel, deferred, send_and_wait_for_wire, send_for_reply, send_and_wait_for_queue,
  write_context, tx_envelope, at_context,
}

-- Time goes on, and what was cancelled or has ended stays so.
pub record Later (w v : Contexts) : Type 0 where
  pub no_earlier : w.now ≤ v.now
  pub cancelled_stays : (n : ℕ) → w.is_cancelled n ≡ true → v.is_cancelled n ≡ true
  pub ended_stays : (k : ℕ) → w.given_ended k ≡ true → v.given_ended k ≡ true

or_mono :
    (a b c d : Bool)
    → (a ≡ true → c ≡ true)
    → (b ≡ true → d ≡ true)
    → (a || b) ≡ true
    → (c || d) ≡ true
or_mono true b c d f g h = rw (f refl) refl
or_mono false true c true f g h = ground arith
or_mono false true c false f g h = absurd (cc (g refl))
or_mono false false c d f g h = absurd (cc)

is_done_stays : (w v : Contexts) (c : Context) → Later w v → is_done w c ≡ true → is_done v c ≡ true
unfolding is_done
is_done_stays w v background later h = absurd (cc)
is_done_stays w v (given k) later h = later.ended_stays k h
is_done_stays w v (error_context e) later h = refl
is_done_stays w v (with_cancel n c) later h =
    or_mono (w.is_cancelled n) (is_done w c) (v.is_cancelled n) (is_done v c)
      (later.cancelled_stays n) (is_done_stays w v c later) h
is_done_stays w v (with_deadline n d c) later h =
    or_mono (w.is_cancelled n) (leb d w.now || is_done w c) (v.is_cancelled n)
      (leb d v.now || is_done v c) (later.cancelled_stays n)
      (or_mono (leb d w.now) (is_done w c) (leb d v.now) (is_done v c)
        (λ (passed : leb d w.now ≡ true). ground (arith, passed, later.no_earlier))
        (is_done_stays w v c later))
      h

-- A context that an envelope has cancelled by its own name is done from then on.
abbrev pub IsOwn : EnvelopeImpl → Type 0
IsOwn e =
    (n : ℕ) × (c : Context) × (e.cancel_f ≡ some n)
    × ((e.context ≡ with_cancel n c) ⊎ ((d : ℕ) × (e.context ≡ with_deadline n d c)))

own_cancelled : (e : EnvelopeImpl) (w : Contexts) → IsOwn e → is_done (cancel e w) e.context ≡ true
unfolding is_done cancel
own_cancelled e w (n, c, f, inl made) = rw (f, made) (ground arith)
own_cancelled e w (n, c, f, inr (d, made)) = rw (f, made) (ground arith)

-- Where the write context is done, `tx` writes nothing and leaves the waiters.
done-expired :
    (kind : EnvelopeKind) (e : EnvelopeImpl) (w : Contexts) (a : TxAnswers) (s : Sendable)
    (ws : WaiterMap)
    → is_done w (write_context kind e) ≡ true
    → tx_envelope kind e w a s ws ≡ (ws, expired)
unfolding tx_envelope tx
done-expired kind e w a s ws done = rw done refl

returned-cancelled :
    (e : EnvelopeImpl) (w : Contexts) (r : WaitResult)
    → r ≢ still_waiting
    → (deferred e w r).1 ≡ cancel e w
unfolding deferred
returned-cancelled e w sent_ok h = refl
returned-cancelled e w (failed_with x) h = refl
returned-cancelled e w (send_refused x) h = refl
returned-cancelled e w wait_closed h = refl
returned-cancelled e w wait_timeout h = refl
returned-cancelled e w (got_reply x) h = refl
returned-cancelled e w still_waiting h = absurd (h refl)

deferred-result : (e : EnvelopeImpl) (w : Contexts) (r : WaitResult) → (deferred e w r).0 ≡ r
unfolding deferred
deferred-result e w sent_ok = refl
deferred-result e w (failed_with x) = refl
deferred-result e w (send_refused x) = refl
deferred-result e w wait_closed = refl
deferred-result e w wait_timeout = refl
deferred-result e w (got_reply x) = refl
deferred-result e w still_waiting = refl

-- An envelope with a timeout of its own cancels what it made.
with_timeout-IsOwn :
    (duration : ℕ) (env : Envelope) (e : EnvelopeImpl) (w w1 : Contexts)
    → with_timeout duration env w ≡ (envelope_impl e, w1)
    → IsOwn e
unfolding with_timeout message_with_timeout impl_with_timeout
with_timeout-IsOwn duration (Envelope.message m) e w w1 made =
    let x : EnvelopeImpl = record {
      msg = m;
      context = with_deadline w.made (w.now + duration) background;
      cancel_f = some w.made;
    } in
    let same : x ≡ e = cc in
    subst IsOwn same (w.made, background, refl, inr (w.now + duration, refl))
with_timeout-IsOwn duration (envelope_impl x) e w w1 made =
    let y : EnvelopeImpl = record x {
      context = with_deadline w.made (w.now + duration) x.context;
      cancel_f = some w.made;
    } in
    let same : y ≡ e = cc in
    subst IsOwn same (w.made, x.context, refl, inr (w.now + duration, refl))
with_timeout-IsOwn duration (Envelope.error_envelope x) e w w1 made = absurd (cc)

-- Once queued, a message of `SendAndWaitForQueue` on an envelope made by `WithTimeout` is written by a
-- `tx` that meets no error, however much later that is, although the envelope's own context is cancelled
-- when the wait returns: were it the message of a wait for the wire, that `tx` would not write it.
pub queued_is_written :
    (duration : ℕ) (env : Envelope) (e : EnvelopeImpl) (w0 w1 w v : Contexts) (a : TxAnswers)
    (s : Sendable) (ws : WaiterMap) (seq : ℕ)
    → with_timeout duration env w0 ≡ (envelope_impl e, w1)
    → Later (send_and_wait_for_queue queued e w).1 v
    → s.sequence ≡ some seq
    → a.timeout_fails ≡ false
    → a.write_fails ≡ false
    → ((tx_envelope queue_wait e v a s ws).1 ≡ written)
      × ((tx_envelope send_wait e v a s ws).1 ≡ expired)
unfolding tx_envelope tx tx_sequence tx_message send_and_wait_for_queue wait_for_queue write_context
    is_done
queued_is_written duration env e w0 w1 w v a s ws seq made later numbered sets writes =
    let own = with_timeout-IsOwn duration env e w0 w1 made in
    (
      rw (numbered, writes, sets) (ground arith),
      ap (λ (r : WaiterMap × TxResult). r.1)
          (done-expired send_wait e v a s ws
            (is_done_stays (cancel e w) v e.context later (own_cancelled e w own))),
    )

-- A wait that ends.
abbrev pub IsWait :
    SendResult → WaitCase → WaitView → EnvelopeImpl → Contexts → WaitResult × Contexts → Type 0
IsWait sent case v e w r =
    (r ≡ send_and_wait_for_wire sent case v e w) ⊎ (r ≡ send_for_reply sent case v e w)

wait-cancelled :
    (sent : SendResult) (case : WaitCase) (v : WaitView) (e : EnvelopeImpl) (w : Contexts)
    (r : WaitResult × Contexts)
    → IsWait sent case v e w r
    → r.0 ≢ still_waiting
    → r.1 ≡ cancel e w
unfolding send_and_wait_for_wire send_for_reply
wait-cancelled sent case v e w r (inl on_wire) ends =
    let result = wait_for_wire sent case (at_context e w v) in
    let same = deferred-result e w result in
    rw on_wire (returned-cancelled e w result (λ h. ends (rw on_wire (same ∙ h))))
wait-cancelled sent case v e w r (inr on_reply) ends =
    let result = wait_for_reply sent case (at_context e w v) in
    let same = deferred-result e w result in
    rw on_reply (returned-cancelled e w result (λ h. ends (rw on_reply (same ∙ h))))

-- When a wait for the wire or for a reply on an envelope made by `WithTimeout` has returned, with
-- whatever result, then a `tx` that comes to the message later does not write it: it reports that it
-- expired and registers no waiter.
pub not_written_after_wait :
    (duration : ℕ) (env : Envelope) (e : EnvelopeImpl) (w0 w1 w v : Contexts) (sent : SendResult)
    (case : WaitCase) (view : WaitView) (r : WaitResult × Contexts) (a : TxAnswers) (s : Sendable)
    (ws : WaiterMap)
    → with_timeout duration env w0 ≡ (envelope_impl e, w1)
    → IsWait sent case view e w r
    → r.0 ≢ still_waiting
    → Later r.1 v
    → (tx_envelope send_wait e v a s ws ≡ (ws, expired))
      × (tx_envelope reply_wait e v a s ws ≡ (ws, expired))
unfolding write_context
not_written_after_wait duration env e w0 w1 w v sent case view r a s ws made waits ends later =
    let own = with_timeout-IsOwn duration env e w0 w1 made in
    let after : Later (cancel e w) v =
      subst (λ x. Later x v) (wait-cancelled sent case view e w r waits ends) later in
    let done = is_done_stays (cancel e w) v e.context after (own_cancelled e w own) in
    (done-expired send_wait e v a s ws done, done-expired reply_wait e v a s ws done)
