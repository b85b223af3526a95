-- ===== src/Channel/Replies.antt =====
-- Requests and replies: the reply to a message that was written goes to the receiver of its sender,
-- once, and what becomes of the waiter when the write fails.
use channel.Base.{
  ℕ, ◌+◌, ◌%◌, ◌==◌, ◌≡◌, refl, ap, ◌∙◌, arith, true, ◌&&◌, ◌⊎◌, inl, inr, Option, none, some,
  if-keeps, ltb-false, Option-cases, ◌≤◌,
}
use channel.Base.Bytes.{u32_mod}
use channel.Base.Maps.{
  Map, lookup, nat_eq, lookup-insert_self, lookup-delete, Distinct, insert-Distinct,
  delete-Distinct,
}
use channel.Message.{Message, is_reply, reply_for}
use channel.Waiters.{
  Waiter, WaiterMap, waiter_ttl, add_waiter, remove_waiter, drop_found, reap_expired,
}
use channel.Waiters.Laws.{unexpired, lookup-reap_expired}
use channel.Channel.{ChannelImpl}
use channel.Channel.Dispatch.{
  Delivery, to_receiver, deliver_reply, reap_at, is_crowded, rx, Sendable, TxResult, TxAnswers,
  written, requeued, write_failed, timeout_not_set, tx_message, tx_sequence, tx,
}

abbrev pub receiving : Sendable → ℕ → ℕ → Waiter
receiving s now receiver = record { reply_receiver = receiver; ttl_ms = waiter_ttl s.deadline now }

-- After a message with a reply receiver was written, the receiver waits under its sequence until the
-- deadline of the sendable.
pub written_waits :
    (a : TxAnswers) (now : ℕ) (s : Sendable) (seq receiver : ℕ) (w : WaiterMap)
    → s.sequence ≡ some seq
    → s.reply_receiver ≡ some receiver
    → (tx a now s w).1 ≡ written
    → lookup seq (tx a now s w).0.m ≡ some (receiving s now receiver)
unfolding tx tx_sequence tx_message add_waiter
written_waits a now s seq receiver w is_seq is_receiver =
    let new = receiving s now receiver in
    let spec : WaiterMap × TxResult → Type 0 = λ r. r.1 ≡ written → lookup seq r.0.m ≡ some new in
    rw (is_seq, is_receiver)
      (if-keeps spec a.context_done (λ _ e. absurd (cc))
        (λ _.
          if-keeps spec (a.sets_write_timeout && a.timeout_fails) (λ _ e. absurd (cc))
            (λ _.
              if-keeps spec a.write_fails (λ _ e. absurd (ground (arith, e)))
                (λ _ e. lookup-insert_self seq new w.m))))

remove_waiter_found :
    (seq : ℕ) (w : WaiterMap) (found : Waiter)
    → lookup seq w.m ≡ some found
    → (remove_waiter seq w).1 ≡ some found.reply_receiver
unfolding remove_waiter drop_found
remove_waiter_found seq w found h = rw h refl

lookup-remove_waiter : (seq : ℕ) (w : WaiterMap) → lookup seq (remove_waiter seq w).0.m ≡ none
unfolding remove_waiter drop_found
lookup-remove_waiter seq w = elim (Option-cases (lookup seq w.m)) [
  | inl e ↦ rw e e
  | inr (found, e) ↦ rw e (ground (arith, lookup-delete seq seq w.m))
]

abbrev DistinctKeys : WaiterMap × TxResult → Type 0
DistinctKeys r = Distinct r.0.m

add_waiter-Distinct :
    (receiver deadline : Option ℕ) (now seq : ℕ) (w : WaiterMap)
    → Distinct w.m
    → Distinct (add_waiter receiver deadline now seq w).m
unfolding add_waiter
add_waiter-Distinct none deadline now seq w d = d
add_waiter-Distinct (some receiver) deadline now seq w d =
    insert-Distinct seq (record { reply_receiver = receiver; ttl_ms = waiter_ttl deadline now }) w.m
      d

remove_waiter-Distinct :
    (seq : ℕ) (w : WaiterMap) → Distinct w.m → Distinct (remove_waiter seq w).0.m
unfolding remove_waiter drop_found
remove_waiter-Distinct seq w d = elim (Option-cases (lookup seq w.m)) [
  | inl e ↦ rw e d
  | inr (found, e) ↦ rw e (delete-Distinct seq w.m d)
]

tx-Distinct :
    (a : TxAnswers) (now : ℕ) (s : Sendable) (w : WaiterMap)
    → Distinct w.m
    → Distinct (tx a now s w).0.m
unfolding tx tx_sequence tx_message
tx-Distinct a now s w d = elim (Option-cases s.sequence) [
  | inl e ↦ rw e (if-keeps DistinctKeys a.context_done (λ _. d) (λ _. d))
  | inr (seq, e) ↦
      let added = add_waiter s.reply_receiver s.deadline now seq w in
      let kept = add_waiter-Distinct s.reply_receiver s.deadline now seq w d in
      rw e (
        if-keeps DistinctKeys a.context_done (λ _. d)
          (λ _.
            if-keeps DistinctKeys (a.sets_write_timeout && a.timeout_fails) (λ _. kept)
              (λ _.
                if-keeps DistinctKeys a.write_fails (λ _. remove_waiter-Distinct seq added kept)
                  (λ _. kept))))
]

-- A message whose write failed has no waiter afterwards, requeued or not.
pub failed_waits_not :
    (a : TxAnswers) (now : ℕ) (s : Sendable) (seq : ℕ) (w : WaiterMap)
    → s.sequence ≡ some seq
    → ((tx a now s w).1 ≡ write_failed) ⊎ ((tx a now s w).1 ≡ requeued)
    → lookup seq (tx a now s w).0.m ≡ none
unfolding tx tx_sequence tx_message
failed_waits_not a now s seq w is_seq =
    let spec : WaiterMap × TxResult → Type 0 =
      λ r. (r.1 ≡ write_failed) ⊎ (r.1 ≡ requeued) → lookup seq r.0.m ≡ none in
    let added = add_waiter s.reply_receiver s.deadline now seq w in
    rw is_seq (
      if-keeps spec a.context_done (λ _ e. absurd (ground (arith, e)))
        (λ _.
          if-keeps spec (a.sets_write_timeout && a.timeout_fails)
            (λ _ e. absurd (ground (arith, e)))
            (λ _.
              if-keeps spec a.write_fails (λ _ _. lookup-remove_waiter seq added)
                (λ _ e. absurd (ground (arith, e))))))

-- Where the write timeout of a message with a reply receiver cannot be set, its waiter stays, although
-- the sender was told of the error.
pub timeout_leaves_waiter :
    (a : TxAnswers) (now : ℕ) (s : Sendable) (seq receiver : ℕ) (w : WaiterMap)
    → s.sequence ≡ some seq
    → s.reply_receiver ≡ some receiver
    → (tx a now s w).1 ≡ timeout_not_set
    → lookup seq (tx a now s w).0.m ≡ some (receiving s now receiver)
unfolding tx tx_sequence tx_message add_waiter
timeout_leaves_waiter a now s seq receiver w is_seq is_receiver =
    let new = receiving s now receiver in
    let spec : WaiterMap × TxResult → Type 0 =
      λ r. r.1 ≡ timeout_not_set → lookup seq r.0.m ≡ some new in
    rw (is_seq, is_receiver)
      (if-keeps spec a.context_done (λ _ e. absurd (cc))
        (λ _.
          if-keeps spec (a.sets_write_timeout && a.timeout_fails)
            (λ _ _. lookup-insert_self seq new w.m)
            (λ _.
              if-keeps spec a.write_fails (λ _ e. absurd (ground (arith, e)))
                (λ _ e. absurd (cc)))))

lookup-reap_at :
    (now counter k : ℕ) (w : WaiterMap) (found : Waiter)
    → Distinct w.m
    → lookup k w.m ≡ some found
    → now ≤ found.ttl_ms
    → lookup k (reap_at now counter w).m ≡ some found
unfolding reap_at unexpired
lookup-reap_at now counter k w found distinct h live =
    let kept : lookup k (reap_expired now w).m ≡ some found =
      lookup-reap_expired now k w distinct ∙ rw (h, ltb-false found.ttl_ms now live) refl in
    if-keeps (λ (v : WaiterMap). lookup k v.m ≡ some found)
      ((counter % 100 == 0) && is_crowded w.size) (λ _. kept) (λ _. h)

deliver_reply_found :
    (handlers : Map ℕ ℕ) (m : Message) (r : WaiterMap × Option ℕ) (receiver : ℕ)
    → r.1 ≡ some receiver
    → deliver_reply handlers m r ≡ (r.0, to_receiver receiver)
unfolding deliver_reply
deliver_reply_found handlers m (w, none) receiver h = absurd (cc)
deliver_reply_found handlers m (w, some found) receiver h = cc

-- With distinct keys, a reply to a sequence that waits, and has not expired, goes to its receiver and to nobody else, and
-- the sequence no longer waits: a second reply does not reach the receiver.
pub reply_reaches_receiver :
    (now : ℕ) (m : Message) (c : ChannelImpl) (found : Waiter)
    → is_reply m ≡ true
    → Distinct c.waiters.m
    → lookup (reply_for m) c.waiters.m ≡ some found
    → now ≤ found.ttl_ms
    → ((rx now m c).1 ≡ to_receiver found.reply_receiver)
      × (lookup (reply_for m) (rx now m c).0.waiters.m ≡ none)
unfolding rx
reply_reaches_receiver now m c found reply distinct h live =
    let w = reap_at now ((c.reply_counter + 1) % u32_mod) c.waiters in
    let waits =
      lookup-reap_at now ((c.reply_counter + 1) % u32_mod) (reply_for m) c.waiters found distinct h
        live in
    let taken = remove_waiter (reply_for m) w in
    let delivered : deliver_reply c.receive_handlers m taken
        ≡ (taken.0, to_receiver found.reply_receiver) =
      deliver_reply_found c.receive_handlers m taken found.reply_receiver
        (remove_waiter_found (reply_for m) w found waits) in
    rw reply (
      ap (λ (r : WaiterMap × Delivery). r.1) delivered,
      ap (λ (r : WaiterMap × Delivery). lookup (reply_for m) r.0.m) delivered
          ∙ lookup-remove_waiter (reply_for m) w,
    )

-- Request and reply: if a message with a reply receiver was written, a reply to its sequence that
-- comes next, no later than the deadline, goes to that receiver. The waiters have distinct keys.
pub request_gets_reply :
    (a : TxAnswers) (now later : ℕ) (s : Sendable) (seq receiver : ℕ) (c : ChannelImpl)
    (m : Message)
    → s.sequence ≡ some seq
    → s.reply_receiver ≡ some receiver
    → Distinct c.waiters.m
    → (tx a now s c.waiters).1 ≡ written
    → is_reply m ≡ true
    → reply_for m ≡ seq
    → later ≤ waiter_ttl s.deadline now
    → (rx later m (record c { waiters = (tx a now s c.waiters).0 })).1 ≡ to_receiver receiver
request_gets_reply a now later s seq receiver c m is_seq is_receiver distinct sent reply to_seq
      timely =
    let after : ChannelImpl = record c { waiters = (tx a now s c.waiters).0 } in
    (reply_reaches_receiver later m after (receiving s now receiver) reply
      (tx-Distinct a now s c.waiters distinct)
      (rw to_seq (written_waits a now s seq receiver c.waiters is_seq is_receiver sent)) timely).0
