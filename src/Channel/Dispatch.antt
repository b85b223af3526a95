-- ===== src/Channel/Dispatch.antt =====
-- impl.go: `rx`, which finds who a received message is for, and `tx`, which registers the waiter of a
-- message, writes it, and takes the waiter back when the write fails. A message stands here as the
-- transform handlers leave it; Handlers has them, the peek handlers and the error handlers.
use channel.Base.{ℕ, ◌+◌, ◌^◌, ◌%◌, ◌==◌, Bool, ◌&&◌, Option, none, some, if◌then◌else◌, ltb}
use channel.Base.Bytes.{u32_mod}
use channel.Base.Maps.{Map, lookup, nat_eq}
use channel.Message.{Message, minus_one, is_reply, reply_for}
use channel.Waiters.{WaiterMap, reap_expired, remove_waiter, add_waiter}
use channel.Channel.{ChannelImpl}

abbrev pub any_content_type : ℕ
any_content_type = minus_one

-- Who gets a message: a reply receiver, a receive handler, or nobody.
pub data Delivery : Type 0 where
  to_receiver : ℕ → Delivery
  to_handler : ℕ → Delivery
  dropped : Delivery

unfoldable pub any_handler : Option ℕ → Delivery
any_handler none = dropped
any_handler (some h) = to_handler h

unfoldable pub typed_handler : Option ℕ → Option ℕ → Delivery
unfolding any_handler
typed_handler (some h) any = to_handler h
typed_handler none any = any_handler any

-- The end of `rx`, for a message that no waiter took.
unfoldable pub to_receive_handlers : Map ℕ ℕ → ℕ → Delivery
unfolding typed_handler lookup
to_receive_handlers handlers content_type =
    typed_handler (lookup content_type handlers) (lookup any_content_type handlers)

-- An int32 size above 1000: its bit pattern is not that of a negative number.
unfoldable pub is_crowded : ℕ → Bool
is_crowded size = ltb 1000 size && ltb size (2 ^ 31)

-- Every hundredth reply reaps the waiters when there are many.
unfoldable pub reap_at : ℕ → ℕ → WaiterMap → WaiterMap
unfolding is_crowded reap_expired
reap_at now counter w = if (counter % 100 == 0) && is_crowded w.size then reap_expired now w else w

unfoldable pub deliver_reply : Map ℕ ℕ → Message → WaiterMap × Option ℕ → WaiterMap × Delivery
unfolding to_receive_handlers
deliver_reply handlers m (w, some receiver) = (w, to_receiver receiver)
deliver_reply handlers m (w, none) = (w, to_receive_handlers handlers m.content_type)

-- `rx` at the time `now`.
unfoldable pub rx : ℕ → Message → ChannelImpl → ChannelImpl × Delivery
unfolding is_reply reap_at deliver_reply remove_waiter reply_for to_receive_handlers
rx now m c =
    let counter = (c.reply_counter + 1) % u32_mod in
    let r =
      deliver_reply c.receive_handlers m
        (remove_waiter (reply_for m) (reap_at now counter c.waiters)) in
    if is_reply m
    then (record c { waiters = r.0; reply_counter = counter }, r.1)
    else (c, to_receive_handlers c.receive_handlers m.content_type)

-- What a sendable carries: its message's sequence, unless the message is nil; its reply receiver; and
-- its deadline.
pub record Sendable : Type 0 where
  pub sequence : Option ℕ
  pub reply_receiver : Option ℕ
  pub deadline : Option ℕ

-- How `tx` returns, and what the send listener is told.
pub data TxResult : Type 0 where
  expired : TxResult  -- the context is done: `NotifyErr`, no error returned
  tracer : TxResult  -- no message: `NotifyBeforeWrite`
  timeout_not_set : TxResult  -- `NotifyBeforeWrite`, `NotifyErr`
  requeued : TxResult  -- `NotifyBeforeWrite`; the senders took the sendable back
  write_failed : TxResult  -- `NotifyBeforeWrite`, `NotifyErr`, `NotifyAfterWrite`
  written : TxResult  -- `NotifyBeforeWrite`, `NotifyAfterWrite`

-- What the context, the underlay and the senders answer.
pub record TxAnswers : Type 0 where
  pub context_done : Bool
  pub sets_write_timeout : Bool  -- a write timeout above zero is configured
  pub timeout_fails : Bool
  pub write_fails : Bool
  pub requeues : Bool  -- `HandleTxFailed`

unfoldable pub tx_message : TxAnswers → ℕ → Sendable → ℕ → WaiterMap → WaiterMap × TxResult
unfolding add_waiter remove_waiter
tx_message a now s seq w =
    let added = add_waiter s.reply_receiver s.deadline now seq w in
    let taken_back = (remove_waiter seq added).0 in
    if a.sets_write_timeout && a.timeout_fails
    then (added, timeout_not_set)
    else if a.write_fails
    then (taken_back, if a.requeues then requeued else write_failed)
    else (added, written)

unfoldable pub tx_sequence : TxAnswers → ℕ → Sendable → Option ℕ → WaiterMap → WaiterMap × TxResult
unfolding tx_message
tx_sequence a now s none w = (w, tracer)
tx_sequence a now s (some seq) w = tx_message a now s seq w

-- `tx`, on the waiters of the channel.
unfoldable pub tx : TxAnswers → ℕ → Sendable → WaiterMap → WaiterMap × TxResult
unfolding tx_sequence
tx a now s w = if a.context_done then (w, expired) else tx_sequence a now s s.sequence w
