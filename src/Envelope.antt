-- ===== src/Envelope.antt =====
-- envelope.go: the envelopes that wait, for the wire, for the queue or for a reply, and the error
-- envelope. The errors are named by numbers. The `errC` of a waiting envelope is a Go channel with one
-- place: a send to it when it is full blocks for ever, one to it when it is closed panics, and so does
-- closing it twice.
pub mod Contexts
pub mod Outcomes
pub mod Typed
use channel.Base.{ℕ, List, [], ◌∷◌, ◌++◌, Bool, true, false, Option, none, some, if◌then◌else◌}
use channel.Channel.Dispatch.{
  TxResult, expired, tracer, timeout_not_set, requeued, write_failed, written,
}
use channel.Senders.{SendResult, queued, not_queued, timeout_error, closed_error, context_error}

-- What `tx` calls of a send listener, after `NotifyBeforeWrite`, in order.
pub data Notification : Type 0 where
  notify_err : ℕ → Notification
  notify_after_write : Notification

-- What `tx` tells the send listener, with the error of the context, of the deadline or of the write.
unfoldable pub notifications : TxResult → ℕ → List Notification
notifications expired e = notify_err e ∷ []
notifications tracer e = []
notifications timeout_not_set e = notify_err e ∷ []
notifications requeued e = []
notifications write_failed e = notify_err e ∷ notify_after_write ∷ []
notifications written e = notify_after_write ∷ []

pub record ErrChannel : Type 0 where
  pub value : Option ℕ
  pub is_closed : Bool
  pub is_stuck : Bool  -- a sender blocks for ever
  pub has_panicked : Bool

unfoldable pub new_err_channel : ErrChannel
new_err_channel = record { value = none; is_closed = false; is_stuck = false; has_panicked = false }

unfoldable pub put_err : ℕ → Option ℕ → ErrChannel → ErrChannel
put_err e none c = record c { value = some e }
put_err e (some old) c = record c { is_stuck = true }

-- `self.errC <- err`
unfoldable pub send_err : ℕ → ErrChannel → ErrChannel
unfolding put_err
send_err e c = if c.is_closed then record c { has_panicked = true } else put_err e c.value c

-- `close(self.errC)`
unfoldable pub close_err : ErrChannel → ErrChannel
close_err c =
    if c.is_closed then record c { has_panicked = true } else record c { is_closed = true }

-- The listener of a `sendWaitEnvelope`.
unfoldable pub wire_listener : Notification → ErrChannel → ErrChannel
unfolding send_err close_err
wire_listener (notify_err e) c = send_err e c
wire_listener notify_after_write c = close_err c

-- The listener of a `replyEnvelope`.
unfoldable pub reply_listener : Notification → ErrChannel → ErrChannel
unfolding send_err
reply_listener (notify_err e) c = send_err e c
reply_listener notify_after_write c = c

unfoldable pub notify_all :
    (Notification → ErrChannel → ErrChannel) → List Notification → ErrChannel → ErrChannel
notify_all listener [] c = c
notify_all listener (n ∷ ns) c = notify_all listener ns (listener n c)

-- The listener's view of a sendable that `tx` handles again and again: each time it is requeued, until
-- it is not.
unfoldable pub transmissions :
    (Notification → ErrChannel → ErrChannel) → List (TxResult × ℕ) → ErrChannel → ErrChannel
unfolding notify_all notifications
transmissions listener [] c = c
transmissions listener ((r, e) ∷ rs) c =
    transmissions listener rs (notify_all listener (notifications r e) c)

-- What `err := <-self.errC` gives: nothing yet, nil, or an error.
pub data Received : Type 0 where
  nothing_yet nil : Received
  error : ℕ → Received

unfoldable pub receive : Option ℕ → Bool → Received
receive (some e) closed = error e
receive none true = nil
receive none false = nothing_yet

-- How a wait ends.
pub data WaitResult : Type 0 where
  sent_ok : WaitResult
  failed_with : ℕ → WaitResult
  send_refused : SendResult → WaitResult
  wait_closed wait_timeout : WaitResult
  got_reply : ℕ → WaitResult
  still_waiting : WaitResult

-- The cases of the select; the schedule picks one that is ready.
pub data WaitCase : Type 0 where
  case_closed case_err case_done case_reply : WaitCase

pub record WaitView : Type 0 where
  pub sender_closed : Bool
  pub err_channel : ErrChannel
  pub context_done : Bool
  pub reply : Option ℕ

unfoldable pub received_result : Received → WaitResult
received_result nothing_yet = still_waiting
received_result nil = sent_ok
received_result (error e) = failed_with e

unfoldable pub reply_result : Option ℕ → WaitResult
reply_result none = still_waiting
reply_result (some m) = got_reply m

-- The select of `WaitForWire`.
unfoldable pub select_wire : WaitCase → WaitView → WaitResult
unfolding received_result receive
select_wire case_closed v = if v.sender_closed then wait_closed else still_waiting
select_wire case_err v = received_result (receive v.err_channel.value v.err_channel.is_closed)
select_wire case_done v = if v.context_done then wait_timeout else still_waiting
select_wire case_reply v = still_waiting

-- The select of `WaitForReply`.
unfoldable pub select_reply : WaitCase → WaitView → WaitResult
unfolding received_result receive reply_result
select_reply case_closed v = if v.sender_closed then wait_closed else still_waiting
select_reply case_err v = received_result (receive v.err_channel.value v.err_channel.is_closed)
select_reply case_done v = if v.context_done then wait_timeout else still_waiting
select_reply case_reply v = reply_result v.reply

-- `WaitForWire`, from what `Send` returned.
unfoldable pub wait_for_wire : SendResult → WaitCase → WaitView → WaitResult
unfolding select_wire
wait_for_wire queued case v = select_wire case v
wait_for_wire refusal case v = send_refused refusal

-- `WaitForReply`
unfoldable pub wait_for_reply : SendResult → WaitCase → WaitView → WaitResult
unfolding select_reply
wait_for_reply queued case v = select_reply case v
wait_for_reply refusal case v = send_refused refusal

-- `AcceptReply`: a reply for which there is no room is dropped.
unfoldable pub accept_reply : ℕ → Option ℕ → Option ℕ
accept_reply m none = some m
accept_reply m (some old) = some old

-- Which context `tx` looks at: that of a `queueWaitEnvelope` never ends.
pub data EnvelopeKind : Type 0 where
  plain send_wait reply_wait queue_wait : EnvelopeKind

unfoldable pub write_context_done : EnvelopeKind → Bool → Bool
write_context_done queue_wait context_done = false
write_context_done _ context_done = context_done

-- What the methods of an `errorEnvelope` return: `Send`, `SendAndWaitForWire`, `SendForReply` and
-- `SendAndWaitForQueue` all report the error and send nothing.
unfoldable pub send_error_envelope : ℕ → WaitResult
send_error_envelope e = failed_with e
