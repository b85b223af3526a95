-- ===== src/Envelope/Contexts.antt =====
-- envelope.go and message.go: the contexts that envelopes make, when they end, and what the waiting
-- sends and `tx` do with them. A context that a caller made is named by a number, as is every context
-- made here; a duration that is not positive is 0. The three implementations of Envelope are a Message,
-- an `envelopeImpl` and an `errorEnvelope`.
pub mod Deadlines
pub mod Older
use channel.Base.{ℕ, ◌+◌, ◌==◌, Bool, true, false, ◌||◌, Option, none, some, if◌then◌else◌, leb}
use channel.Message.{Message, reply_to}
use channel.Senders.{SendResult, update}
use channel.Waiters.{WaiterMap}
use channel.Channel.Dispatch.{Sendable, TxAnswers, TxResult, tx}
use channel.Envelope.{
  WaitResult, WaitCase, WaitView, EnvelopeKind, plain, send_wait, reply_wait, queue_wait,
  still_waiting, send_refused, wait_for_wire, wait_for_reply, send_error_envelope,
}

pub data Context : Type 0 where
  background : Context
  given : ℕ → Context  -- a caller's
  error_context : ℕ → Context
  with_cancel : ℕ → Context → Context
  with_deadline : ℕ → ℕ → Context → Context

-- The time, how many contexts were made, which were cancelled, and which of the callers' have ended.
pub record Contexts : Type 0 where
  pub now : ℕ
  pub made : ℕ
  pub is_cancelled : ℕ → Bool
  pub given_ended : ℕ → Bool

-- `Err() != nil`, which is when `Done` is closed.
unfoldable pub is_done : Contexts → Context → Bool
is_done w background = false
is_done w (given k) = w.given_ended k
is_done w (error_context e) = true
is_done w (with_cancel n parent) = let rest = is_done w parent in w.is_cancelled n || rest
is_done w (with_deadline n deadline parent) =
    let rest = is_done w parent in w.is_cancelled n || (leb deadline w.now || rest)

pub record EnvelopeImpl : Type 0 where
  pub msg : Message
  pub context : Context
  pub cancel_f : Option ℕ  -- the context that it cancels

pub data Envelope : Type 0 where
  message : Message → Envelope
  envelope_impl : EnvelopeImpl → Envelope
  error_envelope : ℕ → Envelope

unfoldable pub one_made : Contexts → Contexts
one_made w = record w { made = w.made + 1 }

-- `context.WithTimeout`
abbrev deadline_of : ℕ → Context → Contexts → Context
deadline_of duration parent w = with_deadline w.made (w.now + duration) parent

-- `Message.WithTimeout`
unfoldable pub message_with_timeout : ℕ → Message → Contexts → Envelope × Contexts
unfolding one_made
message_with_timeout duration m w = (
  envelope_impl
      (record { msg = m; context = deadline_of duration background w; cancel_f = some w.made }),
  one_made w,
)

-- `envelopeImpl.WithTimeout`: the context is never nil here, and the `cancelF` it had is forgotten.
unfoldable pub impl_with_timeout : ℕ → EnvelopeImpl → Contexts → Envelope × Contexts
unfolding one_made
impl_with_timeout duration e w = (
  envelope_impl (record e { context = deadline_of duration e.context w; cancel_f = some w.made }),
  one_made w,
)

-- `WithTimeout`
unfoldable pub with_timeout : ℕ → Envelope → Contexts → Envelope × Contexts
unfolding message_with_timeout impl_with_timeout
with_timeout duration (message m) w = message_with_timeout duration m w
with_timeout duration (envelope_impl e) w = impl_with_timeout duration e w
with_timeout duration (error_envelope e) w = (error_envelope e, w)

-- `Message.WithContext`, which takes the context as it is.
unfoldable pub message_with_context : Context → Message → Envelope
message_with_context c m = envelope_impl (record { msg = m; context = c; cancel_f = none })

-- `envelopeImpl.WithContext`
unfoldable pub impl_with_context : Context → EnvelopeImpl → Contexts → Envelope × Contexts
unfolding one_made
impl_with_context c e w = (
  envelope_impl (record e { context = with_cancel w.made c; cancel_f = some w.made }),
  one_made w,
)

-- `WithContext`
unfoldable pub with_context : Context → Envelope → Contexts → Envelope × Contexts
unfolding message_with_context impl_with_context
with_context c (message m) w = (message_with_context c m, w)
with_context c (envelope_impl e) w = impl_with_context c e w
with_context c (error_envelope e) w = (error_envelope e, w)

-- `ReplyTo` of each.
unfoldable pub envelope_reply_to : Message → Envelope → Envelope
unfolding reply_to
envelope_reply_to m (message own) = message (reply_to own m)
envelope_reply_to m (envelope_impl e) = envelope_impl (record e { msg = reply_to e.msg m })
envelope_reply_to m (error_envelope e) = error_envelope e

-- `Context` of the sendable that `ToSendable` gives.
unfoldable pub context_of : Envelope → Context
context_of (message m) = background
context_of (envelope_impl e) = e.context
context_of (error_envelope e) = error_context e

abbrev cancel_one : Option ℕ → Contexts → Contexts
cancel_one none w = w
cancel_one (some n) w = record w { is_cancelled = update w.is_cancelled n true }

-- `CancelF`
unfoldable pub cancel : EnvelopeImpl → Contexts → Contexts
cancel e w = cancel_one e.cancel_f w

-- `NotifyAfterWrite`, as to contexts: only the listener of a plain or queue-waiting send cancels.
unfoldable pub notify_after_write_contexts : EnvelopeKind → EnvelopeImpl → Contexts → Contexts
unfolding cancel
notify_after_write_contexts plain e w = cancel e w
notify_after_write_contexts queue_wait e w = cancel e w
notify_after_write_contexts send_wait e w = w
notify_after_write_contexts reply_wait e w = w

-- `defer self.CancelF()`: a wait that has returned has cancelled.
unfoldable pub deferred : EnvelopeImpl → Contexts → WaitResult → WaitResult × Contexts
unfolding cancel
deferred e w still_waiting = (still_waiting, w)
deferred e w result = (result, cancel e w)

-- The wait's select sees whether the envelope's context is done.
abbrev pub at_context : EnvelopeImpl → Contexts → WaitView → WaitView
at_context e w v = record v { context_done = is_done w e.context }

-- `SendAndWaitForWire`, from what `Send` returned to the case that the select picks.
unfoldable pub send_and_wait_for_wire :
    SendResult → WaitCase → WaitView → EnvelopeImpl → Contexts → WaitResult × Contexts
unfolding wait_for_wire deferred is_done
send_and_wait_for_wire sent case v e w = deferred e w (wait_for_wire sent case (at_context e w v))

-- `SendForReply`
unfoldable pub send_for_reply :
    SendResult → WaitCase → WaitView → EnvelopeImpl → Contexts → WaitResult × Contexts
unfolding wait_for_reply deferred is_done
send_for_reply sent case v e w = deferred e w (wait_for_reply sent case (at_context e w v))

-- `WaitForQueue`, which returns what `Send` does.
unfoldable pub wait_for_queue : SendResult → EnvelopeImpl → Contexts → SendResult × Contexts
unfolding cancel
wait_for_queue sent e w = (sent, cancel e w)

-- `SendAndWaitForQueue`
unfoldable pub send_and_wait_for_queue :
    SendResult → EnvelopeImpl → Contexts → SendResult × Contexts
unfolding wait_for_queue
send_and_wait_for_queue sent e w = wait_for_queue sent e w

-- `writeContext` of the sendable: a `queueWaitEnvelope` gives a context that never ends.
unfoldable pub write_context : EnvelopeKind → EnvelopeImpl → Context
write_context queue_wait e = background
write_context _ e = e.context

-- `tx`, which sees whether that context is done.
unfoldable pub tx_envelope :
    EnvelopeKind → EnvelopeImpl → Contexts → TxAnswers → Sendable → WaiterMap → WaiterMap × TxResult
unfolding write_context is_done tx
tx_envelope kind e w a s ws =
    tx (record a { context_done = is_done w (write_context kind e) }) w.now s ws
