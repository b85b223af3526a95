-- ===== src/Tests/Envelope.antt =====
-- envelope.go on a message that is requeued once and then fails to be written, and on one with a timeout.
use channel.Base.{◌≡◌, refl, arith, [], ◌∷◌, true, false, none, some, inl}
use channel.Message.{Message}
use channel.Waiters.{WaiterMap}
use channel.Channel.Dispatch.{requeued, write_failed, expired, written, Sendable, TxAnswers}
use channel.Senders.{queued, update}
use channel.Envelope.{
  new_err_channel, wire_listener, transmissions, failed_with, sent_ok, case_err, WaitView,
  wait_for_wire, select_wire, received_result, receive, send_wait, reply_wait, queue_wait,
}
use channel.Envelope.Outcomes.{wire_wait_outcome}
use channel.Envelope.Contexts.{
  background, with_deadline, Contexts, EnvelopeImpl, Envelope, with_timeout, one_made, deferred,
  message_with_timeout, impl_with_timeout, wait_for_queue, cancel, send_and_wait_for_wire,
  send_and_wait_for_queue, tx_envelope,
}
use channel.Envelope.Contexts.Deadlines.{not_written_after_wait, queued_is_written}

abbrev view : WaitView
view = record {
  sender_closed = false;
  err_channel =
      transmissions wire_listener ((requeued, 0) ∷ (write_failed, 4) ∷ []) new_err_channel;
  context_done = true;
  reply = none;
}

wire_wait_outcome_example :
    (wait_for_wire queued case_err view ≡ failed_with 4)
    × (view.err_channel.has_panicked ≡ false)
    × (view.err_channel.is_stuck ≡ false)
wire_wait_outcome_example =
    wire_wait_outcome ((requeued, 0) ∷ []) write_failed 4 view (refl, tt) refl

-- A message with a timeout of 5, sent at the time 10 on an empty channel.
abbrev ping : Message
ping = record { content_type = 1; sequence = 7; reply_for = none; headers = []; body = [] }

abbrev at_ten : Contexts
at_ten = record { now = 10; made = 0; is_cancelled = λ _. false; given_ended = λ _. false }

abbrev timed : EnvelopeImpl
timed = record { msg = ping; context = with_deadline 0 15 background; cancel_f = some 0 }

abbrev after_timed : Contexts
after_timed = record at_ten { made = 1 }

abbrev at_twelve : Contexts
at_twelve = record after_timed { now = 12; is_cancelled = update (λ _. false) 0 true }

abbrev no_trouble : TxAnswers
no_trouble = record {
  context_done = false;
  sets_write_timeout = false;
  timeout_fails = false;
  write_fails = false;
  requeues = false;
}

abbrev numbered : Sendable
numbered = record { sequence = some 7; reply_receiver = none; deadline = none }

abbrev no_waiters : WaiterMap
no_waiters = record { m = []; size = 0 }

abbrev wire_written : WaitView
wire_written = record {
  sender_closed = false;
  err_channel = record new_err_channel { is_closed = true };
  context_done = false;
  reply = none;
}

not_written_after_wait_example :
    (tx_envelope send_wait timed at_twelve no_trouble numbered no_waiters ≡ (no_waiters, expired))
    × (tx_envelope reply_wait timed at_twelve no_trouble numbered no_waiters
        ≡ (no_waiters, expired))
unfolding new_err_channel with_timeout message_with_timeout impl_with_timeout one_made
    send_and_wait_for_wire wait_for_wire select_wire received_result receive deferred cancel
not_written_after_wait_example =
    not_written_after_wait 5 (Envelope.message ping) timed at_ten after_timed after_timed at_twelve
      queued case_err wire_written
      (sent_ok, record after_timed { is_cancelled = update (λ _. false) 0 true }) no_trouble
      numbered no_waiters refl (inl refl) (λ e. cc)
      (record { no_earlier = omega arith; cancelled_stays = λ n h. h; ended_stays = λ k h. h })

queued_is_written_example :
    ((tx_envelope queue_wait timed at_twelve no_trouble numbered no_waiters).1 ≡ written)
    × ((tx_envelope send_wait timed at_twelve no_trouble numbered no_waiters).1 ≡ expired)
unfolding with_timeout message_with_timeout impl_with_timeout one_made send_and_wait_for_queue
    wait_for_queue cancel
queued_is_written_example =
    queued_is_written 5 (Envelope.message ping) timed at_ten after_timed after_timed at_twelve
      no_trouble numbered no_waiters 7 refl
      (record { no_earlier = omega arith; cancelled_stays = λ n h. h; ended_stays = λ k h. h }) refl
      refl refl
