-- ===== src/Tests/Loops.antt =====
-- txer and rxer of impl.go on a tracer and two messages, the second of which fails to be written.
use channel.Base.{
  ℕ, ◌≡◌, refl, arith, List, [], ◌∷◌, map, Bool, true, false, none, some, append-nil, length, take,
  ◌++◌, ok, min,
}
use channel.Base.Maps.{nat_eq, Distinct, insert, lookup}
use channel.Io.{Reader, eof, contents, flatten}
use channel.Message.{Message}
use channel.Wire.RoundTrip.{received}
use channel.Channel.{get_validated_underlay_type}
use channel.Transport.{UnderlayError, StreamUnderlay, new_classic_impl, new_existing_impl}
use channel.Loops.{
  Outgoing, TxRun, RxSetting, rxer, txer, txer_with_handlers, transform_items, transform_message,
  inject_type, ends_txer, tx_turn, put_handed, handed_bytes,
}
use channel.Loops.Turns.{ReadsV2}
use channel.Loops.InOrder.{HandsOn, open_turns, whole_frames}
use channel.Loops.Sending.{WritesV2, delivered_in_order}
use channel.Loops.Complete.{everything_delivered, IsUntroubled}
use channel.Channel.{ChannelImpl}
use channel.Channel.Handlers.{transform_all}
use channel.Loops.Ending.{rxer_ends}
use channel.Tests.Wire.{sample, sample-IsSendable}
use channel.Tests.Channel.{opened, grouped}
use channel.Base.Bytes.{Bytes, put_le}
use channel.Message.Headers.{put_uint32_header}
use channel.Message.{reply_to, reflect}
use channel.Wire.Marshal.{marshal_v2, marshal_headers, stamped}
use channel.Wire.RoundTrip.{IsSendable}
use channel.Waiters.{waiter_ttl, no_waiters}
use channel.Channel.Setup.{new_channel}
use channel.Channel.Dispatch.{rx, to_receiver}
use channel.Loops.{rx_turn}
use channel.Loops.Conversation.{request_and_reply}

abbrev sender : StreamUnderlay
sender = new_classic_impl none 2

abbrev receiver : StreamUnderlay
receiver = new_existing_impl 2

abbrev going : Outgoing
going = record {
  message = some sample;
  reply_receiver = some 7;
  deadline = none;
  context_done = false;
  timeout_fails = false;
  requeues = false;
  closed = false;
  write_error = none;
  accepted = 9;
}

abbrev tracer_item : Outgoing
tracer_item = record going { message = none }

abbrev broken_item : Outgoing
broken_item = record going { write_error = some 32 }

abbrev items : List Outgoing
items = tracer_item ∷ going ∷ broken_item ∷ going ∷ []

abbrev sent_run : TxRun
sent_run = txer (λ n. n) true (grouped 1) sender items opened

-- The first message and a part of the second arrive.
abbrev torn : Reader
torn = record { chunks = take 60 sent_run.stream ∷ []; fate = eof }

abbrev up : ℕ → Bool
up n = false

torn-contents : contents torn ≡ take 60 sent_run.stream
unfolding contents flatten
torn-contents = append-nil (take 60 sent_run.stream)

sender-WritesV2 : WritesV2 sender
unfolding new_classic_impl
sender-WritesV2 = refl

receiver-ReadsV2 : ReadsV2 receiver
unfolding new_existing_impl
receiver-ReadsV2 = refl

sent_twice : length sent_run.sent ≡ 2
unfolding txer ends_txer tx_turn put_handed handed_bytes new_classic_impl
sent_twice = refl

abbrev setting : RxSetting
setting = record {
  inject = true;
  underlay_type = get_validated_underlay_type opened (grouped 2);
  now = λ n. n;
  closed = up;
}

delivered_in_order_example :
    HandsOn setting sent_run.sent
      (open_turns up 0 (whole_frames (min 60 (length sent_run.stream)) sent_run.sent))
      (rxer 5 true (λ n. n) up (grouped 2) receiver torn opened)
delivered_in_order_example =
    delivered_in_order (λ n. n) (λ n. n) true true sender receiver (grouped 1) (grouped 2) items
      opened opened up 5 60 torn sender-WritesV2 receiver-ReadsV2
      (tt, (sample-IsSendable, (sample-IsSendable, (sample-IsSendable, tt)))) torn-contents
      (rw sent_twice (omega arith))

-- A run without failures, on a channel with a transform handler that puts in the number of the turn.
untroubled : IsUntroubled going
untroubled = (refl, refl, refl, refl)

abbrev fine_items : List Outgoing
fine_items = going ∷ tracer_item ∷ going ∷ []

abbrev transforming : ChannelImpl
transforming = record opened { transform_handlers = 8 ∷ [] }

abbrev put_turn : ℕ → ℕ → Message → Message
put_turn n h m = record m { body = n ∷ [] }

abbrev fine_run : TxRun
fine_run = txer_with_handlers put_turn (λ n. n) false (grouped 1) sender fine_items transforming

abbrev intact : Reader
intact = record { chunks = fine_run.stream ∷ []; fate = eof }

intact-contents : contents intact ≡ fine_run.stream
unfolding contents flatten
intact-contents = append-nil fine_run.stream

turned-IsSendable : (n : ℕ) → IsSendable (record sample { body = n ∷ [] })
unfolding stamped put_uint32_header insert lookup marshal_headers put_le
turned-IsSendable n = record {
  content_type = omega arith;
  sequence = omega arith;
  reply_for = omega arith;
  headers = omega arith;
  distinct = (refl, tt);
  size = omega arith;
}

everything_delivered_example :
    (rxer 5 false (λ n. n) up (grouped 2) receiver intact opened).messages
    ≡ map
        (λ (m : Message).
          inject_type false (get_validated_underlay_type opened (grouped 2)) (received m))
        (record sample { body = 0 ∷ [] } ∷ record sample { body = 2 ∷ [] } ∷ [])
unfolding transform_items transform_message transform_all
everything_delivered_example =
    everything_delivered put_turn (λ n. n) (λ n. n) false false sender receiver (grouped 1)
      (grouped 2) fine_items transforming opened up 5 intact sender-WritesV2 receiver-ReadsV2
      (turned-IsSendable 0, (tt, (turned-IsSendable 2, tt)))
      (untroubled, (untroubled, (untroubled, tt))) (λ i. refl) intact-contents (omega arith)

abbrev garbage : Reader
garbage = record { chunks = (1 ∷ 2 ∷ 3 ∷ []) ∷ (4 ∷ 5 ∷ []) ∷ []; fate = eof }

rxer_ends_example :
    (e : UnderlayError) × ((rxer 1 true (λ n. n) up (grouped 2) receiver garbage opened).ended
      ≡ some e)
rxer_ends_example =
    rxer_ends true (λ n. n) up (grouped 2) receiver garbage opened 1 receiver-ReadsV2
      (unfold contents flatten in omega arith)

-- What the server answers the sample with.
abbrev made : Message
made = record { content_type = 61; sequence = 3; reply_for = none; headers = []; body = 7 ∷ [] }

abbrev answer : Message
answer = reply_to made (received sample)

answer-IsSendable : IsSendable answer
unfolding stamped put_uint32_header insert lookup marshal_headers put_le reply_to received reflect
answer-IsSendable = record {
  content_type = omega arith;
  sequence = omega arith;
  reply_for = omega arith;
  headers = omega arith;
  distinct = (refl, tt);
  size = omega arith;
}

client-ReadsV2 : ReadsV2 sender
unfolding new_classic_impl
client-ReadsV2 = refl

no_waiters_yet : Distinct opened.waiters.m
unfolding new_channel no_waiters
no_waiters_yet = tt

abbrev stream_of : Message → Bytes → Reader
stream_of m behind = record { chunks = (marshal_v2 m).1 ∷ behind ∷ []; fate = eof }

stream_of-contents :
    (m : Message) (x : ℕ) → contents (stream_of m (x ∷ [])) ≡ (marshal_v2 m).1 ++ (x ∷ [])
unfolding contents flatten
stream_of-contents m x = refl

request_and_reply_example :
    ((rest : Reader) × (rx_turn setting 0 receiver (stream_of sample (3 ∷ []))
        ≡ ok (received sample, rest))
      × (contents rest ≡ 3 ∷ []))
    × ((rest : Reader) × (rx_turn setting 4 sender (stream_of answer (9 ∷ []))
          ≡ ok (received answer, rest))
        × (contents rest ≡ 9 ∷ []))
    × ((rx 200
          (inject_type setting.inject setting.underlay_type (received answer))
          (tx_turn 100 true sender going opened).0).1
        ≡ to_receiver 7)
request_and_reply_example =
    request_and_reply 100 200 true sender receiver going sample made 7 opened setting setting 0 4
      (stream_of sample (3 ∷ [])) (stream_of answer (9 ∷ [])) (3 ∷ []) (9 ∷ []) sender-WritesV2
      client-ReadsV2 receiver-ReadsV2 refl refl untroubled no_waiters_yet (λ e. omega (arith, e))
      sample-IsSendable answer-IsSendable refl refl (stream_of-contents sample 3)
      (stream_of-contents answer 9) (unfold waiter_ttl in omega arith)
