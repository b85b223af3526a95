-- ===== src/Loops/Conversation.antt =====
-- A request that goes over an underlay, and its reply that comes back over it.
use channel.Base.{
  ℕ, ◌≤◌, ◌≡◌, ◌≢◌, refl, sym, ap, ◌∙◌, arith, ◌++◌, Bool, true, false, none, some, ok, ==_iff,
}
use channel.Base.Bytes.{Bytes}
use channel.Base.Maps.{Distinct, lookup-insert_ne, nat_eq}
use channel.Io.{Reader, contents}
use channel.Message.{
  Message, minus_one, is_reply, reply_for, reply_to, cached_reply_for, header_reply_for,
  reply_for_header,
}
use channel.Message.Headers.{put_string_header}
use channel.Message.Keys.{underlay_type_header}
use channel.Wire.Marshal.{marshal_v2}
use channel.Wire.RoundTrip.{IsSendable, received, read-marshal_v2, reply_for-received}
use channel.Waiters.{waiter_ttl}
use channel.Transport.{StreamUnderlay, hand_over, stream_tx, tx_error}
use channel.Channel.{ChannelImpl}
use channel.Channel.Dispatch.{
  to_receiver, rx, Sendable, TxAnswers, written, tx, tx_sequence, tx_message,
}
use channel.Channel.Replies.{request_gets_reply}
use channel.Loops.{
  RxSetting, inject_type, rx_turn, Outgoing, sequence_of, tx_outcome, outcome_fails, tx_turn,
}
use channel.Loops.Turns.{ReadsV2, rx_turn_message}
use channel.Loops.Sending.{WritesV2}
use channel.Loops.Complete.{IsUntroubled}

-- The type that the receiver injects is no reply-for.
reply_for-inject_type :
    (inject : Bool) (underlay_type : Bytes) (m : Message)
    → m.reply_for ≡ none
    → reply_for (inject_type inject underlay_type m) ≡ reply_for m
unfolding reply_for inject_type cached_reply_for put_string_header
reply_for-inject_type false underlay_type m e = refl
reply_for-inject_type true underlay_type m e = rw e (
    ap header_reply_for (
      lookup-insert_ne underlay_type_header reply_for_header underlay_type m.headers
        (λ x. omega (arith, x))))

received-uncached : (m : Message) → (received m).reply_for ≡ none
unfolding received
received-uncached m = refl

reply_for-reply_to : (p m : Message) → reply_for (reply_to p (received m)) ≡ m.sequence
unfolding reply_for reply_to cached_reply_for received
reply_for-reply_to p m = refl

is_reply-number : (m : Message) → reply_for m ≢ minus_one → is_reply m ≡ true
unfolding is_reply
is_reply-number m h = ground (arith, ==_iff (reply_for m) minus_one)

-- What `tx` is asked for a request that meets no trouble, and how it returns.
abbrev asked : Bool → Outgoing → TxAnswers
asked sets o = record {
  context_done = o.context_done;
  sets_write_timeout = sets;
  timeout_fails = o.timeout_fails;
  write_fails = false;
  requeues = o.requeues;
}

abbrev requested : Outgoing → Message → Sendable
requested o m = record {
  sequence = some m.sequence;
  reply_receiver = o.reply_receiver;
  deadline = o.deadline;
}

untroubled_tx :
    (now : ℕ) (sets : Bool) (u : StreamUnderlay) (o : Outgoing) (m : Message) (c : ChannelImpl)
    → WritesV2 u
    → o.message ≡ some m
    → IsUntroubled o
    → (tx_turn now sets u o c).0
      ≡ record c { waiters = (tx (asked sets o) now (requested o m) c.waiters).0 }
unfolding tx_turn sequence_of tx_outcome outcome_fails stream_tx hand_over tx_error
untroubled_tx now sets u o m c v2 e h = rw (e, h.2, h.3, v2)

untroubled_written :
    (now : ℕ) (sets : Bool) (o : Outgoing) (m : Message) (c : ChannelImpl)
    → IsUntroubled o
    → (tx (asked sets o) now (requested o m) c.waiters).1 ≡ written
unfolding tx tx_sequence tx_message
untroubled_written now true o m c h = rw (h.0, h.1)
untroubled_written now false o m c h = rw h.0

-- A request that the client's `tx` writes without trouble is the next message that the server's `rxer`
-- reads; and a reply that the server makes of it with `ReplyTo` and writes is the next message that the
-- client's `rxer` reads, and its `rx` gives it to the receiver that the request named, if it comes no
-- later than the deadline of the request and the client's channel did nothing in between. Both underlays
-- use version 2 and are open; request and reply must be such as the format can carry; the request's
-- sequence is not -1; the client's waiters have distinct keys; the streams may be cut into chunks in any
-- way and other messages may follow.
pub request_and_reply :
    (now later : ℕ) (sets : Bool) (client server : StreamUnderlay) (o : Outgoing)
    (request made : Message) (receiver : ℕ) (c : ChannelImpl) (s t : RxSetting) (i j : ℕ)
    (to_server to_client : Reader) (behind_request behind_reply : Bytes)
    → WritesV2 client
    → ReadsV2 client
    → ReadsV2 server
    → o.message ≡ some request
    → o.reply_receiver ≡ some receiver
    → IsUntroubled o
    → Distinct c.waiters.m
    → request.sequence ≢ minus_one
    → IsSendable request
    → IsSendable (reply_to made (received request))
    → s.closed i ≡ false
    → t.closed j ≡ false
    → contents to_server ≡ (marshal_v2 request).1 ++ behind_request
    → contents to_client ≡ (marshal_v2 (reply_to made (received request))).1 ++ behind_reply
    → later ≤ waiter_ttl o.deadline now
    → ((rest : Reader) × (rx_turn s i server to_server ≡ ok (received request, rest))
        × (contents rest ≡ behind_request))
      × ((rest : Reader) × (rx_turn t j client to_client
            ≡ ok (received (reply_to made (received request)), rest))
          × (contents rest ≡ behind_reply))
      × ((rx later
            (inject_type t.inject t.underlay_type (received (reply_to made (received request))))
            (tx_turn now sets client o c).0).1
          ≡ to_receiver receiver)
request_and_reply now later sets client server o request made receiver c s t i j to_server to_client
      behind_request behind_reply wc rc rs is_request is_receiver fine distinct number fits fits' up
      up' e e' timely =
    let reply = reply_to made (received request) in
    let arrived = inject_type t.inject t.underlay_type (received reply) in
    let to_seq : reply_for arrived ≡ request.sequence =
      reply_for-inject_type t.inject t.underlay_type (received reply) (received-uncached reply)
      ∙ reply_for-received reply fits'
      ∙ reply_for-reply_to made request in
    (
      rx_turn_message s i server to_server (received request) behind_request rs up
          (read-marshal_v2 request behind_request to_server fits e),
      rx_turn_message t j client to_client (received reply) behind_reply rc up'
          (read-marshal_v2 reply behind_reply to_client fits' e'),
      rw (untroubled_tx now sets client o request c wc is_request fine) (
          request_gets_reply (asked sets o) now later (requested o request) request.sequence
            receiver c arrived refl is_receiver distinct
            (untroubled_written now sets o request c fine)
            (is_reply-number arrived (λ x. number (sym to_seq ∙ x))) to_seq timely),
    )
