-- ===== src/Loops.antt =====
-- impl.go: `rxer` and `txer`, the receiver and the sender that `startMultiplex` starts for an underlay,
-- over an underlay of Transport. A run is that of one goroutine by itself: what others do to the channel
-- between its calls is not shown, but for the closing of the underlay, which a schedule brings about.
pub mod Turns
pub mod InOrder
pub mod Sending
pub mod Ending
pub mod Complete
pub mod Conversation
use channel.Base.{
  ℕ, zero, suc, ◌+◌, List, [], ◌∷◌, ◌++◌, Bool, true, false, Option, none, some, Result, ok, err,
  if◌then◌else◌, take,
}
use channel.Base.Bytes.{Bytes}
use channel.Io.{Reader}
use channel.Message.{Message}
use channel.Message.Keys.{underlay_type_header}
use channel.Message.Headers.{put_string_header}
use channel.Underlays.{Underlay}
use channel.Transport.{
  UnderlayError, StreamUnderlay, stream_rx, Sent, not_sent, handed, stream_tx, tx_error,
}
use channel.Channel.{ChannelImpl, get_validated_underlay_type, close_underlay}
use channel.Channel.Handlers.{transform_all}
use channel.Channel.Dispatch.{
  Delivery, rx, Sendable, TxResult, expired, tracer, timeout_not_set, requeued, write_failed,
  written, TxAnswers, tx,
}

-- `if injectType { m.Headers.PutStringHeader(UnderlayTypeHeader, underlayType) }`
unfoldable pub inject_type : Bool → Bytes → Message → Message
unfolding put_string_header
inject_type inject underlay_type m =
    if inject
    then record m { headers = put_string_header underlay_type_header underlay_type m.headers }
    else m

-- What a run of `rxer` did: the channel, the messages that `rx` was called with and who got them, and
-- the error of `Rx` that ended the loop; none where the fuel ran out.
pub record RxRun : Type 0 where
  pub channel : ChannelImpl
  pub messages : List Message
  pub deliveries : List Delivery
  pub ended : Option UnderlayError

-- What `rxer` reads before its loop, and what happens around it: the clock, and whether the underlay is
-- found closed, at each turn.
pub record RxSetting : Type 0 where
  pub inject : Bool
  pub underlay_type : Bytes
  pub now : ℕ → ℕ
  pub closed : ℕ → Bool

unfoldable pub rx_turn :
    RxSetting → ℕ → StreamUnderlay → Reader → Result UnderlayError (Message × Reader)
unfolding stream_rx
rx_turn s n u peer = stream_rx peer (record u { closed = s.closed n })

-- The loop, at its turn `n`.
unfoldable pub rxer_loop : ℕ → ℕ → RxSetting → StreamUnderlay → Reader → ChannelImpl → RxRun
rxer_loop zero n s u peer c = record { channel = c; messages = []; deliveries = []; ended = none }
rxer_loop (suc fuel) n s u peer c = elim (rx_turn s n u peer) [
  | err e ↦ record { channel = c; messages = []; deliveries = []; ended = some e }
  | ok (m, peer') ↦
      let m' = inject_type s.inject s.underlay_type m in
      let r = rx (s.now n) m' c in
      let rest = rxer_loop fuel (n + 1) s u peer' r.0 in
      record rest { messages = m' ∷ rest.messages; deliveries = r.1 ∷ rest.deliveries }
]

-- `rxer`, for the underlay `v` of the channel: however its loop ends, it closes the underlay.
unfoldable pub rxer :
    ℕ → Bool → (ℕ → ℕ) → (ℕ → Bool) → Underlay → StreamUnderlay → Reader → ChannelImpl → RxRun
unfolding rxer_loop get_validated_underlay_type close_underlay
rxer fuel inject now closed v u peer c =
    let setting : RxSetting = record {
      inject = inject;
      underlay_type = get_validated_underlay_type c v;
      now = now;
      closed = closed;
    } in
    let run = rxer_loop fuel 0 setting u peer c in
    record run { channel = close_underlay v run.channel }

-- What a message source hands to `txer`, with what the context, the connection and the senders answer.
-- `tx_turn` and `txer` stand behind the transform handlers: there the message is as these leave it, and
-- `txer_with_handlers` is `txer` on what the source itself hands out.
pub record Outgoing : Type 0 where
  pub message : Option Message
  pub reply_receiver : Option ℕ
  pub deadline : Option ℕ
  pub context_done : Bool
  pub timeout_fails : Bool
  pub requeues : Bool
  pub closed : Bool  -- the underlay is found closed
  pub write_error : Option ℕ
  pub accepted : ℕ  -- how many bytes a failing write takes

abbrev is_some {ℓ} : {A : Type ℓ} → Option A → Bool
is_some none = false
is_some (some a) = true

unfoldable pub sequence_of : Option Message → Option ℕ
sequence_of none = none
sequence_of (some m) = some m.sequence

-- What `underlay.Tx` would do with the message.
unfoldable pub tx_outcome : StreamUnderlay → Outgoing → Option Message → Option Sent
unfolding stream_tx
tx_outcome u o none = none
tx_outcome u o (some m) = some (stream_tx o.write_error m (record u { closed = o.closed })).1

unfoldable pub outcome_fails : Option Sent → Bool
unfolding tx_error
outcome_fails none = false
outcome_fails (some sent) = is_some (tx_error sent)

-- The bytes that the connection took, if `tx` called `underlay.Tx` and that called `Write`.
unfoldable pub handed_bytes : TxResult → ℕ → Option Sent → Option Bytes
handed_bytes written accepted (some (handed frame e)) = some frame
handed_bytes write_failed accepted (some (handed frame e)) = some (take accepted frame)
handed_bytes requeued accepted (some (handed frame e)) = some (take accepted frame)
handed_bytes _ _ _ = none

-- `err != nil` behind `tx`: all but an expired context, a tracer and a written message.
unfoldable pub ends_txer : TxResult → Bool
ends_txer expired = false
ends_txer tracer = false
ends_txer written = false
ends_txer _ = true

unfoldable pub tx_turn : ℕ → Bool → StreamUnderlay → Outgoing → ChannelImpl → ChannelImpl × TxResult
unfolding tx sequence_of tx_outcome outcome_fails
tx_turn now sets_write_timeout u o c =
    let answers : TxAnswers = record {
      context_done = o.context_done;
      sets_write_timeout = sets_write_timeout;
      timeout_fails = o.timeout_fails;
      write_fails = outcome_fails (tx_outcome u o o.message);
      requeues = o.requeues;
    } in
    let sendable : Sendable = record {
      sequence = sequence_of o.message;
      reply_receiver = o.reply_receiver;
      deadline = o.deadline;
    } in
    let r = tx answers now sendable c.waiters in (record c { waiters = r.0 }, r.1)

-- What a run of `txer` did: the channel, how each `tx` returned, the messages whose bytes were handed
-- to the connection, and the bytes that it took.
pub record TxRun : Type 0 where
  pub channel : ChannelImpl
  pub results : List TxResult
  pub sent : List Message
  pub stream : Bytes

unfoldable pub put_handed : Option Message → Option Bytes → TxRun → TxRun
put_handed (some m) (some frame) run = record run {
  sent = m ∷ run.sent;
  stream = frame ++ run.stream;
}
put_handed _ _ run = run

-- The loop, on what the message source hands out before it fails.
unfoldable pub txer_loop : (ℕ → ℕ) → ℕ → Bool → StreamUnderlay → List Outgoing → ChannelImpl → TxRun
txer_loop now n sets_write_timeout u [] c = record {
  channel = c;
  results = [];
  sent = [];
  stream = [];
}
txer_loop now n sets_write_timeout u (o ∷ os) c =
    let r = tx_turn (now n) sets_write_timeout u o c in
    let rest = txer_loop now (n + 1) sets_write_timeout u os r.0 in
    let bytes = handed_bytes r.1 o.accepted (tx_outcome u o o.message) in
    let last : TxRun = record { channel = r.0; results = r.1 ∷ []; sent = []; stream = [] } in
    if ends_txer r.1
    then put_handed o.message bytes last
    else put_handed o.message bytes (record rest { results = r.1 ∷ rest.results })

-- `txer`, on sendables whose messages are transformed: however its loop ends, it closes the underlay.
unfoldable pub txer :
    (ℕ → ℕ) → Bool → Underlay → StreamUnderlay → List Outgoing → ChannelImpl → TxRun
unfolding txer_loop close_underlay
txer now sets_write_timeout v u items c =
    let run = txer_loop now 0 sets_write_timeout u items c in
    record run { channel = close_underlay v run.channel }

-- What `transform_handlers` leave of the messages that a source hands out, from turn `n` on; what a
-- handler makes of a message may change from turn to turn.
module _ (transform : ℕ → ℕ → Message → Message) (transform_handlers : List ℕ) where
  unfoldable pub transform_message : ℕ → Option Message → Option Message
  unfolding transform_all
  transform_message n none = none
  transform_message n (some m) = some (transform_all (transform n) transform_handlers m)

  unfoldable pub transform_items : ℕ → List Outgoing → List Outgoing
  unfolding transform_message
  transform_items n [] = []
  transform_items n (o ∷ os) =
      record o { message = transform_message n o.message } ∷ transform_items (n + 1) os

-- `txer`, with the transform handlers of its channel, which are fixed once the channel is set up.
unfoldable pub txer_with_handlers :
    (ℕ → ℕ → Message → Message)
    → (ℕ → ℕ)
    → Bool
    → Underlay
    → StreamUnderlay
    → List Outgoing
    → ChannelImpl
    → TxRun
unfolding txer transform_items
txer_with_handlers transform now sets_write_timeout v u items c =
    txer now sets_write_timeout v u (transform_items transform c.transform_handlers 0 items) c
