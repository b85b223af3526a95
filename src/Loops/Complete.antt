-- ===== src/Loops/Complete.antt =====
-- A run of `txer` and a run of `rxer` in which nothing fails.
use channel.Base.{
  ℕ, zero, suc, ◌+◌, ◌-◌, ◌<◌, ◌≤◌, ◌≡◌, refl, min, sym, ap, ◌∙◌, arith, List, [], ◌∷◌, ◌++◌, map,
  Bool, true, false, Option, none, some, All, length, take, ltb-false, length-append,
}
use channel.Io.{Reader, contents}
use channel.Message.{Message}
use channel.Wire.Marshal.{marshal_v2}
use channel.Wire.RoundTrip.{received}
use channel.Underlays.{Underlay}
use channel.Transport.{StreamUnderlay, hand_over, stream_tx, tx_error}
use channel.Channel.{ChannelImpl, get_validated_underlay_type}
use channel.Channel.Dispatch.{tx, tx_sequence, tx_message}
use channel.Loops.{
  inject_type, rxer, Outgoing, TxRun, sequence_of, tx_outcome, outcome_fails, handed_bytes,
  ends_txer, tx_turn, put_handed, txer_loop, txer, transform_message, transform_items,
  txer_with_handlers,
}
use channel.Loops.Turns.{ReadsV2}
use channel.Loops.InOrder.{frames, whole_frames, open_turns}
use channel.Loops.Sending.{WritesV2, OutgoingFits, delivered_in_order}

-- Nothing fails for a sendable: its context, the write timeout, the underlay, the write.
abbrev pub IsUntroubled : Outgoing → Type 0
IsUntroubled o =
    (o.context_done ≡ false)
    × (o.timeout_fails ≡ false)
    × (o.closed ≡ false)
    × (o.write_error ≡ none)

abbrev cons_message : Option Message → List Message → List Message
cons_message none ms = ms
cons_message (some m) ms = m ∷ ms

-- The messages of sendables, in order; a tracer has none.
abbrev pub messages_of : List Outgoing → List Message
messages_of [] = []
messages_of (o ∷ os) = cons_message o.message (messages_of os)

take-all {ℓ} : {A : Type ℓ} (xs : List A) → take (length xs) xs ≡ xs
take-all [] = refl
take-all (x ∷ xs) = ap (◌∷◌ x) (take-all xs)

whole_frames-all :
    (ms : List Message) (k : ℕ) → length (frames ms) ≤ k → whole_frames k ms ≡ length ms
unfolding whole_frames frames
whole_frames-all [] k h = refl
whole_frames-all (m ∷ ms) k h =
    let bytes = (marshal_v2 m).1 in
    let total = length-append bytes (frames ms) in
    rw (ltb-false k (length bytes) (omega (arith, h, total)))
      (ap suc (whole_frames-all ms (k - length bytes) (omega (arith, h, total))))

open_turns-all :
    (closed : ℕ → Bool) (limit n : ℕ)
    → ((i : ℕ) → closed i ≡ false)
    → open_turns closed n limit ≡ limit
unfolding open_turns
open_turns-all closed zero n up = refl
open_turns-all closed (suc limit) n up = rw (up n) (ap suc (open_turns-all closed limit (n + 1) up))

-- The run sent these messages, and the connection took all of their bytes.
abbrev Sends : TxRun → List Message → Type 0
Sends run ms = (run.sent ≡ ms) × (run.stream ≡ frames ms)

-- A sendable that meets no trouble: a tracer does nothing, a message is written.
untroubled_turn :
    (now : ℕ) (sets : Bool) (u : StreamUnderlay) (o : Outgoing) (message : Option Message)
    (c : ChannelImpl)
    → WritesV2 u
    → o.message ≡ message
    → IsUntroubled o
    → (ends_txer (tx_turn now sets u o c).1 ≡ false)
      × ((rest : TxRun) (ms : List Message)
          → Sends rest ms
          → Sends
              (put_handed message
                (handed_bytes (tx_turn now sets u o c).1 o.accepted (tx_outcome u o message))
                rest)
              (cons_message message ms))
unfolding tx_turn tx tx_sequence tx_message sequence_of tx_outcome outcome_fails stream_tx hand_over
    tx_error handed_bytes put_handed ends_txer frames
untroubled_turn now sets u o none c v2 e h = rw (e, h.0) (refl, λ rest ms sends. sends)
untroubled_turn now true u o (some m) c v2 e h =
    rw (e, h.0, h.1, h.2, h.3, v2)
      (refl, λ rest ms sends. (ap (◌∷◌ m) sends.0, ap (◌++◌ (marshal_v2 m).1) sends.1))
untroubled_turn now false u o (some m) c v2 e h =
    rw (e, h.0, h.2, h.3, v2)
      (refl, λ rest ms sends. (ap (◌∷◌ m) sends.0, ap (◌++◌ (marshal_v2 m).1) sends.1))

txer_loop-Sends :
    (now : ℕ → ℕ) (sets : Bool) (u : StreamUnderlay) (os : List Outgoing) (n : ℕ) (c : ChannelImpl)
    → WritesV2 u
    → All IsUntroubled os
    → Sends (txer_loop now n sets u os c) (messages_of os)
unfolding txer_loop
txer_loop-Sends now sets u [] n c v2 h = unfold frames in (refl, refl)
txer_loop-Sends now sets u (o ∷ os) n c v2 h =
    let r = tx_turn (now n) sets u o c in
    let (goes_on, sends) = untroubled_turn (now n) sets u o o.message c v2 refl h.0 in
    rw goes_on (sends _ (messages_of os) (txer_loop-Sends now sets u os (n + 1) r.0 v2 h.1))

transformed_delivered :
    (now_tx now_rx : ℕ → ℕ) (sets inject : Bool) (sender receiver : StreamUnderlay) (v w : Underlay)
    (os : List Outgoing) (c d : ChannelImpl) (closed : ℕ → Bool) (fuel : ℕ) (peer : Reader)
    → WritesV2 sender
    → ReadsV2 receiver
    → All OutgoingFits os
    → All IsUntroubled os
    → ((i : ℕ) → closed i ≡ false)
    → contents peer ≡ (txer now_tx sets v sender os c).stream
    → length (messages_of os) < fuel
    → (rxer fuel inject now_rx closed w receiver peer d).messages
      ≡ map
          (λ (m : Message). inject_type inject (get_validated_underlay_type d w) (received m))
          (messages_of os)
unfolding txer
transformed_delivered now_tx now_rx sets inject sender receiver v w os c d closed fuel peer wv rv
      fit fine up e enough =
    let run = txer_loop now_tx 0 sets sender os c in
    let (sends, streamed) = txer_loop-Sends now_tx sets sender os 0 c wv fine in
    let size = length run.stream in
    let count =
      open_turns-all closed (whole_frames (min size size) run.sent) 0 up
      ∙ whole_frames-all run.sent (min size size) (
          omega
            (arith, ap length streamed, ap (λ (ms : List Message). length (frames ms)) sends)) in
    let got =
      delivered_in_order now_tx now_rx sets inject sender receiver v w os c d closed fuel size peer
        wv rv fit (e ∙ sym (take-all run.stream)) (omega (arith, enough, ap length sends)) in
    got.0
    ∙ ap
        (λ (ms : List Message).
          map (λ (m : Message). inject_type inject (get_validated_underlay_type d w) (received m))
            ms)
        (ap (λ (k : ℕ). take k run.sent) count ∙ take-all run.sent ∙ sends)

transform_items-IsUntroubled :
    (transform : ℕ → ℕ → Message → Message) (hs : List ℕ) (n : ℕ) (os : List Outgoing)
    → All IsUntroubled os
    → All IsUntroubled (transform_items transform hs n os)
unfolding transform_items
transform_items-IsUntroubled transform hs n [] h = tt
transform_items-IsUntroubled transform hs n (o ∷ os) h =
    (h.0, transform_items-IsUntroubled transform hs (n + 1) os h.1)

-- A sendable keeps its message, or has none.
cons_message-length :
    (transform : ℕ → ℕ → Message → Message) (hs : List ℕ) (n : ℕ) (o : Option Message)
    (ms ns : List Message)
    → length ms ≡ length ns
    → length (cons_message (transform_message transform hs n o) ms) ≡ length (cons_message o ns)
unfolding transform_message
cons_message-length transform hs n none ms ns h = h
cons_message-length transform hs n (some m) ms ns h = ap suc h

transform_items-length :
    (transform : ℕ → ℕ → Message → Message) (hs : List ℕ) (n : ℕ) (os : List Outgoing)
    → length (messages_of (transform_items transform hs n os)) ≡ length (messages_of os)
unfolding transform_items
transform_items-length transform hs n [] = refl
transform_items-length transform hs n (o ∷ os) =
    cons_message-length transform hs n o.message
      (messages_of (transform_items transform hs (n + 1) os)) (messages_of os)
      (transform_items-length transform hs (n + 1) os)

-- When nothing fails, the peer's `rxer` hands to `rx` every message that the message source gave to
-- `txer`, as the transform handlers of the sending channel leave it, in order and each once, and nothing
-- else; the stream may be cut into chunks in any way. The messages must fit the wire format as the
-- handlers leave them.
pub everything_delivered :
    (transform : ℕ → ℕ → Message → Message) (now_tx now_rx : ℕ → ℕ) (sets inject : Bool)
    (sender receiver : StreamUnderlay) (v w : Underlay) (os : List Outgoing) (c d : ChannelImpl)
    (closed : ℕ → Bool) (fuel : ℕ) (peer : Reader)
    → WritesV2 sender
    → ReadsV2 receiver
    → All OutgoingFits (transform_items transform c.transform_handlers 0 os)
    → All IsUntroubled os
    → ((i : ℕ) → closed i ≡ false)
    → contents peer ≡ (txer_with_handlers transform now_tx sets v sender os c).stream
    → length (messages_of os) < fuel
    → (rxer fuel inject now_rx closed w receiver peer d).messages
      ≡ map
          (λ (m : Message). inject_type inject (get_validated_underlay_type d w) (received m))
          (messages_of (transform_items transform c.transform_handlers 0 os))
unfolding txer_with_handlers
everything_delivered transform now_tx now_rx sets inject sender receiver v w os c d closed fuel peer
      wv rv fit fine up e enough =
    let given = transform_items transform c.transform_handlers 0 os in
    transformed_delivered now_tx now_rx sets inject sender receiver v w given c d closed fuel peer
      wv rv fit (transform_items-IsUntroubled transform c.transform_handlers 0 os fine) up e
      (omega (arith, enough, transform_items-length transform c.transform_handlers 0 os))
