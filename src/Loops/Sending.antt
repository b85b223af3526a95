-- ===== src/Loops/Sending.antt =====
-- What `txer` hands to the connection, and what the peer's `rxer` makes of it.
use channel.Base.{
  ℕ, zero, suc, ◌+◌, ◌<◌, ◌≡◌, refl, sym, ap, ◌∙◌, min, append-nil, ◌⊎◌, inl, inr, arith, List, [],
  ◌∷◌, ◌++◌, Bool, true, false, Option, none, some, All, length, Bool-cases, if-keeps, take,
}
use channel.Base.Bytes.{Bytes}
use channel.Io.{Reader, contents}
use channel.Message.{Message}
use channel.Wire.Marshal.{marshal_v2}
use channel.Wire.RoundTrip.{IsSendable}
use channel.Underlays.{Underlay}
use channel.Transport.{
  UnderlayError, underlay_closed, StreamUnderlay, not_sent, handed, pure_marshal_v2, hand_over,
  stream_tx,
}
use channel.Channel.{ChannelImpl, get_validated_underlay_type}
use channel.Channel.Dispatch.{TxResult}
use channel.Loops.{
  RxSetting, rxer, Outgoing, TxRun, tx_outcome, handed_bytes, ends_txer, tx_turn, put_handed,
  txer_loop, txer,
}
use channel.Loops.Turns.{ReadsV2}
use channel.Loops.InOrder.{frames, whole_frames, open_turns, HandsOn, rxer_loop-HandsOn}

abbrev pub WritesV2 : StreamUnderlay → Type 0
WritesV2 u = u.marshal_f ≡ pure_marshal_v2

abbrev Fits : Option Message → Type 0
Fits none = Unit {0}
Fits (some m) = IsSendable m

-- A message that the format can carry, or no message.
abbrev pub OutgoingFits : Outgoing → Type 0
OutgoingFits o = Fits o.message

-- The stream is a part from the front of what the messages that were sent are marshalled to.
abbrev pub IsStreamed : TxRun → Type 0
IsStreamed run = (run.stream ≡ take (length run.stream) (frames run.sent)) × All IsSendable run.sent

handed_bytes-not_sent :
    (r : TxResult) (j : ℕ) (x : UnderlayError) → handed_bytes r j (some (not_sent x)) ≡ none
unfolding handed_bytes
handed_bytes-not_sent r j x = ground arith

-- A `tx` behind which the loop goes on wrote all, or nothing.
handed_bytes-going_on :
    (r : TxResult) (j : ℕ) (bytes : Bytes) (e : Option ℕ)
    → ends_txer r ≡ false
    → (handed_bytes r j (some (handed bytes e)) ≡ none)
      ⊎ (handed_bytes r j (some (handed bytes e)) ≡ some bytes)
unfolding handed_bytes ends_txer
handed_bytes-going_on r j bytes e h = ground arith

handed_bytes-ending :
    (r : TxResult) (j : ℕ) (bytes : Bytes) (e : Option ℕ)
    → ends_txer r ≡ true
    → (handed_bytes r j (some (handed bytes e)) ≡ none)
      ⊎ (handed_bytes r j (some (handed bytes e)) ≡ some (take j bytes))
unfolding handed_bytes ends_txer
handed_bytes-ending r j bytes e h = ground arith

tx_outcome-v2 :
    (u : StreamUnderlay) (o : Outgoing) (m : Message)
    → WritesV2 u
    → (tx_outcome u o (some m) ≡ some (not_sent underlay_closed))
      ⊎ (tx_outcome u o (some m) ≡ some (handed (marshal_v2 m).1 o.write_error))
unfolding tx_outcome stream_tx hand_over
tx_outcome-v2 u o m v2 = elim (Bool-cases o.closed) [
  | inl down ↦ inl (rw down)
  | inr up ↦ inr (rw (up, v2))
]

put_handed-none : (o : Option Message) (run : TxRun) → put_handed o none run ≡ run
unfolding put_handed
put_handed-none none run = refl
put_handed-none (some m) run = refl

take-front : (j : ℕ) (xs ys : Bytes) → take (length (take j xs)) (xs ++ ys) ≡ take j xs
take-front zero xs ys = refl
take-front (suc j) [] ys = refl
take-front (suc j) (x ∷ xs) ys = ap (◌∷◌ x) (take-front j xs ys)

take-behind :
    (xs ys zs : Bytes) → zs ≡ take (length zs) ys → xs ++ zs ≡ take (length (xs ++ zs)) (xs ++ ys)
take-behind [] ys zs e = e
take-behind (x ∷ xs) ys zs e = ap (◌∷◌ x) (take-behind xs ys zs e)

-- A message that is written whole comes in front of what follows.
put_handed-going_on :
    (u : StreamUnderlay) (o : Outgoing) (message : Option Message) (r : TxResult) (run : TxRun)
    → WritesV2 u
    → Fits message
    → ends_txer r ≡ false
    → IsStreamed run
    → IsStreamed (put_handed message (handed_bytes r o.accepted (tx_outcome u o message)) run)
unfolding put_handed frames
put_handed-going_on u o none r run v2 fit on h = h
put_handed-going_on u o (some m) r run v2 fit on h = elim (tx_outcome-v2 u o m v2) [
  | inl refused ↦
      rw (refused, handed_bytes-not_sent r o.accepted underlay_closed, put_handed-none (some m) run)
        h
  | inr out ↦ elim (handed_bytes-going_on r o.accepted (marshal_v2 m).1 o.write_error on) [
    | inl before ↦ rw (out, before, put_handed-none (some m) run) h
    | inr reached ↦
        rw (out, reached)
          (take-behind (marshal_v2 m).1 (frames run.sent) run.stream h.0, (fit, h.1))
  ]
]

-- The last message may be cut off.
put_handed-ending :
    (u : StreamUnderlay) (o : Outgoing) (message : Option Message) (r : TxResult) (c : ChannelImpl)
    → WritesV2 u
    → Fits message
    → ends_txer r ≡ true
    → IsStreamed (
        put_handed message
          (handed_bytes r o.accepted (tx_outcome u o message))
          (record { channel = c; results = r ∷ []; sent = []; stream = [] }))
unfolding put_handed frames
put_handed-ending u o none r c v2 fit off = (refl, tt)
put_handed-ending u o (some m) r c v2 fit off = elim (tx_outcome-v2 u o m v2) [
  | inl refused ↦ rw (refused, handed_bytes-not_sent r o.accepted underlay_closed) (refl, tt)
  | inr out ↦ elim (handed_bytes-ending r o.accepted (marshal_v2 m).1 o.write_error off) [
    | inl before ↦ rw (out, before) (refl, tt)
    | inr reached ↦ rw (out, reached) (cut_off (marshal_v2 m).1 o.accepted, (fit, tt))
  ]
]
  where
    cut_off : (bs : Bytes) (j : ℕ) → take j bs ++ [] ≡ take (length (take j bs ++ [])) (bs ++ [])
    cut_off bs j = rw (append-nil (take j bs)) (sym (take-front j bs []))

pub txer_loop-IsStreamed :
    (now : ℕ → ℕ) (sets : Bool) (u : StreamUnderlay) (os : List Outgoing) (n : ℕ) (c : ChannelImpl)
    → WritesV2 u
    → All OutgoingFits os
    → IsStreamed (txer_loop now n sets u os c)
unfolding txer_loop
txer_loop-IsStreamed now sets u [] n c v2 fit = unfold frames in (refl, tt)
txer_loop-IsStreamed now sets u (o ∷ os) n c v2 fit =
    let r = tx_turn (now n) sets u o c in
    let rest = txer_loop-IsStreamed now sets u os (n + 1) r.0 v2 fit.1 in
    if-keeps IsStreamed (ends_txer r.1)
      (λ off. put_handed-ending u o o.message r.1 r.0 v2 fit.0 off)
      (λ on. put_handed-going_on u o o.message r.1 _ v2 fit.0 on rest)

take-take : (j k : ℕ) (xs : Bytes) → take j (take k xs) ≡ take (min j k) xs
take-take zero k xs = let e : min 0 k ≡ 0 = omega arith in rw e
take-take (suc j) zero xs = let e : min (suc j) 0 ≡ 0 = omega arith in rw e
take-take (suc j) (suc k) [] = let e : min (suc j) (suc k) ≡ suc (min j k) = omega arith in rw e
take-take (suc j) (suc k) (x ∷ xs) =
    let e : min (suc j) (suc k) ≡ suc (min j k) = omega arith in
    rw e (ap (◌∷◌ x) (take-take j k xs))

-- The underlay's messages reach the peer in order, each once and unchanged but for its stamped
-- headers: of the messages whose bytes `txer` handed to the connection, `rxer` hands to `rx` exactly
-- those whose bytes arrive whole, whichever prefix of the stream arrives and however it is cut into
-- chunks, up to the turn that finds the underlay closed; then it ends, with an error. `txer` may meet
-- any error, a write that takes a part of a message included; messages must be such as the format can
-- carry, and both underlays must use version 2.
pub delivered_in_order :
    (now_tx now_rx : ℕ → ℕ) (sets inject : Bool) (sender receiver : StreamUnderlay) (v w : Underlay)
    (os : List Outgoing) (c d : ChannelImpl) (closed : ℕ → Bool) (fuel k : ℕ) (peer : Reader)
    → WritesV2 sender
    → ReadsV2 receiver
    → All OutgoingFits os
    → contents peer ≡ take k (txer now_tx sets v sender os c).stream
    → length (txer now_tx sets v sender os c).sent < fuel
    → HandsOn
        (record {
          inject = inject;
          underlay_type = get_validated_underlay_type d w;
          now = now_rx;
          closed = closed;
        })
        (txer now_tx sets v sender os c).sent
        (open_turns closed 0 (
          whole_frames
            (min k (length (txer now_tx sets v sender os c).stream))
            (txer now_tx sets v sender os c).sent))
        (rxer fuel inject now_rx closed w receiver peer d)
unfolding txer rxer
delivered_in_order now_tx now_rx sets inject sender receiver v w os c d closed fuel k peer wv rv fit
      e enough =
    let setting : RxSetting = record {
      inject = inject;
      underlay_type = get_validated_underlay_type d w;
      now = now_rx;
      closed = closed;
    } in
    let run = txer_loop now_tx 0 sets sender os c in
    let (streamed, fits) = txer_loop-IsStreamed now_tx sets sender os 0 c wv fit in
    rxer_loop-HandsOn setting receiver rv run.sent fuel 0 (min k (length run.stream)) peer d fits
      enough (e ∙ ap (take k) streamed ∙ take-take k (length run.stream) (frames run.sent))
