-- ===== src/Transport/WholePackets.antt =====
-- A packet carries its message whole or not at all.
use channel.Base.{
  zero, suc, ℕ, ◌≤◌, ◌<◌, ◌≡◌, refl, sym, ap, ◌∙◌, ◌⊎◌, inl, inr, arith, [], ◌∷◌, append-nil,
  Option, ok, err, ltb, ltb→lt, ltb→ge, length, take, min, true, Bool-cases,
}
use channel.Base.Bytes.{Bytes}
use channel.Io.{contents}
use channel.Message.{Message}
use channel.Wire.{WireError}
use channel.Wire.Marshal.{marshal_v2}
use channel.Wire.Decode.{decode_v2, read_v2-decode}
use channel.Wire.RoundTrip.{IsSendable, received, decode-marshal_v2}
use channel.Wire.Truncation.{decode-truncated}
use channel.Transport.{wire, handed, hand_over, pure_marshal_v2}
use channel.Transport.Packets.{
  DatagramUnderlay, datagram_rx, datagram_tx, datagram_size, read_packet, packet_read_v2, buffer_of,
  ws_rx, ws_tx,
}
use channel.Wire.Seen.{read_v2_message, read_v2_incomplete}

contents-buffer_of : (buf : Bytes) → contents (buffer_of buf) ≡ buf
unfolding buffer_of contents
contents-buffer_of buf = append-nil buf

take-long : (n : ℕ) (bs : Bytes) → length bs ≤ n → take n bs ≡ bs
take-long n [] h = take_nothing n
  where
    take_nothing : (n : ℕ) → take {A = ℕ} n [] ≡ []
    take_nothing zero = refl
    take_nothing (suc n) = refl
take-long zero (b ∷ bs) h = absurd (omega arith)
take-long (suc n) (b ∷ bs) h = ap (◌∷◌ b) (take-long n bs (omega arith))

-- What the first `n` bytes of a marshalled message are read as.
packet_read_v2-take :
    (m : Message) (n : ℕ)
    → IsSendable m
    → ((length (marshal_v2 m).1 ≤ n) × (packet_read_v2 (take n (marshal_v2 m).1) ≡ ok (received m)))
      ⊎ ((n < length (marshal_v2 m).1)
          × ((e : WireError) × (packet_read_v2 (take n (marshal_v2 m).1) ≡ err (wire e))))
unfolding packet_read_v2
packet_read_v2-take m n v =
    let bytes = (marshal_v2 m).1 in
    let packet : Bytes = take n bytes in
    let seen = read_v2-decode (buffer_of packet) ∙ ap decode_v2 (contents-buffer_of packet) in
    elim (Bool-cases (ltb n (length bytes))) [
      | inl cut ↦
          let (e, failed) =
            read_v2_incomplete (buffer_of packet)
              (seen ∙ decode-truncated m n v (ltb→lt _ _ cut)) in
          inr (ltb→lt _ _ cut, (e, rw failed))
      | inr whole ↦
          let all = take-long n bytes (ltb→ge _ _ whole) ∙ sym (append-nil bytes) in
          let (rest, got, _) =
            read_v2_message (buffer_of packet) (received m) []
              (seen ∙ ap decode_v2 all ∙ decode-marshal_v2 m [] v) in
          inl (ltb→ge _ _ whole, rw got)
    ]

-- A message that `Tx` of a datagram underlay hands to the connection, and of which `Read` at the other
-- end gives the first `n` bytes at most: `Rx` returns the message if all of its bytes are among these
-- and no more than 2000, and an error otherwise, never another message. Both underlays read and write
-- version 2, and the message must be such as the format can carry.
pub packet_whole_or_error :
    (sender receiver : DatagramUnderlay) (m : Message) (bytes : Bytes) (e : Option ℕ) (n : ℕ)
    → sender.marshal_f ≡ pure_marshal_v2
    → receiver.read_f ≡ packet_read_v2
    → IsSendable m
    → (datagram_tx e m sender).1 ≡ handed bytes e
    → ((length bytes ≤ min n datagram_size)
        × (datagram_rx (λ size. ok (take (min n size) bytes)) receiver ≡ ok (received m)))
      ⊎ ((min n datagram_size < length bytes)
          × ((x : WireError) × (datagram_rx (λ size. ok (take (min n size) bytes)) receiver
                ≡ err (wire x))))
unfolding datagram_tx datagram_rx read_packet hand_over
packet_whole_or_error sender receiver m bytes e n wv rv v sent =
    let out : handed (marshal_v2 m).1 e ≡ handed bytes e = rw wv at sent in
    let same : (marshal_v2 m).1 ≡ bytes = handed_same (marshal_v2 m).1 bytes e out in
    rw (rv, ← same) (packet_read_v2-take m (min n datagram_size) v)
  where
    handed_same : (xs ys : Bytes) (e : Option ℕ) → handed xs e ≡ handed ys e → xs ≡ ys
    handed_same xs ys e p = cc

-- A message that goes out on a WebSocket as a binary message comes in as it was sent.
pub ws_rx-ws_tx :
    (m : Message) (bytes : Bytes) (e : Option ℕ)
    → IsSendable m
    → (ws_tx e m).1 ≡ handed bytes e
    → ws_rx (ok (true, bytes)) ≡ ok (received m)
unfolding ws_tx ws_rx hand_over
ws_rx-ws_tx m bytes e v sent =
    let same : (marshal_v2 m).1 ≡ bytes = cc in
    let all = take-long (length bytes) bytes (omega arith) in
    elim (packet_read_v2-take m (length bytes) v) [
      | inl (_, got) ↦ rw (same, all) at got
      | inr (short, _) ↦ absurd (omega (arith, ap length same, short))
    ]
