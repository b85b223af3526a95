-- ===== src/Transport/Packets.antt =====
-- The underlays whose connection keeps messages apart: DatagramUnderlay of datagram_underlay.go, and
-- Underlay of websockets/ws_underlay.go. None of their operations but `Close` looks at the closed flag.
use channel.Base.{ℕ, [], ◌∷◌, Bool, true, false, Option, none, some, Result, ok, err, if◌then◌else◌}
use channel.Base.Bytes.{Bytes}
use channel.Io.{Reader, eof}
use channel.Message.{Headers, Message}
use channel.Wire.{WireError}
use channel.Wire.Marshal.{marshal_v2_with_raw}
use channel.Wire.Read.{read_v2}
use channel.Transport.{
  UnderlayError, not_binary, foreign, lift_wire, MarshalFunction, PacketFunction, never_fails,
  pure_marshal_v2, MessageStrategy, or_else, marshal_for_version, strategy_marshaller, Sent,
  hand_over, Closing, was_closed, peer_closed,
}

-- `bytes.NewBuffer(buf)`
unfoldable pub buffer_of : Bytes → Reader
buffer_of buf = record { chunks = buf ∷ []; fate = eof }

abbrev pub only_message : Result WireError (Message × Reader) → Result UnderlayError Message
only_message (ok (m, rest)) = ok m
only_message (err e) = lift_wire (err e)

-- `ReadV2` on a buffer; bytes behind the message are not looked at.
unfoldable pub packet_read_v2 : PacketFunction
unfolding buffer_of
packet_read_v2 buf = only_message (read_v2 (buffer_of buf))

pub record DatagramUnderlay : Type 0 where
  pub id : Bytes
  pub connection_id : Bytes
  pub headers : Headers
  pub closed : Bool
  pub read_f : PacketFunction
  pub marshal_f : MarshalFunction

unfoldable pub strategy_packet : Option MessageStrategy → Option PacketFunction
strategy_packet none = none
strategy_packet (some s) = s.packet_producer

unfoldable pub new_datagram_underlay : Option MessageStrategy → ℕ → DatagramUnderlay
unfolding marshal_for_version strategy_marshaller strategy_packet
new_datagram_underlay strategy version = record {
  id = [];
  connection_id = [];
  headers = [];
  closed = false;
  read_f = or_else (strategy_packet strategy) packet_read_v2;
  marshal_f = or_else (strategy_marshaller strategy) (marshal_for_version version);
}

-- `DatagramMessageStrategy`: a packet producer as a strategy.
unfoldable pub datagram_message_strategy : PacketFunction → MessageStrategy
datagram_message_strategy f = record {
  marshaller = some (λ (m : Message). never_fails (marshal_v2_with_raw m));
  stream_producer = none;
  packet_producer = some f;
}

unfoldable pub init_datagram : Bytes → Bytes → Headers → DatagramUnderlay → DatagramUnderlay
init_datagram id connection_id headers u = record u {
  id = id;
  connection_id = connection_id;
  headers = headers;
}

abbrev pub datagram_size : ℕ
datagram_size = 2000

unfoldable pub read_packet : DatagramUnderlay → Result ℕ Bytes → Result UnderlayError Message
read_packet u (ok buf) = u.read_f buf
read_packet u (err e) = err (foreign e)

-- `Rx`, with what the connection's `Read` does with a buffer of a given size.
unfoldable pub datagram_rx : (ℕ → Result ℕ Bytes) → DatagramUnderlay → Result UnderlayError Message
unfolding read_packet
datagram_rx peer_read u = read_packet u (peer_read datagram_size)

-- `rxHello` is `Rx`.
unfoldable pub datagram_rx_hello :
    (ℕ → Result ℕ Bytes) → DatagramUnderlay → Result UnderlayError Message
unfolding datagram_rx
datagram_rx_hello peer_read u = datagram_rx peer_read u

unfoldable pub datagram_tx : Option ℕ → Message → DatagramUnderlay → Message × Sent
unfolding hand_over
datagram_tx write_error m u = let r = u.marshal_f m in (r.0, hand_over write_error r.1)

unfoldable pub close_datagram : Option ℕ → DatagramUnderlay → DatagramUnderlay × Closing
close_datagram close_error u =
    if u.closed then (u, was_closed) else (record u { closed = true }, peer_closed close_error)

-- What `ReadMessage` of the WebSocket gives: whether its type is BinaryMessage, and its data.
unfoldable pub ws_rx : Result ℕ (Bool × Bytes) → Result UnderlayError Message
unfolding packet_read_v2
ws_rx (err e) = err (foreign e)
ws_rx (ok (is_binary, bytes)) = if is_binary then packet_read_v2 bytes else err not_binary

-- `Tx`; the data goes out as a BinaryMessage.
unfoldable pub ws_tx : Option ℕ → Message → Message × Sent
unfolding hand_over
ws_tx write_error m = let r = pure_marshal_v2 m in (r.0, hand_over write_error r.1)
