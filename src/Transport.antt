-- ===== src/Transport.antt =====
-- The underlays that carry messages over a connection: classicImpl, existingConnImpl and wsImpl, whose
-- stream operations are the same code (classic_impl.go, existing_conn_impl.go, ws_impl.go). The
-- connection is not under this repository: what it delivers is a Reader, and what its Write and Close
-- answer is an argument, an error being a number.
pub mod Packets
pub mod WholePackets
use channel.Base.{
  ℕ, ◌==◌, [], Bool, true, false, Option, none, some, Result, ok, err, if◌then◌else◌,
}
use channel.Base.Bytes.{Bytes}
use channel.Io.{Reader}
use channel.Message.{Headers, Message}
use channel.Wire.{WireError}
use channel.Wire.Marshal.{marshal_v2, marshal_v3}
use channel.Wire.Read.{read_v2}
use channel.Wire.Hello.{read_hello}

pub data UnderlayError : Type 0 where
  underlay_closed not_binary : UnderlayError
  wire : WireError → UnderlayError
  -- An error of the connection, or of a message strategy.
  foreign : ℕ → UnderlayError

abbrev pub lift_wire {ℓ} : {A : Type ℓ} → Result WireError A → Result UnderlayError A
lift_wire (ok a) = ok a
lift_wire (err e) = err (wire e)

-- `readFunction` and `marshalFunction`. Marshalling may change the message, which it is handed as a
-- pointer. Where a read fails, what remains of the stream is not said.
abbrev pub ReadFunction : Type 0
ReadFunction = Reader → Result UnderlayError (Message × Reader)

abbrev pub MarshalFunction : Type 0
MarshalFunction = Message → Message × Result UnderlayError Bytes

abbrev pub PacketFunction : Type 0
PacketFunction = Bytes → Result UnderlayError Message

abbrev pub stream_read_v2 : ReadFunction
stream_read_v2 r = lift_wire (read_v2 r)

abbrev pub never_fails : Message × Bytes → Message × Result UnderlayError Bytes
never_fails (m, frame) = (m, ok frame)

abbrev pub pure_marshal_v2 : MarshalFunction
pure_marshal_v2 m = never_fails (marshal_v2 m)

abbrev pub pure_marshal_v3 : MarshalFunction
pure_marshal_v3 m = never_fails (marshal_v3 m)

-- What a `MessageStrategy` answers; nil is `none`.
pub record MessageStrategy : Type 0 where
  pub marshaller : Option MarshalFunction
  pub stream_producer : Option ReadFunction
  pub packet_producer : Option PacketFunction

pub record StreamUnderlay : Type 0 where
  pub id : Bytes
  pub connection_id : Bytes
  pub headers : Headers
  pub closed : Bool
  pub read_f : ReadFunction
  pub marshal_f : MarshalFunction

abbrev pub or_else {ℓ} : {A : Type ℓ} → Option A → A → A
or_else none a = a
or_else (some b) a = b

unfoldable pub marshal_for_version : ℕ → MarshalFunction
marshal_for_version version = if version == 3 then pure_marshal_v3 else pure_marshal_v2

unfoldable pub strategy_marshaller : Option MessageStrategy → Option MarshalFunction
strategy_marshaller none = none
strategy_marshaller (some s) = s.marshaller

unfoldable pub strategy_stream : Option MessageStrategy → Option ReadFunction
strategy_stream none = none
strategy_stream (some s) = s.stream_producer

unfoldable pub new_classic_impl : Option MessageStrategy → ℕ → StreamUnderlay
unfolding marshal_for_version strategy_marshaller strategy_stream
new_classic_impl strategy version = record {
  id = [];
  connection_id = [];
  headers = [];
  closed = false;
  read_f = or_else (strategy_stream strategy) stream_read_v2;
  marshal_f = or_else (strategy_marshaller strategy) (marshal_for_version version);
}

-- `newExistingImpl`; every version is read by `ReadV2`, and only version 3 is written otherwise.
unfoldable pub new_existing_impl : ℕ → StreamUnderlay
unfolding marshal_for_version
new_existing_impl version = record {
  id = [];
  connection_id = [];
  headers = [];
  closed = false;
  read_f = stream_read_v2;
  marshal_f = marshal_for_version version;
}

unfoldable pub new_ws_impl : ℕ → StreamUnderlay
unfolding marshal_for_version
new_ws_impl version = record {
  id = [];
  connection_id = [];
  headers = [];
  closed = false;
  read_f = stream_read_v2;
  marshal_f = marshal_for_version version;
}

-- `init`
unfoldable pub init_underlay : Bytes → Bytes → Headers → StreamUnderlay → StreamUnderlay
init_underlay id connection_id headers u = record u {
  id = id;
  connection_id = connection_id;
  headers = headers;
}

-- `rxHello`: the functions of `readHello` replace those of the constructor, whatever was read.
unfoldable pub rx_hello :
    Reader → StreamUnderlay → StreamUnderlay × Result UnderlayError (Message × Reader)
rx_hello peer u =
    (record u { read_f = stream_read_v2; marshal_f = pure_marshal_v2 }, lift_wire (read_hello peer))

-- `Rx`, from the stream of the peer.
unfoldable pub stream_rx : Reader → StreamUnderlay → Result UnderlayError (Message × Reader)
stream_rx peer u = if u.closed then err underlay_closed else u.read_f peer

-- How far `Tx` gets: data that is handed to `Write` comes with what `Write` returns.
pub data Sent : Type 0 where
  not_sent : UnderlayError → Sent
  handed : Bytes → Option ℕ → Sent

unfoldable pub hand_over : Option ℕ → Result UnderlayError Bytes → Sent
hand_over write_error (ok frame) = handed frame write_error
hand_over write_error (err e) = not_sent e

-- `Tx`, with what a `Write` of the peer would return. The message comes back as marshalling left it.
unfoldable pub stream_tx : Option ℕ → Message → StreamUnderlay → Message × Sent
unfolding hand_over
stream_tx write_error m u =
    let r = u.marshal_f m in
    if u.closed then (m, not_sent underlay_closed) else (r.0, hand_over write_error r.1)

-- The error that `Tx` returns.
unfoldable pub tx_error : Sent → Option UnderlayError
tx_error (not_sent e) = some e
tx_error (handed frame none) = none
tx_error (handed frame (some e)) = some (foreign e)

-- `Close`: the peer is closed by the call that sets the flag, and by no other.
pub data Closing : Type 0 where
  was_closed : Closing
  peer_closed : Option ℕ → Closing

unfoldable pub close_stream : Option ℕ → StreamUnderlay → StreamUnderlay × Closing
close_stream close_error u =
    if u.closed then (u, was_closed) else (record u { closed = true }, peer_closed close_error)
