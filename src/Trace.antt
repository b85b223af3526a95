-- ===== src/Trace.antt =====
-- trace.go, trace/write.go and trace/read.go: the handler that peeks at a channel's messages, and the
-- file that it writes. The protobuf encodings are not under this repository and are parameters; so are
-- the file and the decoders.
pub mod Records
pub mod Replay
pub mod RoundTrip
pub mod Decoding
use channel.Base.{
  ℕ, ◌%◌, ◌==◌, List, [], ◌∷◌, ◌++◌, Bool, true, false, not, Option, none, some, Result, ok, err,
  if◌then◌else◌, length,
}
use channel.Base.Bytes.{Bytes, put_le, u32_mod}
use channel.Message.{Message, reply_for}

-- The messages of trace.proto. An int32 or int64 is its bit pattern.
pub record ChannelState : Type 0 where
  pub timestamp : ℕ
  pub identity : Bytes
  pub channel_label : Bytes
  pub connected : Bool
  pub remote_address : Bytes

pub record ChannelMessage : Type 0 where
  pub timestamp : ℕ
  pub identity : Bytes
  pub channel_label : Bytes
  pub is_rx : Bool
  pub content_type : ℕ
  pub sequence : ℕ
  pub reply_for : ℕ
  pub length : ℕ
  pub decode : Bytes

pub data Traced : Type 0 where
  state : ChannelState → Traced
  carried : ChannelMessage → Traced

abbrev pub channel_state_type : ℕ
channel_state_type = 0

abbrev pub channel_message_type : ℕ
channel_message_type = 1

-- The loop over the decoders: the text of the first that knows the message, else nil.
unfoldable pub first_decode : List (Message → Bytes × Bool) → Message → Bytes
first_decode [] m = []
first_decode (d ∷ ds) m = let rest = first_decode ds m in let r = d m in if r.1 then r.0 else rest

-- The record that `writeChannelMessage` makes.
unfoldable pub channel_message :
    Bytes → Bytes → List (Message → Bytes × Bool) → ℕ → Message → Bool → ChannelMessage
unfolding first_decode reply_for
channel_message identity label decoders now m rx = record {
  timestamp = now;
  identity = identity;
  channel_label = label;
  is_rx = rx;
  content_type = m.content_type;
  sequence = m.sequence;
  reply_for = reply_for m;
  length = length m.body % u32_mod;
  decode = first_decode decoders m;
}

-- The records of `Connect` and `Close`.
unfoldable pub connect_state : Bytes → Bytes → ℕ → Bytes → ChannelState
connect_state identity label now remote_address = record {
  timestamp = now;
  identity = identity;
  channel_label = label;
  connected = true;
  remote_address = remote_address;
}

unfoldable pub close_state : Bytes → Bytes → ℕ → ChannelState
close_state identity label now = record {
  timestamp = now;
  identity = identity;
  channel_label = label;
  connected = false;
  remote_address = [];
}

pub data TraceError : Type 0 where
  marshal_error write_error : ℕ → TraceError
  short_write : TraceError

-- What is handed to the writer, and the error that the function returns.
pub record TraceWrite : Type 0 where
  pub handed : Bytes
  pub error : Option TraceError

-- What the writer answers: how many bytes it took, and its error.
pub record WriterAnswer : Type 0 where
  pub taken : ℕ
  pub error : Option ℕ

-- Type, length and data.
unfoldable pub trace_frame : ℕ → Bytes → Bytes
trace_frame message_type encoded =
    put_le 4 message_type ++ (put_le 4 (length encoded % u32_mod) ++ encoded)

unfoldable pub writer_error : Bytes → WriterAnswer → Option TraceError
writer_error out answer = elim answer.error [
  | some e ↦ some (write_error e)
  | none ↦ if answer.taken == length out then none else some short_write
]

unfoldable pub write_frame : ℕ → (Bytes → WriterAnswer) → Result ℕ Bytes → TraceWrite
unfolding writer_error
write_frame message_type writer (err e) = record { handed = []; error = some (marshal_error e) }
write_frame message_type writer (ok encoded) =
    let out = trace_frame message_type encoded in
    record { handed = out; error = writer_error out (writer out) }
