-- ===== src/Trace/Records.antt =====
-- The protobuf encodings of the two records, with what the trace files rely on: what was marshalled is
-- unmarshalled again.
use channel.Base.{ℕ, ◌≡◌, Result, ok}
use channel.Base.Bytes.{Bytes}
use channel.Trace.{
  ChannelState, ChannelMessage, Traced, state, carried, channel_state_type, channel_message_type,
  WriterAnswer, TraceWrite, write_frame,
}

-- `proto.Marshal` and `proto.Unmarshal`.
pub record Encoding (A : Type 0) : Type 0 where
  pub marshal : A → Result ℕ Bytes
  pub unmarshal : Bytes → Result ℕ A
  pub unmarshal-marshal : (a : A) (bs : Bytes) → marshal a ≡ ok bs → unmarshal bs ≡ ok a

module _ (states : Encoding ChannelState) (messages : Encoding ChannelMessage) where
  unfoldable pub write_channel_state : ChannelState → (Bytes → WriterAnswer) → TraceWrite
  unfolding write_frame
  write_channel_state s writer = write_frame channel_state_type writer (states.marshal s)

  unfoldable pub write_channel_message : ChannelMessage → (Bytes → WriterAnswer) → TraceWrite
  unfolding write_frame
  write_channel_message t writer = write_frame channel_message_type writer (messages.marshal t)

  unfoldable pub write_traced : Traced → (Bytes → WriterAnswer) → TraceWrite
  unfolding write_channel_state write_channel_message
  write_traced (state s) writer = write_channel_state s writer
  write_traced (carried t) writer = write_channel_message t writer
