-- ===== src/Tests/Trace.antt =====
-- The trace files with encodings that put the fields they need into bytes.
use channel.Base.{
  ℕ, ◌≡◌, ◌==◌, refl, arith, List, [], ◌∷◌, Bool, true, false, none, ok, err, Result, length,
}
use channel.Base.Bytes.{Bytes}
use channel.Trace.{ChannelState, ChannelMessage, Traced, state, WriterAnswer}
use channel.Trace.Records.{Encoding}
use channel.Trace.Replay.{read_trace, finished}
use channel.Trace.RoundTrip.{file, trace_of, read-written_trace}

-- Records without texts: their numbers and flags, each as one entry.
abbrev encode_state : Bytes → Bytes → Bytes → ℕ → Bool → Result ℕ Bytes
encode_state [] [] [] t true = ok (t ∷ 1 ∷ [])
encode_state [] [] [] t false = ok (t ∷ 0 ∷ [])
encode_state _ _ _ _ _ = err 1

abbrev state_at : ℕ → Bool → ChannelState
state_at t connected = record {
  timestamp = t;
  identity = [];
  channel_label = [];
  connected = connected;
  remote_address = [];
}

abbrev decode_state : Bytes → Result ℕ ChannelState
decode_state (t ∷ c ∷ []) = ok (state_at t (c == 1))
decode_state _ = err 2

state_law :
    (identity label remote : Bytes) (t : ℕ) (connected : Bool) (bs : Bytes)
    → encode_state identity label remote t connected ≡ ok bs
    → decode_state bs
      ≡ ok (record {
        timestamp = t;
        identity = identity;
        channel_label = label;
        connected = connected;
        remote_address = remote;
      })
state_law [] [] [] t true bs e = ground arith
state_law [] [] [] t false bs e = ground arith
state_law (x ∷ xs) _ _ t connected bs e = absurd (cc)
state_law [] (x ∷ xs) _ t connected bs e = absurd (cc)
state_law [] [] (x ∷ xs) t connected bs e = absurd (cc)

abbrev states : Encoding ChannelState
states = record {
  marshal = λ s. encode_state s.identity s.channel_label s.remote_address s.timestamp s.connected;
  unmarshal = decode_state;
  unmarshal-marshal =
      λ s. state_law s.identity s.channel_label s.remote_address s.timestamp s.connected;
}

-- A file of states only.
abbrev messages : Encoding ChannelMessage
messages = record {
  marshal = λ t. err 1;
  unmarshal = λ bs. err 2;
  unmarshal-marshal = λ t bs e. absurd (cc);
}

abbrev records : List Traced
records = state (state_at 12 true) ∷ state (state_at 15 false) ∷ []

abbrev writer : Bytes → WriterAnswer
writer bs = record { taken = length bs; error = none }

read-written_trace_example :
    read_trace states messages 3 (λ i t. none) (ok (file (trace_of states messages writer records)))
    ≡ record { handled = records; ended = finished }
read-written_trace_example =
    read-written_trace states messages records writer 3 (λ i t. none)
      ((12 ∷ 1 ∷ [], refl, omega arith), ((15 ∷ 0 ∷ [], refl, omega arith), tt)) (λ i t. refl)
      (omega arith)
