-- ===== src/Trace/Replay.antt =====
-- trace/read.go: `Read`, which hands the records of a file to a handler. Each `f.Read` is one read of
-- the file, which may deliver less than the buffer takes; a negative length makes `make` panic. A
-- handler is given by what it answers to each of its calls.
use channel.Base.{
  ℕ, zero, suc, ◌+◌, ◌^◌, ◌==◌, List, [], ◌∷◌, Option, none, some, Result, ok, err, if◌then◌else◌,
  ltb, leb, length, take, drop,
}
use channel.Base.Bytes.{Bytes, get_le}
use channel.Io.{IoError, eof, Reader}
use channel.Trace.{
  ChannelState, ChannelMessage, Traced, state, carried, channel_state_type, channel_message_type,
}
use channel.Trace.Records.{Encoding}

pub data ReadEnd : Type 0 where
  finished : ReadEnd  -- nil is returned
  file_error : IoError → ReadEnd
  short_read unexpected_message : ReadEnd
  unmarshal_error handler_error : ℕ → ReadEnd
  panicked : ReadEnd
  diverged : ReadEnd  -- no Go result: the fuel ran out

pub record Replayed : Type 0 where
  pub handled : List Traced
  pub ended : ReadEnd

-- One `Read` of an os.File with a buffer of `size` bytes.
unfoldable pub read_once : ℕ → Reader → Result IoError (Bytes × Reader)
read_once zero r = ok ([], r)
read_once (suc k) r = elim r.chunks [
  | [] ↦ err r.fate
  | c ∷ cs ↦
      if ltb (suc k) (length c)
      then ok (take (suc k) c, record r { chunks = drop (suc k) c ∷ cs })
      else ok (c, record r { chunks = cs })
]

-- A read that must fill its buffer.
unfoldable pub read_exact : ℕ → Reader → Result ReadEnd (Bytes × Reader)
read_exact size r = elim (read_once size r) [
  | err e ↦ err (file_error e)
  | ok (bs, rest) ↦ if length bs == size then ok (bs, rest) else err short_read
]

-- The end of the file before a record is the end of the trace.
unfoldable pub is_end : ReadEnd → ReadEnd
is_end (file_error eof) = finished
is_end e = e

-- The length and the data of a record. A length with the sign bit is negative.
unfoldable pub read_encoded : Reader → Result ReadEnd (Bytes × Reader)
read_encoded r = elim (read_exact 4 r) [
  | err e ↦ err e
  | ok (len_data, rest) ↦
      let len = get_le len_data in if leb (2 ^ 31) len then err panicked else read_exact len rest
]

abbrev pub lift_unmarshal {ℓ} : {A : Type ℓ} → (A → Traced) → Result ℕ A → Result ReadEnd Traced
lift_unmarshal f (ok a) = ok (f a)
lift_unmarshal f (err e) = err (unmarshal_error e)

module _ (states : Encoding ChannelState) (messages : Encoding ChannelMessage) where
  unfoldable pub unmarshal_traced : ℕ → Bytes → Result ReadEnd Traced
  unmarshal_traced message_type encoded =
      if message_type == channel_state_type
      then lift_unmarshal state (states.unmarshal encoded)
      else if message_type == channel_message_type
      then lift_unmarshal carried (messages.unmarshal encoded)
      else err unexpected_message

  -- What a turn of the loop reads: a record and the rest of the file.
  unfoldable pub read_record : Reader → Result ReadEnd (Traced × Reader)
  read_record r = elim (read_exact 4 r) [
    | err e ↦ err (is_end e)
    | ok (type_data, r1) ↦ elim (read_encoded r1) [
      | err e ↦ err e
      | ok (encoded, r2) ↦ elim (unmarshal_traced (get_le type_data) encoded) [
        | err e ↦ err e
        | ok t ↦ ok (t, r2)
      ]
    ]
  ]

  -- The loop, with what the handler answers to its `n`-th call.
  unfoldable pub trace_loop : ℕ → ℕ → (ℕ → Traced → Option ℕ) → Reader → Replayed
  trace_loop zero n handle r = record { handled = []; ended = diverged }
  trace_loop (suc fuel) n handle r = elim (read_record r) [
    | err e ↦ record { handled = []; ended = e }
    | ok (t, rest) ↦
        let more = trace_loop fuel (n + 1) handle rest in
        elim (handle n t) [
          | some e ↦ record { handled = t ∷ []; ended = handler_error e }
          | none ↦ record more { handled = t ∷ more.handled }
        ]
  ]

  -- `Read`, given what opening the file answers.
  unfoldable pub read_trace : ℕ → (ℕ → Traced → Option ℕ) → Result IoError Reader → Replayed
  unfolding trace_loop
  read_trace fuel handle (err e) = record { handled = []; ended = file_error e }
  read_trace fuel handle (ok r) = trace_loop fuel 0 handle r
