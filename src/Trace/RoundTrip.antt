-- ===== src/Trace/RoundTrip.antt =====
-- What the trace functions write to a file, `Read` gives back.
use channel.Base.{
  ℕ, zero, suc, ◌+◌, ◌%◌, ◌^◌, ◌<◌, ◌≡◌, refl, ap, ◌∙◌, sym, arith, List, [], ◌∷◌, ◌++◌,
  append_assoc, append-nil, Option, none, Result, ok, All, ltb, leb, length, take-append,
  drop-append, length-append, ltb-false, lt→ltb, false, ==_iff,
}
use channel.Base.Bytes.{Bytes, put_le, get_le, get_le-put_le, u32_mod, length-put_le}
use channel.Io.{eof, Reader}
use channel.Trace.{
  ChannelState, ChannelMessage, Traced, state, carried, channel_state_type, channel_message_type,
  WriterAnswer, trace_frame, write_frame,
}
use channel.Trace.Records.{Encoding, write_channel_state, write_channel_message, write_traced}
use channel.Trace.Replay.{
  finished, read_once, read_exact, is_end, read_encoded, unmarshal_traced, read_record, trace_loop,
  read_trace,
}

-- A file whose reads deliver all that the buffer takes.
abbrev pub file : Bytes → Reader
file [] = record { chunks = []; fate = eof }
file (b ∷ bs) = record { chunks = (b ∷ bs) ∷ []; fate = eof }

read_once-file :
    (size : ℕ) (xs ys : Bytes)
    → size ≡ length xs
    → read_once size (file (xs ++ ys)) ≡ ok (xs, file ys)
unfolding read_once
read_once-file zero [] ys e = refl
read_once-file zero (x ∷ xs) ys e = absurd (omega arith)
read_once-file (suc k) [] ys e = absurd (omega arith)
read_once-file (suc k) (x ∷ xs) [] e =
    let all = append-nil xs in
    let last : ltb (suc k) (length (x ∷ xs)) ≡ _ =
      ltb-false (suc k) (length (x ∷ xs)) (omega (arith, e)) in
    rw (all, last) refl
read_once-file (suc k) (x ∷ xs) (y ∷ ys) e =
    let more =
      lt→ltb (suc k) (length ((x ∷ xs) ++ (y ∷ ys)))
        (omega (arith, e, length-append (x ∷ xs) (y ∷ ys))) in
    rw (more, take-append (suc k) (x ∷ xs) (y ∷ ys) e, drop-append (suc k) (x ∷ xs) (y ∷ ys) e)

read_exact-file :
    (size : ℕ) (xs ys : Bytes)
    → size ≡ length xs
    → read_exact size (file (xs ++ ys)) ≡ ok (xs, file ys)
unfolding read_exact
read_exact-file size xs ys e =
    let exact = (==_iff (length xs) size).1 (sym e) in
    rw (read_once-file size xs ys e, read_exact, exact)

read_encoded-file :
    (encoded rest : Bytes)
    → length encoded < 2 ^ 31
    → read_encoded (file (put_le 4 (length encoded) ++ (encoded ++ rest))) ≡ ok (encoded, file rest)
unfolding read_encoded
read_encoded-file encoded rest h =
    let len = length encoded in
    rw (
      read_exact-file 4 (put_le 4 len) (encoded ++ rest) (sym (length-put_le 4 len)),
      read_encoded,
      get_le-put_le 4 len (omega (arith, h)),
      leb-false (2 ^ 31) len h,
      read_exact-file len encoded rest refl,
    )
  where
    leb-false : (a b : ℕ) → b < a → leb a b ≡ false
    leb-false a b h = ground arith

module _ (states : Encoding ChannelState) (messages : Encoding ChannelMessage) where
  abbrev encoding_of : Traced → Result ℕ Bytes
  encoding_of (state s) = states.marshal s
  encoding_of (carried t) = messages.marshal t

  abbrev type_of : Traced → ℕ
  type_of (state s) = channel_state_type
  type_of (carried t) = channel_message_type

  -- The record can be marshalled, to less than 2 GiB.
  abbrev pub IsTraceable : Traced → Type 0
  IsTraceable t = (bs : Bytes) × (encoding_of t ≡ ok bs) × (length bs < 2 ^ 31)

  -- What is handed to the writer for records, one after the other.
  abbrev pub trace_of : (Bytes → WriterAnswer) → List Traced → Bytes
  trace_of writer [] = []
  trace_of writer (t ∷ ts) = (write_traced states messages t writer).handed ++ trace_of writer ts

  unmarshal-encoding :
      (t : Traced) (bs : Bytes)
      → encoding_of t ≡ ok bs
      → unmarshal_traced states messages (type_of t) bs ≡ ok t
  unfolding unmarshal_traced
  unmarshal-encoding (state s) bs e = rw (states.unmarshal-marshal s bs e)
  unmarshal-encoding (carried t) bs e = rw (messages.unmarshal-marshal t bs e)

  handed-write_traced :
      (t : Traced) (bs : Bytes) (writer : Bytes → WriterAnswer)
      → encoding_of t ≡ ok bs
      → (write_traced states messages t writer).handed ≡ trace_frame (type_of t) bs
  unfolding write_traced write_channel_state write_channel_message write_frame
  handed-write_traced (state s) bs writer e = rw e
  handed-write_traced (carried t) bs writer e = rw e

  type_of_u32 : (t : Traced) → get_le (put_le 4 (type_of t)) ≡ type_of t
  type_of_u32 (state s) = get_le-put_le 4 0 (omega arith)
  type_of_u32 (carried t) = get_le-put_le 4 1 (omega arith)

  read_record-frame :
      (t : Traced) (bs rest : Bytes)
      → encoding_of t ≡ ok bs
      → length bs < 2 ^ 31
      → read_record states messages (file (trace_frame (type_of t) bs ++ rest)) ≡ ok (t, file rest)
  unfolding read_record trace_frame
  read_record-frame t bs rest e h =
      let size : length bs % u32_mod ≡ length bs = omega (arith, h) in
      let header : Bytes = put_le 4 (type_of t) in
      let tail : Bytes = put_le 4 (length bs) ++ (bs ++ rest) in
      let layout : (header ++ (put_le 4 (length bs) ++ bs)) ++ rest ≡ header ++ tail =
        append_assoc header (put_le 4 (length bs) ++ bs) rest
        ∙ ap (◌++◌ header) (append_assoc (put_le 4 (length bs)) bs rest) in
      rw (
        size,
        layout,
        read_exact-file 4 header tail (sym (length-put_le 4 (type_of t))),
        read_record,
        read_encoded-file bs rest h,
        type_of_u32 t,
        unmarshal-encoding t bs e,
      )

  trace_loop-trace_of :
      (ts : List Traced) (writer : Bytes → WriterAnswer) (fuel n : ℕ)
      (handle : ℕ → Traced → Option ℕ)
      → All IsTraceable ts
      → ((i : ℕ) (t : Traced) → handle i t ≡ none)
      → length ts < fuel
      → trace_loop states messages fuel n handle (file (trace_of writer ts))
        ≡ record { handled = ts; ended = finished }
  unfolding trace_loop
  trace_loop-trace_of ts writer zero n handle fit quiet enough = absurd (omega arith)
  trace_loop-trace_of [] writer (suc fuel) n handle fit quiet enough =
      unfold read_record read_exact read_once is_end in refl
  trace_loop-trace_of (t ∷ ts) writer (suc fuel) n handle ((bs, e, h), fit) quiet enough =
      let frame = handed-write_traced t bs writer e in
      let step = read_record-frame t bs (trace_of writer ts) e h in
      let rest = trace_loop-trace_of ts writer fuel (n + 1) handle fit quiet (omega arith) in
      rw (frame, step, trace_loop, quiet n t, rest)

  -- The records that were written to a file, of channel states and of messages in any order, are handed
  -- to the handler of `Read` in that order, each once, and `Read` returns without an error: on a file
  -- that delivers what a read asks for, with a handler that takes every record, for records that can be
  -- marshalled to less than 2 GiB. It takes one turn for each record and one more.
  pub read-written_trace :
      (ts : List Traced) (writer : Bytes → WriterAnswer) (fuel : ℕ) (handle : ℕ → Traced → Option ℕ)
      → All IsTraceable ts
      → ((i : ℕ) (t : Traced) → handle i t ≡ none)
      → length ts < fuel
      → read_trace states messages fuel handle (ok (file (trace_of writer ts)))
        ≡ record { handled = ts; ended = finished }
  unfolding read_trace
  read-written_trace ts writer fuel handle fit quiet enough =
      trace_loop-trace_of ts writer fuel 0 handle fit quiet enough
