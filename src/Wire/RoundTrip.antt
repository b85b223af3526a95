-- ===== src/Wire/RoundTrip.antt =====
-- A message that `MarshalV2` wrote is read back by `ReadV2`, wherever the network cuts the stream.
use channel.Base.{
  ℕ, ◌+◌, ◌%◌, ◌≤◌, ◌≡◌, refl, ap, ◌∙◌, arith, [], ◌∷◌, ◌++◌, true, Option, none, some, ok,
  if◌then◌else◌, ltb, ltb-false, lt→ltb, length, take, take-append, drop-append, length-append,
}
use channel.Base.Bytes.{Bytes, put_le, get_le-put_le, u32_mod, length-put_le}
use channel.Base.Maps.{insert, lookup-insert_self, insert-Distinct, Distinct, nat_eq}
use channel.Io.{Reader, contents}
use channel.Message.{Headers, Message, reply_for_header, reply_for, cached_reply_for}
use channel.Message.Headers.{put_uint32_header}
use channel.Wire.{magic_v2, max_int32}
use channel.Wire.Marshal.{
  marshal_headers, stamp_reply_for, stamped, frame, marshal_with_version, marshal_v2,
}
use channel.Wire.Read.{unmarshal_headers, unmarshal_data, read_v2}
use channel.Wire.HeaderSection.{
  IsU32, HeadersFit, length-marshal_headers, unmarshal-marshal_headers,
}
use channel.Wire.Decode.{message, observe, decode_data, decode_frame, decode_v2, read_v2-decode}

abbrev ReplyFits : Option ℕ → Type 0
ReplyFits none = Unit {0}
ReplyFits (some val) = IsU32 val

-- A message of the Go program: int32 fields, a header map, and a size that the format can carry.
pub record IsSendable (m : Message) : Type 0 where
  pub content_type : IsU32 m.content_type
  pub sequence : IsU32 m.sequence
  pub reply_for : ReplyFits m.reply_for
  pub headers : HeadersFit m.headers
  pub distinct : Distinct m.headers
  pub size : length (marshal_headers (stamped m).headers) + length m.body ≤ max_int32

-- What arrives: the headers as they were stamped, and no cached reply-for.
unfoldable pub received : Message → Message
unfolding stamped
received m = record m { headers = (stamped m).headers; reply_for = none }

insert-HeadersFit :
    (k : ℕ) (v : Bytes) (headers : Headers)
    → IsU32 k
    → IsU32 (length v)
    → HeadersFit headers
    → HeadersFit (insert k v headers)
unfolding insert
insert-HeadersFit k v [] hk hv fit = (hk, hv, tt)
insert-HeadersFit k v ((j, w) ∷ headers) hk hv (hj, hw, fit) =
    ground (arith, insert-HeadersFit k v headers hk hv fit)

stamp-HeadersFit :
    (o : Option ℕ) (headers : Headers) → HeadersFit headers → HeadersFit (stamp_reply_for o headers)
unfolding stamp_reply_for
stamp-HeadersFit none headers fit = fit
stamp-HeadersFit (some val) headers fit =
    insert-HeadersFit reply_for_header (put_le 4 val) headers (omega arith)
      (omega (arith, length-put_le 4 val)) fit

stamp-Distinct :
    (o : Option ℕ) (headers : Headers) → Distinct headers → Distinct (stamp_reply_for o headers)
unfolding stamp_reply_for
stamp-Distinct none headers d = d
stamp-Distinct (some val) headers d = insert-Distinct reply_for_header (put_le 4 val) headers d

-- The message section: 20 bytes.
unfoldable pub section_of : Message → ℕ → ℕ → Bytes
section_of m headers_length body_length =
    magic_v2
    ++ (put_le 4 m.content_type
        ++ (put_le 4 m.sequence ++ (put_le 4 headers_length ++ put_le 4 body_length)))

headers_of_section :
    (headers : Headers) (h : ℕ) (body : Bytes)
    → h ≡ length (marshal_headers headers)
    → HeadersFit headers
    → Distinct headers
    → (if ltb 0 h then unmarshal_headers (take h (marshal_headers headers ++ body)) else ok [])
      ≡ ok headers
headers_of_section [] h body e fit d = unfold marshal_headers in rw e
headers_of_section ((k, v) ∷ headers) h body e fit d =
    let some_data : ltb 0 h ≡ true =
      lt→ltb 0 h (omega (arith, length-marshal_headers k v headers)) in
    rw (some_data, take-append h (marshal_headers ((k, v) ∷ headers)) body e)
      (unmarshal-marshal_headers ((k, v) ∷ headers) fit d)

unmarshal_data-section :
    (m : Message) (headers : Headers) (h b : ℕ)
    → IsU32 m.content_type
    → IsU32 m.sequence
    → h ≡ length (marshal_headers headers)
    → HeadersFit headers
    → Distinct headers
    → unmarshal_data (section_of m h b) h (marshal_headers headers ++ m.body)
      ≡ ok (record m { headers = headers; reply_for = none })
unfolding unmarshal_data section_of put_le
unmarshal_data-section m headers h b hc hs e fit d = rw (
  headers_of_section headers h m.body e fit d,
  get_le-put_le 4 m.content_type hc,
  get_le-put_le 4 m.sequence hs,
  drop-append h (marshal_headers headers) m.body e,
)

pub decode_frame-section :
    (m : Message) (h b : ℕ) (rest : Bytes)
    → IsU32 h
    → IsU32 b
    → decode_frame (section_of m h b ++ rest) ≡ decode_data (section_of m h b) h b rest
unfolding decode_frame section_of put_le
decode_frame-section m h b rest hh hb = rw (
  ltb-false (length (section_of m h b ++ rest)) 20 (omega arith),
  get_le-put_le 4 h hh,
  get_le-put_le 4 b hb,
)

decode_data-section :
    (m : Message) (headers : Headers) (h b : ℕ) (rest : Bytes)
    → IsU32 m.content_type
    → IsU32 m.sequence
    → h ≡ length (marshal_headers headers)
    → b ≡ length m.body
    → HeadersFit headers
    → Distinct headers
    → h + b ≤ max_int32
    → decode_data (section_of m h b) h b ((marshal_headers headers ++ m.body) ++ rest)
      ≡ message (record m { headers = headers; reply_for = none }) rest
unfolding decode_data
decode_data-section m headers h b rest hc hs eh eb fit d size =
    let both : Bytes = marshal_headers headers ++ m.body in
    let exact : h + b ≡ length both =
      omega (arith, length-append (marshal_headers headers) m.body, eh, eb) in
    rw (
      ltb-false max_int32 (h + b) size,
      ltb-false (length (both ++ rest)) (h + b) (omega (arith, length-append both rest, exact)),
      take-append (h + b) both rest exact,
      unmarshal_data-section m headers h b hc hs eh fit d,
      drop-append (h + b) both rest exact,
    )

pub frame-section :
    (m : Message) (headers_data rest : Bytes)
    → length headers_data + length m.body ≤ max_int32
    → frame m magic_v2 headers_data ++ rest
      ≡ section_of m (length headers_data) (length m.body) ++ ((headers_data ++ m.body) ++ rest)
unfolding frame section_of put_le
frame-section m headers_data rest h =
    let eh : length headers_data % u32_mod ≡ length headers_data = omega arith in
    let eb : length m.body % u32_mod ≡ length m.body = omega arith in rw (eh, eb)

pub decode_v2-magic :
    (m : Message) (h b : ℕ) (rest : Bytes)
    → decode_v2 (section_of m h b ++ rest) ≡ decode_frame (section_of m h b ++ rest)
unfolding decode_v2 section_of put_le
decode_v2-magic m h b rest = rw (ltb-false (length (section_of m h b ++ rest)) 4 (omega arith))

-- The bytes of a marshalled message mean that message, with whatever follows left over.
pub decode-marshal_v2 :
    (m : Message) (rest : Bytes)
    → IsSendable m
    → decode_v2 ((marshal_v2 m).1 ++ rest) ≡ message (received m) rest
unfolding marshal_v2 marshal_with_version received stamped
decode-marshal_v2 m rest v =
    let headers = stamp_reply_for m.reply_for m.headers in
    let h = length (marshal_headers headers) in
    let size : h + length m.body ≤ max_int32 = v.size in
    ap decode_v2 (frame-section m (marshal_headers headers) rest size)
    ∙ decode_v2-magic m h (length m.body) ((marshal_headers headers ++ m.body) ++ rest)
    ∙ decode_frame-section m h (length m.body) ((marshal_headers headers ++ m.body) ++ rest)
        (omega arith) (omega arith)
    ∙ decode_data-section m headers h (length m.body) rest v.content_type v.sequence refl refl
        (stamp-HeadersFit m.reply_for m.headers v.headers)
        (stamp-Distinct m.reply_for m.headers v.distinct) size

-- `ReadV2` on a stream that begins with the bytes of `MarshalV2 m` gives the message, with its
-- content type, sequence, body and stamped headers, and leaves what follows unread, wherever the
-- stream is cut into chunks.
pub read-marshal_v2 :
    (m : Message) (rest : Bytes) (r : Reader)
    → IsSendable m
    → contents r ≡ (marshal_v2 m).1 ++ rest
    → observe (read_v2 r) ≡ message (received m) rest
read-marshal_v2 m rest r v e = read_v2-decode r ∙ ap decode_v2 e ∙ decode-marshal_v2 m rest v

reply_for-stamp :
    (o : Option ℕ) (headers : Headers)
    → ReplyFits o
    → cached_reply_for none (stamp_reply_for o headers) ≡ cached_reply_for o headers
unfolding cached_reply_for stamp_reply_for put_uint32_header
reply_for-stamp none headers fit = refl
reply_for-stamp (some val) headers fit =
    rw (lookup-insert_self reply_for_header (put_le 4 val) headers, length-put_le 4 val)
      (get_le-put_le 4 val fit)

-- A reply still answers the same message after it went over the wire: `ReplyFor` of what arrives is
-- that of what was sent, whether it was cached or only in the headers.
pub reply_for-received : (m : Message) → IsSendable m → reply_for (received m) ≡ reply_for m
unfolding reply_for received stamped
reply_for-received m v = reply_for-stamp m.reply_for m.headers v.reply_for
