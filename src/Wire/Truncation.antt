-- ===== src/Wire/Truncation.antt =====
-- A stream or a packet that breaks off within a message of message.go's format.
use channel.Base.{
  ℕ, ◌+◌, ◌-◌, ◌≤◌, ◌<◌, ◌≡◌, refl, ap, ◌∙◌, sym, arith, [], ◌++◌, append-nil, ltb, ltb-false,
  lt→ltb, ltb→lt, ltb→ge, length, take, length-take, length-append, take-append_ge, Bool-cases, inl,
  inr,
}
use channel.Base.Bytes.{Bytes, put_le}
use channel.Message.{Message}
use channel.Wire.{magic_v2, max_int32}
use channel.Wire.Marshal.{marshal_headers, stamped, marshal_with_version, marshal_v2}
use channel.Wire.Decode.{incomplete, decode_data, decode_frame, decode_v2}
use channel.Wire.RoundTrip.{
  IsSendable, section_of, frame-section, decode_v2-magic, decode_frame-section,
}

decode_short : (bs : Bytes) → length bs < 4 → decode_v2 bs ≡ incomplete
unfolding decode_v2
decode_short bs h = rw (lt→ltb (length bs) 4 h)

decode_short_section : (bs : Bytes) → length bs < 16 → decode_v2 (magic_v2 ++ bs) ≡ incomplete
unfolding decode_v2 decode_frame
decode_short_section bs h = rw (
  ltb-false (length (magic_v2 ++ bs)) 4 (omega arith),
  lt→ltb (length (magic_v2 ++ bs)) 20 (omega arith),
)

decode_short_data :
    (section : Bytes) (h b : ℕ) (rest : Bytes)
    → h + b ≤ max_int32
    → length rest < h + b
    → decode_data section h b rest ≡ incomplete
unfolding decode_data
decode_short_data section h b rest size short =
    rw (ltb-false max_int32 (h + b) size, lt→ltb (length rest) (h + b) short)

length-section_of : (m : Message) (h b : ℕ) → length (section_of m h b) ≡ 20
unfolding section_of put_le
length-section_of m h b = refl

take_section :
    (m : Message) (h b n : ℕ) (rest : Bytes)
    → 4 ≤ n
    → n < 20
    → decode_v2 (take n (section_of m h b ++ rest)) ≡ incomplete
unfolding section_of
take_section m h b n rest lo hi =
    let tail : Bytes =
      (put_le 4 m.content_type ++ (put_le 4 m.sequence ++ (put_le 4 h ++ put_le 4 b))) ++ rest in
    ap decode_v2 (take-append_ge n magic_v2 tail lo)
    ∙ decode_short_section (take (n - 4) tail) (omega (arith, length-take (n - 4) tail))

take_data :
    (m : Message) (h b n : ℕ) (bytes : Bytes)
    → h + b ≤ max_int32
    → length bytes ≡ h + b
    → 20 ≤ n
    → n < 20 + length bytes
    → decode_v2 (take n (section_of m h b ++ bytes)) ≡ incomplete
take_data m h b n bytes size whole lo hi =
    let section = section_of m h b in
    let part : Bytes = take (n - 20) bytes in
    let long = length-section_of m h b in
    let cut : take n (section ++ bytes) ≡ section ++ part =
      rw long at (take-append_ge n section bytes (omega (arith, long))) in
    ap decode_v2 cut
    ∙ decode_v2-magic m h b part
    ∙ decode_frame-section m h b part (omega arith) (omega arith)
    ∙ decode_short_data section h b part size (omega (arith, length-take (n - 20) bytes))

marshal_v2-section :
    (m : Message)
    → IsSendable m
    → (marshal_v2 m).1
      ≡ section_of m (length (marshal_headers (stamped m).headers)) (length m.body)
        ++ (marshal_headers (stamped m).headers ++ m.body)
unfolding marshal_v2 marshal_with_version stamped
marshal_v2-section m v =
    let headers_data = marshal_headers (stamped m).headers in
    sym (append-nil (marshal_v2 m).1)
    ∙ frame-section m headers_data [] v.size
    ∙ ap (λ (bs : Bytes). section_of m (length headers_data) (length m.body) ++ bs)
        (append-nil (headers_data ++ m.body))

-- A marshalled message that is cut off anywhere is taken for a message that has not ended, never for
-- another message and never for a malformed one.
pub decode-truncated :
    (m : Message) (n : ℕ)
    → IsSendable m
    → n < length (marshal_v2 m).1
    → decode_v2 (take n (marshal_v2 m).1) ≡ incomplete
decode-truncated m n v short =
    let headers_data = marshal_headers (stamped m).headers in
    let h = length headers_data in
    let b = length m.body in
    let section = section_of m h b in
    let bytes : Bytes = headers_data ++ m.body in
    let whole = marshal_v2-section m v in
    let cut = ap (λ (bs : Bytes). decode_v2 (take n bs)) whole in
    let total = length-append section bytes in
    let long = length-section_of m h b in
    elim (Bool-cases (ltb n 4)) [
      | inl few ↦
          decode_short (take n (marshal_v2 m).1)
            (omega (arith, length-take n (marshal_v2 m).1, ltb→lt _ _ few))
      | inr some4 ↦ elim (Bool-cases (ltb n 20)) [
        | inl few ↦ cut ∙ take_section m h b n bytes (ltb→ge _ _ some4) (ltb→lt _ _ few)
        | inr enough ↦
            cut
            ∙ take_data m h b n bytes v.size (length-append headers_data m.body) (ltb→ge _ _ enough)
                (omega (arith, short, ap length whole, total, long))
      ]
    ]
