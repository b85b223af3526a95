-- ===== src/Wire/Limits.antt =====
-- How much a message may claim: the bounds of `unmarshalV2`, and the tighter ones of `readHelloV2`.
use channel.Base.{
  ℕ, ◌+◌, ◌≤◌, ◌≡◌, ◌≢◌, ◌∙◌, arith, ◌++◌, Bool, not, ◌||◌, ok, if◌then◌else◌, ltb, ltb→lt, ltb→ge,
  length, take, drop, length-drop, length-take, Bool-cases, inl, inr,
}
use channel.Base.Bytes.{Bytes, get_le}
use channel.Base.Maps.{bytes_beq}
use channel.Io.{Reader, contents}
use channel.Io.Segments.{read_full_ok, read_full_short}
use channel.Message.{Message}
use channel.Wire.{WireError, io, bad_magic_number, hello_too_big, slice, magic_v2, max_int32}
use channel.Wire.Read.{unmarshal_data, read_v2}
use channel.Wire.Hello.{read_hello_v2, read_hello, max_hello_headers, max_hello_body}
use channel.Wire.Decode.{
  Decoded, message, refused, incomplete, report, observe, decode_data, decode_frame, decode_v2,
  decode_versions, unmarshal_v2-decode, read_v2-decode,
}

-- What `readHello` accepts, as a function of the bytes.
unfoldable pub decode_hello : Bytes → Decoded
decode_hello bs =
    let section = magic_v2 ++ take 16 (drop 4 bs) in
    let headers_length = get_le (slice section 12 4) in
    let body_length = get_le (slice section 16 4) in
    if ltb (length bs) 4
    then incomplete
    else if not (bytes_beq (take 4 bs) magic_v2)
    then refused bad_magic_number
    else if ltb (length (drop 4 bs)) 16
    then incomplete
    else if ltb max_hello_headers headers_length || ltb max_hello_body body_length
    then refused hello_too_big
    else decode_data section headers_length body_length (drop 16 (drop 4 bs))

abbrev hello_section : Bytes → Bytes
hello_section bs = magic_v2 ++ take 16 (drop 4 bs)

abbrev too_big : Bytes → Bool
too_big bs =
    ltb max_hello_headers (get_le (slice (hello_section bs) 12 4))
    || ltb max_hello_body (get_le (slice (hello_section bs) 16 4))

-- The hello reader, too, gives what the bytes alone mean, however the stream is cut.
pub read_hello-decode : (r : Reader) → observe (read_hello r) ≡ decode_hello (contents r)
unfolding read_hello read_hello_v2 decode_hello
read_hello-decode r = elim (Bool-cases (ltb (length (contents r)) 4)) [
  | inl short ↦ let (e, failed) = read_full_short 4 r (ltb→lt _ _ short) in rw (short, failed)
  | inr long ↦
      let (r1, done, rest, _) = read_full_ok 4 r (ltb→ge _ _ long) in
      elim (Bool-cases (bytes_beq (take 4 (contents r)) magic_v2)) [
        | inr bad ↦ rw (long, done, bad)
        | inl v2 ↦ elim (Bool-cases (ltb (length (drop 4 (contents r))) 16)) [
          | inl short ↦
              let (e, failed) = read_full_short 16 r1 (rw rest (ltb→lt _ _ short)) in
              rw (long, done, v2, short, failed)
          | inr whole ↦
              let (r2, done', rest', _) = read_full_ok 16 r1 (rw rest (ltb→ge _ _ whole)) in
              elim (Bool-cases (too_big (contents r))) [
                | inl big ↦ rw (long, done, v2, whole, done', rest, big)
                | inr fits ↦
                    rw (long, done, v2, whole, done', rest, fits)
                      (unmarshal_v2-decode _ _ _ r2 ∙ rw (rest', rest))
              ]
        ]
      ]
]

unmarshal_data_body :
    (section : Bytes) (h : ℕ) (bytes : Bytes) (m : Message)
    → unmarshal_data section h bytes ≡ ok m
    → m.body ≡ drop h bytes
unfolding unmarshal_data
unmarshal_data_body section h bytes m e = ground arith

pub report-ne-message : (e : WireError) (m : Message) (rest : Bytes) → report e ≢ message m rest
report-ne-message (io x) m rest = λ p. cc
report-ne-message _ m rest = λ p. cc

decode_data_size :
    (section : Bytes) (h b : ℕ) (bs rest : Bytes) (m : Message)
    → decode_data section h b bs ≡ message m rest
    → (length bs ≡ h + b + length rest) × (h + b ≤ max_int32) × (length m.body ≤ b)
unfolding decode_data
decode_data_size section h b bs rest m e =
    let n = h + b in
    ground (
      arith,
      length-take n bs,
      length-drop n bs,
      length-drop h (take n bs),
      unmarshal_data_body section h (take n bs) m,
      λ (x : WireError). report-ne-message x m rest,
    )

-- A message that was read took from the stream its 20-byte section and a data section of at most
-- MaxInt32 bytes, and no byte more; its body lies within what it took.
pub read_v2_bounds :
    (r : Reader) (m : Message) (rest : Bytes)
    → observe (read_v2 r) ≡ message m rest
    → (length rest + 20 + length m.body ≤ length (contents r))
      × (length (contents r) ≤ length rest + 20 + max_int32)
unfolding decode_v2 decode_frame
read_v2_bounds r m rest e =
    let bs = contents r in
    let section = take 20 bs in
    let h = get_le (slice section 12 4) in
    let b = get_le (slice section 16 4) in
    ground (
      arith,
      read_v2-decode r,
      length-drop 20 bs,
      decode_data_size section h b (drop 20 bs) rest m,
      report-ne-message (decode_versions (drop 4 bs)) m rest,
    )

-- A hello that was accepted has a body of at most 4192 bytes, and took at most 16384 bytes of headers.
pub read_hello_bounds :
    (r : Reader) (m : Message) (rest : Bytes)
    → observe (read_hello r) ≡ message m rest
    → (length m.body ≤ max_hello_body)
      × (length (contents r) ≤ length rest + 20 + max_hello_headers + max_hello_body)
unfolding decode_hello
read_hello_bounds r m rest e =
    let bs = contents r in
    let section = hello_section bs in
    let h = get_le (slice section 12 4) in
    let b = get_le (slice section 16 4) in
    let tail = drop 16 (drop 4 bs) in
    ground (
      arith,
      read_hello-decode r,
      length-drop 4 bs,
      length-drop 16 (drop 4 bs),
      decode_data_size section h b tail rest m,
    )
