-- ===== src/Wire/Decode.antt =====
-- What a V2 peer's bytes mean, as a function of the bytes alone, and `ReadV2` against it: the code
-- reads from a stream that the network cuts into chunks as it likes.
use channel.Base.{
  ℕ, ◌+◌, ◌-◌, ◌*◌, ◌≤◌, ◌<◌, ◌≡◌, refl, sym, ap, ◌∙◌, arith, ◌++◌, not, Result, ok, err, ◌>>=◌,
  if◌then◌else◌, ltb, ltb→lt, ltb→ge, lt→ltb, length, take, drop, take-append_le, take-append,
  drop-append, drop-append_le, take-append_ge, drop-append_ge, length-append, Bool-cases,
  Result-cases, inl, inr,
}
use channel.Base.Bytes.{Bytes, get_le}
use channel.Base.Maps.{bytes_beq}
use channel.Io.{IoError, Reader, contents, multi_reader}
use channel.Io.Segments.{read_at_least_ok, read_at_least_short, read_full_ok, read_full_short}
use channel.Message.{Message}
use channel.Wire.{
  WireError, io, bad_magic_number, data_section_too_big, channel_synchronization,
  unsupported_version, slice, magic_length, magic_v2, magic_unknown_version, data_section_v2,
  max_supported_version_count, max_int32, version_len,
}
use channel.Wire.Read.{
  unmarshal_data, unmarshal_v2, version_numbers, read_versions, read_unknown_version_response,
  fill_section, read_v2,
}

-- A message with the bytes that follow it, a refusal, or bytes that end too early.
pub data Decoded : Type 0 where
  message : Message → Bytes → Decoded
  refused : WireError → Decoded
  incomplete : Decoded

abbrev pub report : WireError → Decoded
report (io e) = incomplete
report e = refused e

abbrev pub observe : Result WireError (Message × Reader) → Decoded
observe (ok (m, r)) = message m (contents r)
observe (err e) = report e

unfoldable pub decode_data : Bytes → ℕ → ℕ → Bytes → Decoded
decode_data section headers_length body_length rest =
    let n = headers_length + body_length in
    if ltb max_int32 n
    then refused data_section_too_big
    else if ltb (length rest) n
    then incomplete
    else elim (unmarshal_data section headers_length (take n rest)) [
      | ok m ↦ message m (drop n rest)
      | err e ↦ report e
    ]

unfoldable pub decode_frame : Bytes → Decoded
decode_frame bs =
    let section = take data_section_v2 bs in
    if ltb (length bs) data_section_v2
    then incomplete
    else decode_data section (get_le (slice section 12 4)) (get_le (slice section 16 4))
        (drop data_section_v2 bs)

unfoldable pub decode_versions : Bytes → WireError
decode_versions bs =
    let n = get_le (take version_len bs) in
    let rest = drop version_len bs in
    if ltb (length bs) version_len
    then channel_synchronization
    else if ltb max_supported_version_count n
    then channel_synchronization
    else if ltb (length rest) (n * version_len)
    then channel_synchronization
    else unsupported_version (version_numbers (take (n * version_len) rest))

unfoldable pub decode_v2 : Bytes → Decoded
decode_v2 bs =
    if ltb (length bs) magic_length
    then incomplete
    else if not (bytes_beq (take magic_length bs) magic_v2)
    then (if bytes_beq (take magic_length bs) magic_unknown_version
        then report (decode_versions (drop magic_length bs))
        else refused bad_magic_number)
    else decode_frame bs

pub unmarshal_v2-decode :
    (section : Bytes) (headers_length body_length : ℕ) (r : Reader)
    → observe (unmarshal_v2 section headers_length body_length r)
      ≡ decode_data section headers_length body_length (contents r)
unfolding unmarshal_v2 decode_data
unmarshal_v2-decode section h b r = elim (Bool-cases (ltb max_int32 (h + b))) [
  | inl big ↦ rw big
  | inr fits ↦ elim (Bool-cases (ltb (length (contents r)) (h + b))) [
    | inl short ↦
        let (e, failed) = read_full_short (h + b) r (ltb→lt _ _ short) in rw (fits, short, failed)
    | inr whole ↦
        let (r', done, rest, _) = read_full_ok (h + b) r (ltb→ge _ _ whole) in
        elim (Result-cases (unmarshal_data section h (take (h + b) (contents r)))) [
          | inl (m, parsed) ↦ rw (fits, whole, done, parsed, rest)
          | inr (e, failed) ↦ rw (fits, whole, done, failed)
        ]
  ]
]

fill_section_ok :
    (first bs : Bytes) (r : Reader)
    → first ++ contents r ≡ bs
    → length first ≤ 20
    → 20 ≤ length bs
    → (r' : Reader) × (fill_section first r ≡ ok (take 20 bs, r')) × (contents r' ≡ drop 20 bs)
unfolding fill_section
fill_section_ok first bs r e fits h = elim (Bool-cases (ltb (length first) 20)) [
  | inl part ↦
      let lt = ltb→lt _ _ part in
      let total = length-append first (contents r) in
      let k : ℕ = 20 - length first in
      let (r', done, rest, _) = read_full_ok k r (omega (arith, total, ap length e)) in
      let front : first ++ take k (contents r) ≡ take 20 bs =
        rw (← e) (sym (take-append_ge 20 first (contents r) (omega arith))) in
      let back : drop k (contents r) ≡ drop 20 bs =
        rw (← e) (sym (drop-append_ge 20 first (contents r) (omega arith))) in
      (r', rw (part, done, ← front), rest ∙ back)
  | inr full ↦
      let exact : 20 ≡ length first = omega (arith, ltb→ge _ _ full) in
      let front : first ≡ take 20 bs = rw (← e) (sym (take-append 20 first (contents r) exact)) in
      let back : contents r ≡ drop 20 bs =
        rw (← e) (sym (drop-append 20 first (contents r) exact)) in
      (r, rw full (ap (λ (x : Bytes). ok (x, r)) front), back)
]

fill_section_short :
    (first bs : Bytes) (r : Reader)
    → first ++ contents r ≡ bs
    → length bs < 20
    → (e : IoError) × (fill_section first r ≡ err (io e))
unfolding fill_section
fill_section_short first bs r e h =
    let total = length-append first (contents r) in
    let size : length first + length (contents r) < 20 = omega (arith, total, ap length e) in
    let (x, failed) = read_full_short (20 - length first) r (omega arith) in
    (x, rw (lt→ltb (length first) 20 (omega arith), failed))

-- The rest of a frame, once its magic is known to be that of V2.
read_frame-decode :
    (first : Bytes) (r r1 : Reader)
    → first ++ contents r1 ≡ contents r
    → length first ≤ 20
    → observe (do
      (section, r2) ← fill_section first r1
      unmarshal_v2 section (get_le (slice section 12 4)) (get_le (slice section 16 4)) r2)
      ≡ decode_frame (contents r)
unfolding decode_frame
read_frame-decode first r r1 whole fits = elim (Bool-cases (ltb (length (contents r)) 20)) [
  | inl short ↦
      let (e, failed) = fill_section_short first (contents r) r1 whole (ltb→lt _ _ short) in
      rw (short, failed)
  | inr long ↦
      let (r2, done, rest) = fill_section_ok first (contents r) r1 whole fits (ltb→ge _ _ long) in
      rw (long, done, ← rest) (unmarshal_v2-decode (take 20 (contents r)) _ _ r2)
]

contents-multi_reader :
    (initial : Bytes) (r : Reader) → contents (multi_reader initial r) ≡ initial ++ contents r
unfolding contents multi_reader
contents-multi_reader initial r = refl

read_versions-decode :
    (n : ℕ) (r : Reader)
    → read_versions n r ≡ (
        if ltb max_supported_version_count n
        then channel_synchronization
        else if ltb (length (contents r)) (n * version_len)
        then channel_synchronization
        else unsupported_version (version_numbers (take (n * version_len) (contents r))))
unfolding read_versions
read_versions-decode n r = elim (Bool-cases (ltb (length (contents r)) (n * version_len))) [
  | inl short ↦
      let (e, failed) = read_full_short (n * version_len) r (ltb→lt _ _ short) in rw (short, failed)
  | inr whole ↦
      let (r', done, _, _) = read_full_ok (n * version_len) r (ltb→ge _ _ whole) in rw (whole, done)
]

read_unknown-decode :
    (initial bs : Bytes) (r : Reader)
    → initial ++ contents r ≡ bs
    → read_unknown_version_response initial r ≡ decode_versions bs
unfolding read_unknown_version_response decode_versions
read_unknown-decode initial bs r e =
    let all = contents-multi_reader initial r ∙ e in
    elim (Bool-cases (ltb (length bs) version_len)) [
      | inl short ↦
          let (x, failed) =
            read_full_short version_len (multi_reader initial r) (rw all (ltb→lt _ _ short)) in
          rw (short, failed, read_unknown_version_response)
      | inr long ↦
          let (r', done, rest, _) =
            read_full_ok version_len (multi_reader initial r) (rw all (ltb→ge _ _ long)) in
          rw (long, done, read_unknown_version_response)
            (read_versions-decode _ r' ∙ rw (rest, all))
    ]

-- `ReadV2` on a stream, however it is cut into chunks, gives what its bytes alone mean: the message
-- and the unread rest, the refusal, or the report that the bytes end too early.
pub read_v2-decode : (r : Reader) → observe (read_v2 r) ≡ decode_v2 (contents r)
unfolding read_v2 decode_v2
read_v2-decode r = elim (Bool-cases (ltb (length (contents r)) 4)) [
  | inl short ↦
      let (e, failed) = read_at_least_short 4 20 r (omega arith) (ltb→lt _ _ short) in
      rw (short, failed)
  | inr long ↦
      let (first, r1, done, d) = read_at_least_ok 4 20 r (omega arith) (ltb→ge _ _ long) in
      let magic : take 4 (contents r) ≡ take 4 first =
        rw (← d.whole) (take-append_le 4 first (contents r1) d.enough) in
      let tail : drop 4 first ++ contents r1 ≡ drop 4 (contents r) =
        rw (← d.whole) (sym (drop-append_le 4 first (contents r1) d.enough)) in
      elim (Bool-cases (bytes_beq (take 4 first) magic_v2)) [
        | inl v2 ↦ rw (long, done, magic, v2) (read_frame-decode first r r1 d.whole d.fits)
        | inr other ↦ elim (Bool-cases (bytes_beq (take 4 first) magic_unknown_version)) [
          | inl unknown ↦
              rw (long, done, magic, other, unknown)
                (ap report (read_unknown-decode (drop 4 first) _ r1 tail))
          | inr bad ↦ rw (long, done, magic, other, bad)
        ]
      ]
]
