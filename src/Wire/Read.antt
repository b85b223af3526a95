-- ===== src/Wire/Read.antt =====
-- Reading: `ReadV2`, `unmarshalV2`, `unmarshalHeaders` and `readUnknownVersionResponse`. The "short
-- read" branches behind a successful ReadFull are not reached, since ReadFull fills its buffer.
use channel.Base.{
  ℕ, zero, suc, ◌+◌, ◌-◌, ◌*◌, List, [], ◌∷◌, ◌++◌, not, ◌&&◌, none, Result, ok, err, ◌>>=◌,
  if◌then◌else◌, ltb, length, take, drop,
}
use channel.Base.Bytes.{Bytes, get_le}
use channel.Base.Maps.{bytes_beq, insert, nat_eq}
use channel.Io.{IoError, Reader, read_at_least, read_full, multi_reader}
use channel.Message.{Headers, Message}
use channel.Wire.{
  WireError, io, bad_magic_number, data_section_too_big, short_data_stream, magic_mismatch,
  truncated_header_data, short_header_meta, short_header_data, channel_synchronization, diverged,
  unsupported_version, slice, magic_length, magic_v2, magic_unknown_version, data_section_v2,
  max_supported_version_count, max_int32, version_len,
}

-- The loop of `unmarshalHeaders`: `data` is `headerData[i:]`, so `i + 8 > len(headerData)` is
-- `len(data) < 8`, and `end > len(headerData)` is `len(data) < 8 + length`.
unfoldable pub unmarshal_headers_loop : ℕ → Bytes → Headers → Result WireError Headers
unmarshal_headers_loop fuel [] out = ok out
unmarshal_headers_loop zero (b ∷ bs) out = err diverged
unmarshal_headers_loop (suc fuel) (b ∷ bs) out =
    let header_data : Bytes = b ∷ bs in
    let key = get_le (slice header_data 0 4) in
    let len = get_le (slice header_data 4 4) in
    let value = slice header_data 8 len in
    let rest = unmarshal_headers_loop fuel (drop (8 + len) header_data) (insert key value out) in
    if ltb (length header_data) 8
    then err short_header_meta
    else if ltb (length header_data) (8 + len)
    then err short_header_data
    else rest

-- Each round takes 8 bytes at least, so `len(headerData)` rounds are enough.
unfoldable pub unmarshal_headers : Bytes → Result WireError Headers
unmarshal_headers header_data =
    if ltb 0 (length header_data) && ltb (length header_data) 8
    then err truncated_header_data
    else unmarshal_headers_loop (length header_data) header_data []

-- A failed read, as an error of this package's functions.
abbrev pub lift_io {ℓ} : {A : Type ℓ} → Result IoError A → Result WireError A
lift_io (ok a) = ok a
lift_io (err e) = err (io e)

-- The part of `unmarshalV2` behind the read of the data section.
unfoldable pub unmarshal_data : Bytes → ℕ → Bytes → Result WireError Message
unmarshal_data section headers_length data_section =
    if ltb (length section) data_section_v2
    then err short_data_stream
    else if not (bytes_beq (slice section 0 magic_length) magic_v2)
    then err magic_mismatch
    else do
      headers ←
          if ltb 0 headers_length
          then unmarshal_headers (take headers_length data_section)
          else ok []
      ok (record {
        content_type = get_le (slice section 4 4);
        sequence = get_le (slice section 8 4);
        reply_for = none;
        headers = headers;
        body = drop headers_length data_section;
      })

unfoldable pub unmarshal_v2 : Bytes → ℕ → ℕ → Reader → Result WireError (Message × Reader)
unmarshal_v2 section headers_length body_length peer =
    let data_section_len = headers_length + body_length in
    if ltb max_int32 data_section_len then err data_section_too_big else do
      (data_section, peer') ← lift_io (read_full data_section_len peer)
      m ← unmarshal_data section headers_length data_section
      ok (m, peer')

-- The loop that takes the version numbers out of their buffer.
unfoldable pub version_numbers : Bytes → List ℕ
version_numbers (a ∷ b ∷ c ∷ d ∷ rest) = get_le (a ∷ b ∷ c ∷ d ∷ []) ∷ version_numbers rest
version_numbers _ = []

unfoldable pub read_versions : ℕ → Reader → WireError
read_versions version_count response =
    if ltb max_supported_version_count version_count
    then channel_synchronization
    else elim (read_full (version_count * version_len) response) [
      | ok (versions_buf, _) ↦ unsupported_version (version_numbers versions_buf)
      | err _ ↦ channel_synchronization
    ]

unfoldable pub read_unknown_version_response : Bytes → Reader → WireError
read_unknown_version_response initial reader =
    elim (read_full version_len (multi_reader initial reader)) [
      | ok (count_buf, response) ↦ read_versions (get_le count_buf) response
      | err _ ↦ channel_synchronization
    ]

-- The rest of the message section, where the first read did not bring it whole.
unfoldable pub fill_section : Bytes → Reader → Result WireError (Bytes × Reader)
fill_section section peer =
    if ltb (length section) data_section_v2
    then (do
      (more, peer') ← lift_io (read_full (data_section_v2 - length section) peer)
      ok (section ++ more, peer'))
    else ok (section, peer)

unfoldable pub read_v2 : Reader → Result WireError (Message × Reader)
read_v2 peer = do
  (first, peer1) ← lift_io (read_at_least magic_length data_section_v2 peer)
  if not (bytes_beq (slice first 0 magic_length) magic_v2)
      then (if bytes_beq (slice first 0 magic_length) magic_unknown_version
          then err (read_unknown_version_response (drop magic_length first) peer1)
          else err bad_magic_number)
      else (do
        (section, peer2) ← fill_section first peer1
        unmarshal_v2 section (get_le (slice section 12 4)) (get_le (slice section 16 4)) peer2)
