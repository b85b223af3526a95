-- ===== src/Codec/Accessors.antt =====
-- message.go: the accessors of `Headers` for string slices and the two map types. What they read is
-- none where the header is missing, and otherwise what its decoder returns.
use channel.Base.{
  ℕ, ◌≤◌, ◌≡◌, ◌≢◌, refl, ap, ◌∙◌, sym, List, Option, none, some, Result, ok, All, length,
}
use channel.Base.Bytes.{Bytes}
use channel.Base.Maps.{
  Map, Distinct, lookup, insert, lookup-insert_self, lookup-insert_ne, nat_eq, bytes_eq,
}
use channel.Message.{Headers, Message, reply_for_header}
use channel.Message.Headers.{put_uint32_header}
use channel.Wire.Marshal.{stamp_reply_for, stamped}
use channel.Wire.RoundTrip.{received}
use channel.Codec.{
  CodecError, max_entries, encode_string_slice, decode_string_slice, encode_u32_to_bytes_map,
  decode_u32_to_bytes_map, encode_string_to_string_map, decode_string_to_string_map,
}
use channel.Codec.Strings.{FitsString, decode-encode_string_slice}
use channel.Codec.Maps.{
  FitU32Entries, FitStringEntries, decode-encode_u32_to_bytes_map,
  decode-encode_string_to_string_map,
}

abbrev decoded :
    {A : Type 0} → (Bytes → Result CodecError A) → Option Bytes → Option (Result CodecError A)
decoded decode none = none
decoded decode (some encoded) = some (decode encoded)

unfoldable pub put_string_slice_header : ℕ → List Bytes → Headers → Headers
put_string_slice_header key s h = insert key (encode_string_slice s) h

unfoldable pub get_string_slice_header : ℕ → Headers → Option (Result CodecError (List Bytes))
get_string_slice_header key h = decoded decode_string_slice (lookup key h)

unfoldable pub put_u32_to_bytes_map_header : ℕ → Map ℕ Bytes → Headers → Headers
put_u32_to_bytes_map_header key m h = insert key (encode_u32_to_bytes_map m) h

unfoldable pub get_u32_to_bytes_map_header : ℕ → Headers → Option (Result CodecError (Map ℕ Bytes))
get_u32_to_bytes_map_header key h = decoded decode_u32_to_bytes_map (lookup key h)

unfoldable pub put_string_to_string_map_header : ℕ → Map Bytes Bytes → Headers → Headers
put_string_to_string_map_header key m h = insert key (encode_string_to_string_map m) h

unfoldable pub get_string_to_string_map_header :
    ℕ → Headers → Option (Result CodecError (Map Bytes Bytes))
get_string_to_string_map_header key h = decoded decode_string_to_string_map (lookup key h)

abbrev pub with_headers : Headers → Message → Message
with_headers h m = record m { headers = h }

-- Marshalling touches the reply-for header only.
lookup-stamp_reply_for :
    (key : ℕ) (o : Option ℕ) (h : Headers)
    → key ≢ reply_for_header
    → lookup key (stamp_reply_for o h) ≡ lookup key h
unfolding stamp_reply_for put_uint32_header
lookup-stamp_reply_for key none h other = refl
lookup-stamp_reply_for key (some val) h other =
    lookup-insert_ne reply_for_header key _ h (λ e. other (sym e))

lookup-received :
    (key : ℕ) (v : Bytes) (m : Message)
    → key ≢ reply_for_header
    → lookup key (received (with_headers (insert key v m.headers) m)).headers ≡ some v
unfolding received stamped
lookup-received key v m other =
    lookup-stamp_reply_for key m.reply_for (insert key v m.headers) other
    ∙ lookup-insert_self key v m.headers

module _ (key : ℕ) (other : key ≢ reply_for_header) (m : Message) where
  string_slice_arrives :
      (ss : List Bytes)
      → All FitsString ss
      → length ss ≤ max_entries
      → get_string_slice_header key
          (received (with_headers (put_string_slice_header key ss m.headers) m)).headers
        ≡ some (ok ss)
  unfolding put_string_slice_header get_string_slice_header
  string_slice_arrives ss fit h =
      ap (decoded decode_string_slice) (lookup-received key (encode_string_slice ss) m other)
      ∙ ap some (decode-encode_string_slice ss fit h)

  u32_map_arrives :
      (us : Map ℕ Bytes)
      → FitU32Entries us
      → Distinct us
      → length us ≤ max_entries
      → get_u32_to_bytes_map_header key
          (received (with_headers (put_u32_to_bytes_map_header key us m.headers) m)).headers
        ≡ some (ok us)
  unfolding put_u32_to_bytes_map_header get_u32_to_bytes_map_header
  u32_map_arrives us fit d h =
      ap (decoded decode_u32_to_bytes_map)
        (lookup-received key (encode_u32_to_bytes_map us) m other)
      ∙ ap some (decode-encode_u32_to_bytes_map us fit d h)

  string_map_arrives :
      (sm : Map Bytes Bytes)
      → FitStringEntries sm
      → Distinct sm
      → length sm ≤ max_entries
      → get_string_to_string_map_header key
          (received (with_headers (put_string_to_string_map_header key sm m.headers) m)).headers
        ≡ some (ok sm)
  unfolding put_string_to_string_map_header get_string_to_string_map_header
  string_map_arrives sm fit d h =
      ap (decoded decode_string_to_string_map)
        (lookup-received key (encode_string_to_string_map sm) m other)
      ∙ ap some (decode-encode_string_to_string_map sm fit d h)

-- A list of strings, a map from numbers to bytes and a map of strings that are put into a header, other
-- than the reply-for header, are read back by the peer from the message as it arrives, the headers
-- stamped: as long as the lists and maps, their strings and values keep to the limits of the encodings.
pub structured_headers_arrive :
    (key : ℕ) (m : Message) (ss : List Bytes) (us : Map ℕ Bytes) (sm : Map Bytes Bytes)
    → key ≢ reply_for_header
    → All FitsString ss
    → length ss ≤ max_entries
    → FitU32Entries us
    → Distinct us
    → length us ≤ max_entries
    → FitStringEntries sm
    → Distinct sm
    → length sm ≤ max_entries
    → (get_string_slice_header key
          (received (with_headers (put_string_slice_header key ss m.headers) m)).headers
        ≡ some (ok ss))
      × (get_u32_to_bytes_map_header key
            (received (with_headers (put_u32_to_bytes_map_header key us m.headers) m)).headers
          ≡ some (ok us))
      × (get_string_to_string_map_header key
            (received (with_headers (put_string_to_string_map_header key sm m.headers) m)).headers
          ≡ some (ok sm))
structured_headers_arrive key m ss us sm other fs ns fu du nu fm dm nm = (
  string_slice_arrives key other m ss fs ns,
  u32_map_arrives key other m us fu du nu,
  string_map_arrives key other m sm fm dm nm,
)
