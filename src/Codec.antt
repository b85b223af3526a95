-- ===== src/Codec.antt =====
-- message.go: the length-prefixed encodings of string slices and of maps, kept in header values. A
-- Go string is its bytes; nil and an empty slice are both []. The encoders fill a buffer whose
-- length they compute first; here the parts are concatenated, and `Codec.Lengths` shows that the
-- computed length is the one that is filled.
pub mod Strings
pub mod Maps
pub mod Lengths
pub mod Accessors
use channel.Base.{
  ℕ, zero, suc, ◌+◌, ◌*◌, ◌%◌, List, [], ◌∷◌, ◌++◌, Result, ok, err, ◌>>=◌, if◌then◌else◌, ltb,
  ◌==◌, length, take, drop,
}
use channel.Base.Bytes.{Bytes, put_le, get_le, u32_mod}
use channel.Base.Maps.{Map, insert, nat_eq, bytes_eq}

abbrev pub max_string : ℕ
max_string = 8192

abbrev pub max_entries : ℕ
max_entries = 128

pub data CodecError : Type 0 where
  short_string_length long_string short_string : CodecError
  short_slice_length too_many_strings : CodecError
  short_map_length too_many_entries short_key short_entry_length long_entry short_entry : CodecError

unfoldable pub decode_string : Bytes → Result CodecError (Bytes × Bytes)
decode_string b =
    let sl = get_le (take 4 b) in
    let rest = drop 4 b in
    if ltb (length b) 4
    then err short_string_length
    else if ltb max_string sl
    then err long_string
    else if ltb (length rest % u32_mod) sl
    then err short_string
    else ok (drop sl rest, take sl rest)

-- One string behind its length.
unfoldable pub encode_string : Bytes → Bytes
encode_string s = put_le 4 (length s % u32_mod) ++ s

unfoldable pub encode_strings : List Bytes → Bytes
encode_strings [] = []
encode_strings (s ∷ ss) = encode_string s ++ encode_strings ss

unfoldable pub encode_string_slice : List Bytes → Bytes
encode_string_slice [] = []
encode_string_slice (s ∷ ss) = put_le 4 (length (s ∷ ss) % u32_mod) ++ encode_strings (s ∷ ss)

-- The loop over the `n` strings that are still to come.
unfoldable pub decode_strings : ℕ → Bytes → Result CodecError (List Bytes)
decode_strings zero b = ok []
decode_strings (suc n) b = do
  (b', s) ← decode_string b
  result ← decode_strings n b'
  ok (s ∷ result)

unfoldable pub decode_string_slice : Bytes → Result CodecError (List Bytes)
decode_string_slice [] = ok []
decode_string_slice (x ∷ xs) =
    let b : Bytes = x ∷ xs in
    let l = get_le (take 4 b) in
    if ltb (length b) 4
    then err short_slice_length
    else if ltb max_entries l
    then err too_many_strings
    else decode_strings l (drop 4 b)

unfoldable pub encode_u32_entries : Map ℕ Bytes → Bytes
encode_u32_entries [] = []
encode_u32_entries ((k, v) ∷ m) =
    put_le 4 k ++ (put_le 4 (length v % u32_mod) ++ (v ++ encode_u32_entries m))

unfoldable pub encode_u32_to_bytes_map : Map ℕ Bytes → Bytes
encode_u32_to_bytes_map [] = []
encode_u32_to_bytes_map (e ∷ m) = put_le 4 (length (e ∷ m) % u32_mod) ++ encode_u32_entries (e ∷ m)

-- One entry: its key, its value and what follows. An entry of length 0 takes no bytes for its value.
unfoldable pub decode_u32_entry : Bytes → Result CodecError (ℕ × Bytes × Bytes)
decode_u32_entry b =
    let key = get_le (take 4 b) in
    let b1 = drop 4 b in
    let entry_len = get_le (take 4 b1) in
    let b2 = drop 4 b1 in
    if ltb (length b) 4
    then err short_key
    else if ltb (length b1) 4
    then err short_entry_length
    else if ltb max_string entry_len
    then err long_entry
    else if ltb (length b2 % u32_mod) entry_len
    then err short_entry
    else if entry_len == 0
    then ok (key, [], b2)
    else ok (key, take entry_len b2, drop entry_len b2)

unfoldable pub decode_u32_entries : ℕ → Bytes → Map ℕ Bytes → Result CodecError (Map ℕ Bytes)
decode_u32_entries zero b result = ok result
decode_u32_entries (suc n) b result = do
  (key, value, b') ← decode_u32_entry b
  decode_u32_entries n b' (insert key value result)

unfoldable pub decode_u32_to_bytes_map : Bytes → Result CodecError (Map ℕ Bytes)
decode_u32_to_bytes_map [] = ok []
decode_u32_to_bytes_map (x ∷ xs) =
    let b : Bytes = x ∷ xs in
    let l = get_le (take 4 b) in
    if ltb (length b) 4
    then err short_map_length
    else if ltb max_entries l
    then err too_many_entries
    else decode_u32_entries l (drop 4 b) []

unfoldable pub encode_string_entries : Map Bytes Bytes → Bytes
encode_string_entries [] = []
encode_string_entries ((k, v) ∷ m) = encode_string k ++ (encode_string v ++ encode_string_entries m)

unfoldable pub encode_string_to_string_map : Map Bytes Bytes → Bytes
encode_string_to_string_map [] = []
encode_string_to_string_map (e ∷ m) =
    put_le 4 (length (e ∷ m) % u32_mod) ++ encode_string_entries (e ∷ m)

unfoldable pub decode_string_entries :
    ℕ → Bytes → Map Bytes Bytes → Result CodecError (Map Bytes Bytes)
decode_string_entries zero b result = ok result
decode_string_entries (suc n) b result = do
  (b1, key) ← decode_string b
  (b2, val) ← decode_string b1
  decode_string_entries n b2 (insert key val result)

unfoldable pub decode_string_to_string_map : Bytes → Result CodecError (Map Bytes Bytes)
decode_string_to_string_map [] = ok []
decode_string_to_string_map (x ∷ xs) =
    let b : Bytes = x ∷ xs in
    let l = get_le (take 4 b) in
    if ltb (length b) 4
    then err short_map_length
    else if ltb max_entries l
    then err too_many_entries
    else decode_string_entries l (drop 4 b) []
