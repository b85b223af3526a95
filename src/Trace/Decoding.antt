-- ===== src/Trace/Decoding.antt =====
-- decoder.go and trace_decode.go: what the decoder of the built-in messages shows of a message in a
-- trace, and the text of it. The JSON encoding and the text of a number are parameters; a JSON error is
-- only logged.
pub mod Shown
use channel.Base.{
  ℕ, ◌-◌, ◌+◌, ◌==◌, List, [], ◌∷◌, ◌++◌, Bool, true, false, not, ◌&&◌, ◌||◌, Option, none, some,
  map, if◌then◌else◌, ltb, length,
}
use channel.Base.Bytes.{Bytes}
use channel.Base.Maps.{Map, lookup, insert, bytes_eq, bytes_beq, is_none}
use channel.Message.{Headers, Message}
use channel.Message.Headers.{get_uint64_header}
use channel.Message.Keys.{
  content_type_hello, content_type_result, content_type_latency, content_type_latency_response,
  content_type_heartbeat,
}
use channel.Handshake.{codes, unmarshal_hello, unmarshal_result}

-- A value of the map, before it is JSON and as it is read back.
pub data FieldValue : Type 0 where
  text : Bytes → FieldValue
  truth : Bool → FieldValue
  number : ℕ → FieldValue
  headers_field : Headers → FieldValue

abbrev pub TraceMessageDecode : Type 0
TraceMessageDecode = Map Bytes FieldValue

abbrev pub decoder_field_name : Bytes
decoder_field_name = codes "__decoder__"

abbrev pub message_field_name : Bytes
message_field_name = codes "__message__"

abbrev pub content_type_ping : ℕ
content_type_ping = 1

unfoldable pub new_trace_message_decode : Bytes → Bytes → TraceMessageDecode
unfolding insert
new_trace_message_decode decoder message =
    insert message_field_name (text message) (insert decoder_field_name (text decoder) [])

abbrev channel_meta : Bytes → TraceMessageDecode
channel_meta message = new_trace_message_decode (codes "channel") message

unfoldable pub hello_fields : Message → TraceMessageDecode
unfolding new_trace_message_decode insert unmarshal_hello
hello_fields msg =
    let hello = unmarshal_hello msg in
    insert (codes "headers") (headers_field hello.headers)
      (insert (codes "id") (text hello.id_token) (channel_meta (codes "Hello")))

-- `found && value != ""`
abbrev is_not_empty : Option FieldValue → Bool
is_not_empty none = false
is_not_empty (some (text [])) = false
is_not_empty (some _) = true

unfoldable pub result_fields : Message → TraceMessageDecode
unfolding new_trace_message_decode insert lookup unmarshal_result
result_fields msg =
    let result = unmarshal_result msg in
    let meta = insert (codes "success") (truth result.success) (channel_meta (codes "Result")) in
    if is_not_empty (lookup (codes "message") meta)
    then insert (codes "message") (text result.message) meta
    else meta

unfoldable pub probe_fields : Bytes → Message → TraceMessageDecode
unfolding new_trace_message_decode insert get_uint64_header
probe_fields name msg =
    insert (codes "probeTime") (number (get_uint64_header 128 msg.headers).0) (channel_meta name)

-- The fields that the decoder finds, none for a message of another type.
unfoldable pub fields_of : Message → Option TraceMessageDecode
unfolding hello_fields result_fields probe_fields new_trace_message_decode
fields_of msg =
    if msg.content_type == content_type_hello
    then some (hello_fields msg)
    else if msg.content_type == content_type_ping
    then some (channel_meta (codes "Ping"))
    else if msg.content_type == content_type_result
    then some (result_fields msg)
    else if msg.content_type == content_type_latency
    then some (probe_fields (codes "Latency") msg)
    else if msg.content_type == content_type_latency_response
    then some (probe_fields (codes "LatencyResponse") msg)
    else if msg.content_type == content_type_heartbeat
    then some (channel_meta (codes "Heartbeat"))
    else none

module _ (marshal : TraceMessageDecode → Option Bytes) where
  -- `MarshalResult`, and how each case of `Decode` ends.
  unfoldable pub marshal_result : TraceMessageDecode → Option Bytes × Bool
  marshal_result meta = (marshal meta, true)

  abbrev decode_result : Option TraceMessageDecode → Option Bytes × Bool
  decode_result none = (none, false)
  decode_result (some meta) = marshal_result meta

  -- `Decode`
  unfoldable pub decode : Message → Option Bytes × Bool
  unfolding fields_of marshal_result
  decode msg = decode_result (fields_of msg)

-- The order of Go strings.
unfoldable pub string_le : Bytes → Bytes → Bool
string_le [] ys = true
string_le (x ∷ xs) [] = false
string_le (x ∷ xs) (y ∷ ys) =
    let rest = string_le xs ys in if ltb x y then true else ((x == y) && rest)

-- `sort.Strings`, by insertion.
unfoldable pub put_in_order : Bytes → List Bytes → List Bytes
unfolding string_le
put_in_order k [] = k ∷ []
put_in_order k (j ∷ js) =
    let rest = put_in_order k js in if string_le k j then k ∷ j ∷ js else j ∷ rest

unfoldable pub sort_strings : List Bytes → List Bytes
unfolding put_in_order
sort_strings [] = []
sort_strings (k ∷ ks) = put_in_order k (sort_strings ks)

-- The keys of the map but for those of the decoder and the message.
unfoldable pub other_keys : TraceMessageDecode → List Bytes
other_keys [] = []
other_keys ((k, v) ∷ meta) =
    let rest = other_keys meta in
    if bytes_beq k decoder_field_name || bytes_beq k message_field_name then rest else k ∷ rest

-- `number_text`, `type_text` and `padded` are the verbs `%0.0f`, `%s` of a type and `%-24s` of fmt, and
-- `other_text` is its `%s` of what is not a string.
module _ (number_text : ℕ → Bytes) (type_text : FieldValue → Bytes)
    (other_text : Option FieldValue → Bytes) (padded : ℕ → Bytes → Bytes) where
  -- A value as it stands between brackets; a missing one is nil, which is shown by its type.
  unfoldable pub value_text : Option FieldValue → Bytes
  value_text none = codes "<%!s(<nil>)>"
  value_text (some (text t)) = t
  value_text (some (number n)) = number_text n
  value_text (some (truth b)) = if b then codes "true" else codes "false"
  value_text (some (headers_field h)) = codes "<" ++ (type_text (headers_field h) ++ codes ">")

  unfoldable pub key_texts : Bool → List Bytes → TraceMessageDecode → Bytes
  unfolding value_text lookup
  key_texts is_first [] meta = []
  key_texts is_first (k ∷ ks) meta =
      (if is_first then [] else codes " ")
      ++ (k
          ++ (codes "=[" ++ (value_text (lookup k meta) ++ (codes "]" ++ key_texts false ks meta))))

  unfoldable pub name_text : Option FieldValue → Bytes
  name_text (some (text t)) = t
  name_text v = other_text v

  -- `decodeTraceAndFormat`, of the map that the JSON holds, without JSON the empty text; what is not JSON
  -- makes it panic.
  unfoldable pub decode_trace_and_format : Option TraceMessageDecode → Bytes
  unfolding lookup name_text key_texts sort_strings other_keys
  decode_trace_and_format none = []
  decode_trace_and_format (some meta) =
      let head = padded 24 (
        padded 8 (name_text (lookup decoder_field_name meta))
        ++ (codes " " ++ name_text (lookup message_field_name meta))) in
      if ltb 2 (length meta)
      then head
        ++ (codes " {" ++ (key_texts true (sort_strings (other_keys meta)) meta ++ codes "}"))
      else head
