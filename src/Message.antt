-- ===== src/Message.antt =====
-- message.go and messages.go: the message, its headers and their accessors.
pub mod Headers
pub mod Keys
pub mod HeaderLaws
use channel.Base.{
  ℕ, ◌-◌, ◌^◌, ◌==◌, List, [], ◌∷◌, Bool, true, false, not, Option, none, some, if◌then◌else◌,
  length,
}
use channel.Base.Bytes.{Bytes, get_le}
use channel.Base.Maps.{Map, lookup, insert, nat_eq}

-- An int32 is its bit pattern, a number below 2 ^ 32; this is -1.
abbrev pub minus_one : ℕ
minus_one = 2 ^ 32 - 1

abbrev pub reply_for_header : ℕ
reply_for_header = 1

abbrev pub reflected_header : ℕ
reflected_header = 128

abbrev pub reply_for_header_len : ℕ
reply_for_header_len = 4

abbrev pub Headers : Type 0
Headers = Map ℕ Bytes

-- `MessageHeader` and the body: `reply_for` is the cached pointer, `none` where it is nil.
pub record Message : Type 0 where
  pub content_type : ℕ
  pub sequence : ℕ
  pub reply_for : Option ℕ
  pub headers : Headers
  pub body : Bytes

unfoldable pub new_message : ℕ → Bytes → Message
new_message content_type body = record {
  content_type = content_type;
  sequence = minus_one;
  reply_for = none;
  headers = [];
  body = body;
}

-- What `cacheReplyFor` reads out of the headers.
unfoldable pub header_reply_for : Option Bytes → ℕ
header_reply_for none = minus_one
header_reply_for (some v) = if length v == reply_for_header_len then get_le v else minus_one

unfoldable pub cached_reply_for : Option ℕ → Headers → ℕ
unfolding header_reply_for lookup
cached_reply_for (some val) headers = val
cached_reply_for none headers = header_reply_for (lookup reply_for_header headers)

unfoldable pub cache_reply_for : Message → Message
unfolding cached_reply_for
cache_reply_for m = record m { reply_for = some (cached_reply_for m.reply_for m.headers) }

-- The accessors cache the value first; the results are those of the cached header.
unfoldable pub reply_for : Message → ℕ
unfolding cached_reply_for
reply_for m = cached_reply_for m.reply_for m.headers

unfoldable pub is_reply : Message → Bool
unfolding reply_for
is_reply m = not (reply_for m == minus_one)

unfoldable pub is_replying_to : Message → ℕ → Bool
unfolding reply_for
is_replying_to m sequence = reply_for m == sequence

-- `m.Headers[ReflectedHeader] = value`, if the request has one.
unfoldable pub reflect : Option Bytes → Headers → Headers
unfolding insert
reflect none headers = headers
reflect (some value) headers = insert reflected_header value headers

-- `m.ReplyTo(o)`
unfoldable pub reply_to : Message → Message → Message
unfolding reflect lookup
reply_to m o = record m {
  reply_for = some o.sequence;
  headers = reflect (lookup reflected_header o.headers) m.headers;
}
