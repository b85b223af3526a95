-- ===== src/Wire/Marshal.antt =====
-- Marshalling: `MarshalV2`, `marshalWithVersion` and `marshalHeaders`. Writes to a bytes.Buffer
-- cannot fail, so no error is returned. `marshalWithVersion` puts the cached reply-for into the
-- message's own header map, so the message is returned as well.
use channel.Base.{ℕ, ◌%◌, [], ◌∷◌, ◌++◌, Option, none, some, length, if◌then◌else◌, ◌==◌}
use channel.Base.Bytes.{Bytes, put_le, u32_mod}
use channel.Base.Maps.{nat_eq}
use channel.Message.Keys.{content_type_raw}
use channel.Message.{Headers, Message, reply_for_header}
use channel.Message.Headers.{put_uint32_header}
use channel.Wire.{magic_v2, magic_v3}

-- One header: key, length and data. `int32(len(v))` keeps the low 32 bits.
unfoldable pub marshal_header : ℕ → Bytes → Bytes
unfolding put_le
marshal_header k v = put_le 4 k ++ (put_le 4 (length v % u32_mod) ++ v)

unfoldable pub marshal_headers : Headers → Bytes
unfolding marshal_header
marshal_headers [] = []
marshal_headers ((k, v) ∷ headers) = marshal_header k v ++ marshal_headers headers

-- `if m.replyFor != nil { m.PutUint32Header(ReplyForHeader, uint32(*m.replyFor)) }`
unfoldable pub stamp_reply_for : Option ℕ → Headers → Headers
unfolding put_uint32_header
stamp_reply_for none headers = headers
stamp_reply_for (some val) headers = put_uint32_header reply_for_header val headers

unfoldable pub stamped : Message → Message
unfolding stamp_reply_for
stamped m = record m { headers = stamp_reply_for m.reply_for m.headers }

unfoldable pub frame : Message → Bytes → Bytes → Bytes
unfolding put_le
frame m version headers_data =
    version
    ++ (put_le 4 m.content_type
        ++ (put_le 4 m.sequence
            ++ (put_le 4 (length headers_data % u32_mod)
                ++ (put_le 4 (length m.body % u32_mod) ++ (headers_data ++ m.body)))))

unfoldable pub marshal_with_version : Message → Bytes → Message × Bytes
unfolding stamped frame marshal_headers
marshal_with_version m version =
    let m' = stamped m in (m', frame m' version (marshal_headers m'.headers))

unfoldable pub marshal_v2 : Message → Message × Bytes
unfolding marshal_with_version
marshal_v2 m = marshal_with_version m magic_v2

unfoldable pub marshal_v3 : Message → Message × Bytes
unfolding marshal_with_version
marshal_v3 m = marshal_with_version m magic_v3

unfoldable pub marshal_v2_with_raw : Message → Message × Bytes
unfolding marshal_v2
marshal_v2_with_raw m = if m.content_type == content_type_raw then (m, m.body) else marshal_v2 m
