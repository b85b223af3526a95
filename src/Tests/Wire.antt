-- ===== src/Tests/Wire.antt =====
-- message.go's wire format on concrete messages and streams.
use channel.Base.{◌≡◌, refl, arith, [], ◌∷◌, ◌++◌, some}
use channel.Base.Bytes.{Bytes, put_le, get_le}
use channel.Base.Maps.{lookup, insert, nat_eq}
use channel.Io.{Reader, eof, flatten, contents, read_loop, read_full}
use channel.Message.{Message}
use channel.Message.Headers.{put_uint32_header}
use channel.Wire.Marshal.{marshal_headers, stamped, marshal_v2}
use channel.Wire.Read.{
  unmarshal_headers_loop, unmarshal_headers, unmarshal_data, unmarshal_v2, read_v2,
}
use channel.Wire.Hello.{read_hello_v2, read_hello}
use channel.Wire.Decode.{message, observe, decode_v2, read_v2-decode}
use channel.Wire.RoundTrip.{IsSendable, received, read-marshal_v2}

abbrev pub sample : Message
sample = record {
  content_type = 60;
  sequence = 5;
  reply_for = some 9;
  headers = (128, 1 ∷ 2 ∷ []) ∷ [];
  body = 10 ∷ 20 ∷ [];
}

abbrev pub sample_bytes : Bytes
sample_bytes =
    3 ∷ 6 ∷ 9 ∷ 12 ∷ 60 ∷ 0 ∷ 0 ∷ 0 ∷ 5 ∷ 0 ∷ 0 ∷ 0 ∷ 22 ∷ 0 ∷ 0 ∷ 0 ∷ 2 ∷ 0 ∷ 0 ∷ 0 ∷ 128 ∷ 0 ∷ 0
    ∷ 0 ∷ 2 ∷ 0 ∷ 0 ∷ 0 ∷ 1 ∷ 2 ∷ 1 ∷ 0 ∷ 0 ∷ 0 ∷ 4 ∷ 0 ∷ 0 ∷ 0 ∷ 9 ∷ 0 ∷ 0 ∷ 0 ∷ 10 ∷ 20 ∷ []

sample_marshals : (marshal_v2 sample).1 ≡ sample_bytes
unfolding marshal_v2 put_le put_uint32_header insert
sample_marshals = refl

-- The frame in two chunks, the second with a byte of the next frame.
abbrev sample_reader : Reader
sample_reader = record { chunks = (3 ∷ 6 ∷ []) ∷ tail ∷ []; fate = eof }
  where
    tail : Bytes
    tail =
        9 ∷ 12 ∷ 60 ∷ 0 ∷ 0 ∷ 0 ∷ 5 ∷ 0 ∷ 0 ∷ 0 ∷ 22 ∷ 0 ∷ 0 ∷ 0 ∷ 2 ∷ 0 ∷ 0 ∷ 0 ∷ 128 ∷ 0 ∷ 0 ∷ 0
        ∷ 2 ∷ 0 ∷ 0 ∷ 0 ∷ 1 ∷ 2 ∷ 1 ∷ 0 ∷ 0 ∷ 0 ∷ 4 ∷ 0 ∷ 0 ∷ 0 ∷ 9 ∷ 0 ∷ 0 ∷ 0 ∷ 10 ∷ 20 ∷ 3 ∷ []

pub sample-IsSendable : IsSendable sample
unfolding stamped put_uint32_header insert lookup marshal_headers put_le
sample-IsSendable = record {
  content_type = omega arith;
  sequence = omega arith;
  reply_for = omega arith;
  headers = omega arith;
  distinct = (refl, tt);
  size = omega arith;
}

sample-contents : contents sample_reader ≡ (marshal_v2 sample).1 ++ (3 ∷ [])
unfolding contents flatten marshal_v2 put_le put_uint32_header insert
sample-contents = refl

read_v2-decode_example : observe (read_v2 sample_reader) ≡ decode_v2 (contents sample_reader)
read_v2-decode_example = read_v2-decode sample_reader

read-marshal_v2_example : observe (read_v2 sample_reader) ≡ message (received sample) (3 ∷ [])
read-marshal_v2_example =
    read-marshal_v2 sample (3 ∷ []) sample_reader sample-IsSendable sample-contents

sample_hello : observe (read_hello sample_reader) ≡ message (received sample) (3 ∷ [])
unfolding read_hello read_hello_v2 read_full read_loop get_le unmarshal_v2 unmarshal_data
    unmarshal_headers unmarshal_headers_loop insert contents flatten received put_uint32_header
    put_le
sample_hello = refl
