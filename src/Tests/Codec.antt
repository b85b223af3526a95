-- ===== src/Tests/Codec.antt =====
-- The codecs of header values on concrete lists and maps.
use channel.Base.{ℕ, ◌≡◌, refl, arith, List, [], ◌∷◌, some, ok}
use channel.Base.Bytes.{Bytes, get_le}
use channel.Base.Maps.{nat_eq, bytes_eq, Map, lookup}
use channel.Codec.{decode_string, decode_strings, decode_string_slice}
use channel.Wire.RoundTrip.{received}
use channel.Codec.Accessors.{
  put_string_slice_header, get_string_slice_header, put_u32_to_bytes_map_header,
  get_u32_to_bytes_map_header, put_string_to_string_map_header, get_string_to_string_map_header,
  with_headers, structured_headers_arrive,
}
use channel.Tests.Wire.{sample}

abbrev words : List Bytes
words = (104 ∷ 105 ∷ []) ∷ [] ∷ []

-- One string, and a byte that is ignored.
abbrev one_word : Bytes
one_word = 1 ∷ 0 ∷ 0 ∷ 0 ∷ 2 ∷ 0 ∷ 0 ∷ 0 ∷ 104 ∷ 105 ∷ 9 ∷ []

one_word_decodes : decode_string_slice one_word ≡ ok ((104 ∷ 105 ∷ []) ∷ [])
unfolding decode_string_slice decode_strings decode_string get_le
one_word_decodes = refl

abbrev numbered : Map ℕ Bytes
numbered = (7, 1 ∷ 2 ∷ []) ∷ (3, []) ∷ []

abbrev named : Map Bytes Bytes
named = (97 ∷ [], 98 ∷ 99 ∷ []) ∷ ([], 100 ∷ []) ∷ []

structured_headers_arrive_example :
    (get_string_slice_header 200
        (received (with_headers (put_string_slice_header 200 words sample.headers) sample)).headers
      ≡ some (ok words))
    × (get_u32_to_bytes_map_header 200
          (received
            (with_headers (put_u32_to_bytes_map_header 200 numbered sample.headers) sample)).headers
        ≡ some (ok numbered))
    × (get_string_to_string_map_header 200
          (received (
            with_headers (put_string_to_string_map_header 200 named sample.headers) sample)).headers
        ≡ some (ok named))
unfolding lookup
structured_headers_arrive_example =
    structured_headers_arrive 200 sample words numbered named (λ e. omega (arith, e)) (omega arith)
      (omega arith) (omega arith) (refl, (refl, tt)) (omega arith) (omega arith) (refl, (refl, tt))
      (omega arith)
