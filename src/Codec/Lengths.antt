-- ===== src/Codec/Lengths.antt =====
-- The buffer lengths that the encoders compute are the lengths that they fill, so that the panic
-- behind each encoder is not reached.
use channel.Base.{ℕ, ◌+◌, ◌*◌, ◌≡◌, refl, arith, List, [], ◌∷◌, ◌++◌, length, length-append}
use channel.Base.Bytes.{Bytes, put_le}
use channel.Base.Maps.{Map}
use channel.Codec.{
  encode_string, encode_strings, encode_string_slice, encode_u32_entries, encode_u32_to_bytes_map,
  encode_string_entries, encode_string_to_string_map,
}

-- `for _, s := range strSlice { l += len(s) }`, and so for maps.
abbrev pub strings_size : List Bytes → ℕ
strings_size [] = 0
strings_size (s ∷ ss) = length s + strings_size ss

abbrev pub values_size : Map ℕ Bytes → ℕ
values_size [] = 0
values_size ((k, v) ∷ m) = length v + values_size m

abbrev pub entries_size : Map Bytes Bytes → ℕ
entries_size [] = 0
entries_size ((k, v) ∷ m) = length k + length v + entries_size m

pub length-encode_strings :
    (ss : List Bytes) → length (encode_strings ss) ≡ 4 * length ss + strings_size ss
unfolding encode_strings encode_string put_le
length-encode_strings [] = refl
length-encode_strings (s ∷ ss) =
    omega (arith, length-append s (encode_strings ss), length-encode_strings ss)

length-encode_u32_entries :
    (m : Map ℕ Bytes) → length (encode_u32_entries m) ≡ 8 * length m + values_size m
unfolding encode_u32_entries put_le
length-encode_u32_entries [] = refl
length-encode_u32_entries ((k, v) ∷ m) =
    omega (arith, length-append v (encode_u32_entries m), length-encode_u32_entries m)

length-encode_string_entries :
    (m : Map Bytes Bytes) → length (encode_string_entries m) ≡ 8 * length m + entries_size m
unfolding encode_string_entries encode_string put_le
length-encode_string_entries [] = refl
length-encode_string_entries ((k, v) ∷ m) = omega (
  arith,
  length-append k (encode_string v ++ encode_string_entries m),
  length-append v (encode_string_entries m),
  length-encode_string_entries m,
)

-- Each encoder fills exactly the buffer that it computed: 4 bytes, 4 or 8 for each entry, and the data.
pub encoders_fill_buffers :
    (s : Bytes) (ss : List Bytes) (e : ℕ × Bytes) (m : Map ℕ Bytes) (d : Bytes × Bytes)
    (n : Map Bytes Bytes)
    → (length (encode_string_slice (s ∷ ss)) ≡ 4 + 4 * length (s ∷ ss) + strings_size (s ∷ ss))
      × (length (encode_u32_to_bytes_map (e ∷ m)) ≡ 4 + 8 * length (e ∷ m) + values_size (e ∷ m))
      × (length (encode_string_to_string_map (d ∷ n))
          ≡ 4 + 8 * length (d ∷ n) + entries_size (d ∷ n))
unfolding encode_string_slice encode_u32_to_bytes_map encode_string_to_string_map put_le
encoders_fill_buffers s ss e m d n = (
  omega (arith, length-encode_strings (s ∷ ss)),
  omega (arith, length-encode_u32_entries (e ∷ m)),
  omega (arith, length-encode_string_entries (d ∷ n)),
)
