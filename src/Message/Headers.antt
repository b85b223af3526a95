-- ===== src/Message/Headers.antt =====
-- The typed accessors of `Headers`. A value read is Go's (value, found) pair; strings are bytes.
use channel.Base.{
  ℕ, ◌==◌, [], ◌∷◌, Bool, true, false, not, ◌&&◌, none, some, if◌then◌else◌, ltb, length,
}
use channel.Base.Bytes.{Bytes, put_le, get_le}
use channel.Base.Maps.{Map, lookup, insert, nat_eq}

abbrev HeaderMap : Type 0
HeaderMap = Map ℕ Bytes

unfoldable pub put_uint64_header : ℕ → ℕ → HeaderMap → HeaderMap
unfolding insert
put_uint64_header key value h = insert key (put_le 8 value) h

-- A value of another width reads as 0, and as found.
unfoldable pub get_uint64_header : ℕ → HeaderMap → ℕ × Bool
unfolding lookup
get_uint64_header key h = elim (lookup key h) [
  | none ↦ (0, false)
  | some encoded ↦ if not (length encoded == 8) then (0, true) else (get_le encoded, true)
]

unfoldable pub put_uint32_header : ℕ → ℕ → HeaderMap → HeaderMap
put_uint32_header key value h = insert key (put_le 4 value) h

unfoldable pub get_uint32_header : ℕ → HeaderMap → ℕ × Bool
get_uint32_header key h = elim (lookup key h) [
  | none ↦ (0, false)
  | some encoded ↦ if not (length encoded == 4) then (0, false) else (get_le encoded, true)
]

unfoldable pub put_uint16_header : ℕ → ℕ → HeaderMap → HeaderMap
put_uint16_header key value h = insert key (put_le 2 value) h

unfoldable pub get_uint16_header : ℕ → HeaderMap → ℕ × Bool
get_uint16_header key h = elim (lookup key h) [
  | none ↦ (0, false)
  | some encoded ↦ if not (length encoded == 2) then (0, false) else (get_le encoded, true)
]

unfoldable pub put_byte_header : ℕ → ℕ → HeaderMap → HeaderMap
put_byte_header key value h = insert key (value ∷ []) h

abbrev first_byte : Bytes → ℕ
first_byte [] = 0
first_byte (b ∷ bs) = b

unfoldable pub get_byte_header : ℕ → HeaderMap → ℕ × Bool
get_byte_header key h = elim (lookup key h) [
  | none ↦ (0, false)
  | some encoded ↦ if ltb (length encoded) 1 then (0, true) else (first_byte encoded, true)
]

unfoldable pub put_string_header : ℕ → Bytes → HeaderMap → HeaderMap
put_string_header key value h = insert key value h

unfoldable pub get_string_header : ℕ → HeaderMap → Bytes × Bool
get_string_header key h = elim (lookup key h) [
  | none ↦ ([], false)
  | some encoded ↦ (encoded, true)
]

unfoldable pub put_bool_header : ℕ → Bool → HeaderMap → HeaderMap
put_bool_header key value h = insert key ((if value then 1 else 0) ∷ []) h

unfoldable pub get_bool_header : ℕ → HeaderMap → Bool × Bool
get_bool_header key h = elim (lookup key h) [
  | none ↦ (false, false)
  | some encoded ↦ (ltb 0 (length encoded) && first_byte encoded == 1, true)
]
