-- ===== src/Underlays.antt =====
-- underlays.go and `GetUnderlayType` of impl.go: the set of underlays of a channel. An underlay is a
-- pointer, `ident`, with the headers of its hello; underlays are equal when their pointers are.
-- The listeners are told by the channel, which is one of them (Channel).
pub mod Laws
use channel.Base.{
  ℕ, ◌+◌, ◌==◌, List, [], ◌∷◌, ◌++◌, Bool, true, false, Option, none, some, if◌then◌else◌,
}
use channel.Base.Bytes.{Bytes}
use channel.Base.Maps.{Map, lookup, insert, bytes_eq, nat_eq, bytes_beq}
use channel.Message.{Headers}
use channel.Message.Keys.{type_header}

pub record Underlay : Type 0 where
  pub ident : ℕ
  pub headers : Headers

-- The bytes of "default".
abbrev pub default_underlay_type : Bytes
default_underlay_type = 100 ∷ 101 ∷ 102 ∷ 97 ∷ 117 ∷ 108 ∷ 116 ∷ []

-- A missing header reads as no bytes.
unfoldable pub header_bytes : Option Bytes → Bytes
header_bytes none = []
header_bytes (some v) = v

unfoldable pub type_or_default : Bytes → Bytes
type_or_default [] = default_underlay_type
type_or_default (b ∷ bs) = b ∷ bs

unfoldable pub get_underlay_type : Underlay → Bytes
unfolding header_bytes type_or_default lookup
get_underlay_type u = type_or_default (header_bytes (lookup type_header u.headers))

pub data Listener : Type 0 where
  the_channel : Listener
  other : ℕ → Listener

pub record Underlays : Type 0 where
  pub entries : List Underlay
  pub listeners : List Listener

unfoldable pub new_underlays : Underlays
new_underlays = record { entries = []; listeners = [] }

-- The part of `Add` under the lock.
unfoldable pub add : Underlay → Underlays → Underlays
add u us = record us { entries = us.entries ++ (u ∷ []) }

-- The loop of `Remove`: whether the underlay was found, and the entries without its first occurrence.
unfoldable pub remove_entry : Underlay → List Underlay → Bool × List Underlay
remove_entry u [] = (false, [])
remove_entry u (x ∷ xs) =
    let rest = remove_entry u xs in if x.ident == u.ident then (true, xs) else (rest.0, x ∷ rest.1)

-- The part of `Remove` under the lock. The listeners are told if the Boolean is true.
unfoldable pub remove : Underlay → Underlays → Bool × Underlays
unfolding remove_entry
remove u us = let r = remove_entry u us.entries in (r.0, record us { entries = r.1 })

unfoldable pub first : List Underlay → Option Underlay
first [] = none
first (u ∷ us) = some u

-- `result[t]` of a Go map of counts.
unfoldable pub count_or_zero : Option ℕ → ℕ
count_or_zero none = 0
count_or_zero (some n) = n

abbrev pub count_of : Bytes → Map Bytes ℕ → ℕ
count_of t counts = count_or_zero (lookup t counts)

unfoldable pub count_entries : List Underlay → Map Bytes ℕ → Map Bytes ℕ
unfolding lookup insert get_underlay_type count_or_zero
count_entries [] result = result
count_entries (u ∷ us) result =
    count_entries us
      (insert (get_underlay_type u) (count_of (get_underlay_type u) result + 1) result)

unfoldable pub counts_by_type : Underlays → Map Bytes ℕ
unfolding count_entries
counts_by_type us = count_entries us.entries []

unfoldable pub add_listener : Listener → Underlays → Underlays
add_listener l us = record us { listeners = us.listeners ++ (l ∷ []) }

-- The loop of `countsShowValidState` that adds up the counts.
abbrev pub total_count : Map Bytes ℕ → ℕ
total_count [] = 0
total_count ((t, n) ∷ counts) = n + total_count counts
