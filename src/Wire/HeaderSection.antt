-- ===== src/Wire/HeaderSection.antt =====
-- The header section: reading takes back what marshalling wrote, and ends on every input.
use channel.Base.{
  ℕ, zero, suc, ◌+◌, ◌%◌, ◌≤◌, ◌<◌, ◌≡◌, ◌≢◌, refl, sym, ◌∙◌, arith, [], ◌∷◌, ◌++◌, false, ok, err,
  ltb, ltb-false, length, drop, take-append, drop-append, length-append, length-drop,
}
use channel.Base.Bytes.{Bytes, put_le, get_le, get_le-put_le, u32_mod}
use channel.Base.Maps.{insert, insert_all, insert_all-append, Distinct, nat_eq}
use channel.Message.{Headers}
use channel.Wire.{diverged, slice}
use channel.Wire.Marshal.{marshal_header, marshal_headers}
use channel.Wire.Read.{unmarshal_headers_loop, unmarshal_headers}

abbrev pub IsU32 : ℕ → Type 0
IsU32 n = n < u32_mod

-- Keys are int32 bit patterns, and each value's length fits its length field.
abbrev pub HeadersFit : Headers → Type 0
HeadersFit [] = Unit {0}
HeadersFit ((k, v) ∷ headers) = IsU32 k × IsU32 (length v) × HeadersFit headers

-- A round of the loop on data that holds a whole header.
unmarshal_round :
    (fuel : ℕ) (header_data : Bytes) (out : Headers) (key len : ℕ)
    → get_le (slice header_data 0 4) ≡ key
    → get_le (slice header_data 4 4) ≡ len
    → 8 + len ≤ length header_data
    → unmarshal_headers_loop (suc fuel) header_data out
      ≡ unmarshal_headers_loop fuel
          (drop (8 + len) header_data)
          (insert key (slice header_data 8 len) out)
unfolding unmarshal_headers_loop
unmarshal_round fuel [] out key len ek el h = absurd (omega arith)
unmarshal_round fuel (b ∷ bs) out key len ek el h =
    rw (ek, el, ltb-false (suc (length bs)) 8 (omega arith), ltb-false _ (8 + len) h)

length-marshal_header : (k : ℕ) (v : Bytes) → length (marshal_header k v) ≡ 8 + length v
unfolding marshal_header put_le
length-marshal_header k v = omega arith

unmarshal_header :
    (fuel k : ℕ) (v rest : Bytes) (out : Headers)
    → IsU32 k
    → IsU32 (length v)
    → unmarshal_headers_loop (suc fuel) (marshal_header k v ++ rest) out
      ≡ unmarshal_headers_loop fuel rest (insert k v out)
unfolding marshal_header put_le
unmarshal_header fuel k v rest out hk hv =
    let header_data = marshal_header k v ++ rest in
    let size : length v % u32_mod ≡ length v = omega arith in
    let key = get_le-put_le 4 k hk in
    let len = get_le-put_le 4 (length v % u32_mod) (omega arith) ∙ size in
    let total = length-append (marshal_header k v) rest in
    let value = take-append (length v) v rest refl in
    let tail =
      drop-append (8 + length v) (marshal_header k v) rest (sym (length-marshal_header k v)) in
    rw (
      unmarshal_round fuel header_data out k (length v) key len
          (omega (arith, total, length-marshal_header k v)),
      tail,
      value,
    )

pub length-marshal_headers :
    (k : ℕ) (v : Bytes) (headers : Headers)
    → length (marshal_headers ((k, v) ∷ headers)) ≡ 8 + length v + length (marshal_headers headers)
unfolding marshal_headers
length-marshal_headers k v headers =
    omega (
      arith,
      length-append (marshal_header k v) (marshal_headers headers),
      length-marshal_header k v,
    )

unmarshal_loop-marshal_headers :
    (headers : Headers) (fuel : ℕ) (out : Headers)
    → HeadersFit headers
    → length (marshal_headers headers) ≤ fuel
    → unmarshal_headers_loop fuel (marshal_headers headers) out ≡ ok (insert_all out headers)
unfolding marshal_headers insert_all
unmarshal_loop-marshal_headers [] fuel out fit h = unfold unmarshal_headers_loop in refl
unmarshal_loop-marshal_headers ((k, v) ∷ headers) zero out fit h =
    absurd (omega (arith, length-marshal_headers k v headers))
unmarshal_loop-marshal_headers ((k, v) ∷ headers) (suc fuel) out (hk, hv, fit) h =
    unmarshal_header fuel k v (marshal_headers headers) out hk hv
    ∙ unmarshal_loop-marshal_headers headers fuel (insert k v out) fit
        (omega (arith, length-marshal_headers k v headers))

-- Reading a marshalled header section gives the headers that were marshalled, entry for entry, in
-- whatever order the map was visited, where no key stands twice and lengths fit their fields.
pub unmarshal-marshal_headers :
    (headers : Headers)
    → HeadersFit headers
    → Distinct headers
    → unmarshal_headers (marshal_headers headers) ≡ ok headers
unfolding unmarshal_headers
unmarshal-marshal_headers [] fit d = unfold marshal_headers unmarshal_headers_loop in refl
unmarshal-marshal_headers ((k, v) ∷ headers) fit d =
    let bound = length-marshal_headers k v headers in
    let big : ltb (length (marshal_headers ((k, v) ∷ headers))) 8 ≡ false =
      ltb-false _ 8 (omega (arith, length-marshal_headers k v headers)) in
    ground (
      arith,
      big,
      insert_all-append [] ((k, v) ∷ headers) d,
      unmarshal_loop-marshal_headers ((k, v) ∷ headers)
          (length (marshal_headers ((k, v) ∷ headers))) [] fit (omega arith),
    )

unmarshal_loop-ne-diverged :
    (fuel : ℕ) (header_data : Bytes) (out : Headers)
    → length header_data ≤ fuel
    → unmarshal_headers_loop fuel header_data out ≢ err diverged
unfolding unmarshal_headers_loop
unmarshal_loop-ne-diverged fuel [] out h e = cc
unmarshal_loop-ne-diverged zero (b ∷ bs) out h e = absurd (omega arith)
unmarshal_loop-ne-diverged (suc fuel) (b ∷ bs) out h e =
    let len = get_le (slice (b ∷ bs) 4 4) in
    ground (
      arith,
      length-drop (8 + len) (b ∷ bs),
      unmarshal_loop-ne-diverged fuel (drop (8 + len) (b ∷ bs))
          (insert (get_le (slice (b ∷ bs) 0 4)) (slice (b ∷ bs) 8 len) out),
    )

-- The loop over the header section ends on every input, well formed or not.
pub unmarshal_headers-ne-diverged :
    (header_data : Bytes) → unmarshal_headers header_data ≢ err diverged
unfolding unmarshal_headers
unmarshal_headers-ne-diverged header_data e =
    ground (arith, unmarshal_loop-ne-diverged (length header_data) header_data [] (omega arith))
