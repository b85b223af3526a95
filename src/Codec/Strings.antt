-- ===== src/Codec/Strings.antt =====
-- String slices: what the encoder writes is read back, and the decoder keeps to its limits.
use channel.Base.{
  ℕ, zero, suc, ◌+◌, ◌*◌, ◌%◌, ◌≤◌, ◌<◌, ◌≡◌, refl, sym, ap, ◌∙◌, arith, List, [], ◌∷◌, ◌++◌, ok,
  err, ltb-false, lt→ltb, length, take, drop, take-append, drop-append, length-append, append_assoc,
  append-nil, All, Result-cases, inl, inr, length-take, take-append-drop, All-drop,
}
use channel.Base.Bytes.{Bytes, put_le, get_le, get_le-put_le, u32_mod, IsByte, put_le-take}
use channel.Codec.{
  too_many_strings, max_string, max_entries, decode_string, encode_string, encode_strings,
  encode_string_slice, decode_strings, decode_string_slice,
}

abbrev pub FitsString : Bytes → Type 0
FitsString s = length s ≤ max_string

-- A string is read back from its encoding, with what follows; here the rest is below 4 GB, since
-- the code compares with the length modulo 2 ^ 32.
pub decode-encode_string :
    (s rest : Bytes)
    → FitsString s
    → length s + length rest < u32_mod
    → decode_string (encode_string s ++ rest) ≡ ok (rest, s)
unfolding decode_string encode_string put_le
decode-encode_string s rest fit room =
    let size : length s % u32_mod ≡ length s = omega arith in
    let len = get_le-put_le 4 (length s % u32_mod) (omega arith) ∙ size in
    rw (
      len,
      ltb-false (length (encode_string s ++ rest)) 4 (omega arith),
      ltb-false max_string (length s) fit,
      ltb-false (length (s ++ rest) % u32_mod) (length s) (omega (arith, length-append s rest)),
      drop-append (length s) s rest refl,
      take-append (length s) s rest refl,
    )

pub length-encode_string : (s : Bytes) → length (encode_string s) ≡ 4 + length s
unfolding encode_string put_le
length-encode_string s = omega arith

decode-encode_strings :
    (ss : List Bytes) (rest : Bytes)
    → All FitsString ss
    → length (encode_strings ss) + length rest < u32_mod
    → decode_strings (length ss) (encode_strings ss ++ rest) ≡ ok ss
unfolding decode_strings encode_strings
decode-encode_strings [] rest fit room = refl
decode-encode_strings (s ∷ ss) rest (fit, fits) room =
    let size = length-encode_string s in
    let total = length-append (encode_string s) (encode_strings ss) in
    let more = length-append (encode_strings ss) rest in
    rw (
      append_assoc (encode_string s) (encode_strings ss) rest,
      decode-encode_string s (encode_strings ss ++ rest) fit (omega arith),
      decode-encode_strings ss rest fits (omega arith),
    )

encode_strings_size :
    (ss : List Bytes)
    → All FitsString ss
    → length (encode_strings ss) ≤ length ss * (4 + max_string)
unfolding encode_strings
encode_strings_size [] fit = omega arith
encode_strings_size (s ∷ ss) (fit, fits) = omega (
  arith,
  length-append (encode_string s) (encode_strings ss),
  length-encode_string s,
  encode_strings_size ss fits,
)

-- A slice of at most 128 strings of at most 8192 bytes is read back from its encoding.
pub decode-encode_string_slice :
    (ss : List Bytes)
    → All FitsString ss
    → length ss ≤ max_entries
    → decode_string_slice (encode_string_slice ss) ≡ ok ss
unfolding decode_string_slice encode_string_slice put_le
decode-encode_string_slice [] fit h = refl
decode-encode_string_slice (s ∷ ss) fit h =
    let n = length (s ∷ ss) in
    let size : n % u32_mod ≡ n = omega arith in
    let count = get_le-put_le 4 (n % u32_mod) (omega arith) ∙ size in
    let bytes = encode_strings (s ∷ ss) in
    let bound = encode_strings_size (s ∷ ss) fit in
    rw
      (
        count,
        ltb-false (length (put_le 4 (n % u32_mod) ++ bytes)) 4 (omega arith),
        ltb-false max_entries n h,
        ← append-nil bytes,
      )
      (decode-encode_strings (s ∷ ss) [] fit (omega arith))

-- The encoder has no such limit: from 129 strings on, what it writes is refused.
pub decode-encode_too_many :
    (ss : List Bytes)
    → max_entries < length ss
    → length ss < u32_mod
    → decode_string_slice (encode_string_slice ss) ≡ err too_many_strings
unfolding decode_string_slice encode_string_slice put_le
decode-encode_too_many [] h w = absurd (omega arith)
decode-encode_too_many (s ∷ ss) h w =
    let n = length (s ∷ ss) in
    let size : n % u32_mod ≡ n = omega arith in
    let count = get_le-put_le 4 (n % u32_mod) (omega arith) ∙ size in
    rw (
      count,
      ltb-false (length (put_le 4 (n % u32_mod) ++ encode_strings (s ∷ ss))) 4 (omega arith),
      lt→ltb max_entries n h,
    )

decode_string_inv :
    (b rest s : Bytes)
    → decode_string b ≡ ok (rest, s)
    → let sl = get_le (take 4 b) in
      (4 ≤ length b)
      × (sl ≤ max_string)
      × (sl ≤ length (drop 4 b))
      × (rest ≡ drop sl (drop 4 b))
      × (s ≡ take sl (drop 4 b))
unfolding decode_string
decode_string_inv b rest s e = ground arith

-- A decoded string lies within the input, and its encoding is what was read.
pub decode_string_exact :
    (b rest s : Bytes)
    → All IsByte b
    → decode_string b ≡ ok (rest, s)
    → (b ≡ encode_string s ++ rest) × FitsString s × All IsByte rest
unfolding encode_string
decode_string_exact b rest s h e =
    let (room, small, inside, erest, es) = decode_string_inv b rest s e in
    let sl = get_le (take 4 b) in
    let size : length s ≡ sl = omega (arith, ap length es, length-take sl (drop 4 b)) in
    let field : length s % u32_mod ≡ sl = omega arith in
    let front : put_le 4 (length s % u32_mod) ≡ take 4 b = rw field (put_le-take 4 b h room) in
    let back : s ++ rest ≡ drop 4 b = rw (es, erest) (take-append-drop sl (drop 4 b)) in
    (
      rw (append_assoc (put_le 4 (length s % u32_mod)) s rest, front, back)
          (sym (take-append-drop 4 b)),
      omega arith,
      rw erest (All-drop IsByte sl (drop 4 b) (All-drop IsByte 4 b h)),
    )

decode_strings_exact :
    (n : ℕ) (b : Bytes) (ss : List Bytes)
    → All IsByte b
    → decode_strings n b ≡ ok ss
    → (rest : Bytes) × (b ≡ encode_strings ss ++ rest) × All FitsString ss × (length ss ≡ n)
unfolding decode_strings encode_strings
decode_strings_exact zero b ss h e =
    let nil : ss ≡ [] = cc in (b, rw nil (unfold encode_strings in refl), rw nil tt, rw nil refl)
decode_strings_exact (suc n) b ss h e = elim (Result-cases (decode_string b)) [
  | inr (x, failed) ↦ cc (rw failed at e)
  | inl ((b', s), done) ↦ elim (Result-cases (decode_strings n b')) [
    | inr (x, failed) ↦ cc (rw (done, failed) at e)
    | inl (more, parsed) ↦
        let (whole, fits, bytes) = decode_string_exact b b' s h done in
        let (rest, whole', fits', size) = decode_strings_exact n b' more bytes parsed in
        let ess : ss ≡ s ∷ more = cc (rw (done, parsed) at e) in
        let joined : b ≡ encode_strings (s ∷ more) ++ rest =
          whole
          ∙ ap (◌++◌ (encode_string s)) whole'
          ∙ sym (append_assoc (encode_string s) (encode_strings more) rest) in
        (rest, rw ess joined, rw ess (fits, fits'), rw ess (ap suc size))
  ]
]

decode_slice_inv :
    (b : Bytes) (ss : List Bytes) (s : Bytes)
    → decode_string_slice b ≡ ok (s ∷ ss)
    → let l = get_le (take 4 b) in
      (4 ≤ length b) × (l ≤ max_entries) × (decode_strings l (drop 4 b) ≡ ok (s ∷ ss))
unfolding decode_string_slice
decode_slice_inv [] ss s e = cc
decode_slice_inv (x ∷ xs) ss s e = ground arith

-- Whatever the decoder accepts keeps to its limits and is the encoding of what it returns, with
-- bytes that it ignores behind it: no two lists of strings are read from the same encoding.
pub decode_string_slice_exact :
    (b : Bytes) (s : Bytes) (ss : List Bytes)
    → All IsByte b
    → decode_string_slice b ≡ ok (s ∷ ss)
    → (rest : Bytes) × (b ≡ encode_string_slice (s ∷ ss) ++ rest)
      × All FitsString (s ∷ ss)
      × (length (s ∷ ss) ≤ max_entries)
unfolding encode_string_slice
decode_string_slice_exact b s ss h e =
    let (room, few, parsed) = decode_slice_inv b ss s e in
    let l = get_le (take 4 b) in
    let (rest, whole, fits, size) =
      decode_strings_exact l (drop 4 b) (s ∷ ss) (All-drop IsByte 4 b h) parsed in
    let field : length (s ∷ ss) % u32_mod ≡ l = omega arith in
    let front : put_le 4 (length (s ∷ ss) % u32_mod) ≡ take 4 b =
      rw field (put_le-take 4 b h room) in
    let joined : b ≡ (put_le 4 (length (s ∷ ss) % u32_mod) ++ encode_strings (s ∷ ss)) ++ rest =
      rw (append_assoc (put_le 4 (length (s ∷ ss) % u32_mod)) (encode_strings (s ∷ ss)) rest)
        (rw (front, ← whole) (sym (take-append-drop 4 b))) in
    (rest, joined, fits, omega arith)
