-- ===== src/Codec/Maps.antt =====
-- Maps in header values: what the encoders write is read back, whatever order the map is visited in.
use channel.Base.{
  ℕ, ◌+◌, ◌*◌, ◌%◌, ◌≤◌, ◌<◌, ◌≡◌, refl, ◌∙◌, arith, [], ◌∷◌, ◌++◌, Result, ok, if◌then◌else◌, ◌==◌,
  ltb-false, length, drop, take-append, drop-append, length-append, append_assoc, append-nil,
}
use channel.Base.Bytes.{Bytes, put_le, get_le-put_le, u32_mod}
use channel.Base.Maps.{Map, Distinct, insert, insert_all, insert_all-append, nat_eq, bytes_eq}
use channel.Codec.{
  CodecError, max_string, max_entries, encode_string, encode_u32_entries, encode_u32_to_bytes_map,
  decode_u32_entry, decode_u32_entries, decode_u32_to_bytes_map, encode_string_entries,
  encode_string_to_string_map, decode_string_entries, decode_string_to_string_map,
}
use channel.Codec.Strings.{FitsString, decode-encode_string, length-encode_string}

abbrev pub FitU32Entries : Map ℕ Bytes → Type 0
FitU32Entries [] = Unit {0}
FitU32Entries ((k, v) ∷ m) = (k < u32_mod) × FitsString v × FitU32Entries m

abbrev pub FitStringEntries : Map Bytes Bytes → Type 0
FitStringEntries [] = Unit {0}
FitStringEntries ((k, v) ∷ m) = FitsString k × FitsString v × FitStringEntries m

entry_value :
    (k : ℕ) (v rest : Bytes)
    → ◌≡◌ {A = Result CodecError (ℕ × Bytes × Bytes)}
        (if length v == 0 then ok (k, [], v ++ rest) else ok (k, v, rest))
        (ok (k, v, rest))
entry_value k [] rest = refl
entry_value k (x ∷ xs) rest = ground arith

-- One entry; an empty value is written and read as no bytes at all.
decode_u32_entry-encode :
    (k : ℕ) (v rest : Bytes)
    → k < u32_mod
    → FitsString v
    → length v + length rest < u32_mod
    → decode_u32_entry (put_le 4 k ++ (put_le 4 (length v % u32_mod) ++ (v ++ rest)))
      ≡ ok (k, v, rest)
unfolding decode_u32_entry put_le
decode_u32_entry-encode k v rest hk fit room =
    let b = put_le 4 k ++ (put_le 4 (length v % u32_mod) ++ (v ++ rest)) in
    let size : length v % u32_mod ≡ length v = omega arith in
    let len = get_le-put_le 4 (length v % u32_mod) (omega arith) ∙ size in
    rw
      (
        get_le-put_le 4 k hk,
        len,
        ltb-false (length b) 4 (omega arith),
        ltb-false (length (drop 4 b)) 4 (omega arith),
        ltb-false max_string (length v) fit,
        ltb-false (length (v ++ rest) % u32_mod) (length v) (omega (arith, length-append v rest)),
        drop-append (length v) v rest refl,
        take-append (length v) v rest refl,
      )
      (entry_value k v rest)

length-encode_u32_entry :
    (k : ℕ) (v : Bytes) (m : Map ℕ Bytes)
    → length (encode_u32_entries ((k, v) ∷ m)) ≡ 8 + length v + length (encode_u32_entries m)
unfolding encode_u32_entries put_le
length-encode_u32_entry k v m = omega (arith, length-append v (encode_u32_entries m))

decode-encode_u32_entries :
    (m : Map ℕ Bytes) (rest : Bytes) (out : Map ℕ Bytes)
    → FitU32Entries m
    → length (encode_u32_entries m) + length rest < u32_mod
    → decode_u32_entries (length m) (encode_u32_entries m ++ rest) out ≡ ok (insert_all out m)
unfolding decode_u32_entries encode_u32_entries insert_all put_le
decode-encode_u32_entries [] rest out fit room = refl
decode-encode_u32_entries ((k, v) ∷ m) rest out (hk, fit, fits) room =
    let total = length-encode_u32_entry k v m in
    let more = length-append (encode_u32_entries m) rest in
    rw (
      append_assoc v (encode_u32_entries m) rest,
      decode_u32_entry-encode k v (encode_u32_entries m ++ rest) hk fit (omega arith),
      decode-encode_u32_entries m rest (insert k v out) fits (omega arith),
    )

encode_u32_entries_size :
    (m : Map ℕ Bytes)
    → FitU32Entries m
    → length (encode_u32_entries m) ≤ length m * (8 + max_string)
encode_u32_entries_size [] fit = unfold encode_u32_entries in omega arith
encode_u32_entries_size ((k, v) ∷ m) (hk, fit, fits) =
    omega (arith, length-encode_u32_entry k v m, encode_u32_entries_size m fits)

-- A map of at most 128 entries, each of at most 8192 bytes, is read back from its encoding.
pub decode-encode_u32_to_bytes_map :
    (m : Map ℕ Bytes)
    → FitU32Entries m
    → Distinct m
    → length m ≤ max_entries
    → decode_u32_to_bytes_map (encode_u32_to_bytes_map m) ≡ ok m
unfolding decode_u32_to_bytes_map encode_u32_to_bytes_map put_le
decode-encode_u32_to_bytes_map [] fit d h = refl
decode-encode_u32_to_bytes_map (e ∷ m) fit d h =
    let n = length (e ∷ m) in
    let size : n % u32_mod ≡ n = omega arith in
    let count = get_le-put_le 4 (n % u32_mod) (omega arith) ∙ size in
    let entries = encode_u32_entries (e ∷ m) in
    let bound = encode_u32_entries_size (e ∷ m) fit in
    rw (
      count,
      ltb-false (length (put_le 4 (n % u32_mod) ++ entries)) 4 (omega arith),
      ltb-false max_entries n h,
      ← append-nil entries,
      decode-encode_u32_entries (e ∷ m) [] [] fit (omega arith),
      insert_all-append [] (e ∷ m) d,
    )

length-encode_string_entry :
    (k v : Bytes) (m : Map Bytes Bytes)
    → length (encode_string_entries ((k, v) ∷ m))
      ≡ 8 + length k + length v + length (encode_string_entries m)
unfolding encode_string_entries
length-encode_string_entry k v m = omega (
  arith,
  length-append (encode_string k) (encode_string v ++ encode_string_entries m),
  length-append (encode_string v) (encode_string_entries m),
  length-encode_string k,
  length-encode_string v,
)

decode-encode_string_entries :
    (m : Map Bytes Bytes) (rest : Bytes) (out : Map Bytes Bytes)
    → FitStringEntries m
    → length (encode_string_entries m) + length rest < u32_mod
    → decode_string_entries (length m) (encode_string_entries m ++ rest) out ≡ ok (insert_all out m)
unfolding decode_string_entries encode_string_entries insert_all
decode-encode_string_entries [] rest out fit room = refl
decode-encode_string_entries ((k, v) ∷ m) rest out (fk, fv, fits) room =
    let total = length-encode_string_entry k v m in
    let more = length-append (encode_string_entries m) rest in
    let tail = encode_string_entries m ++ rest in
    let after = length-append (encode_string v) tail in
    let size = length-encode_string v in
    rw (
      append_assoc (encode_string k) (encode_string v ++ encode_string_entries m) rest,
      append_assoc (encode_string v) (encode_string_entries m) rest,
      decode-encode_string k (encode_string v ++ tail) fk (omega arith),
      decode-encode_string v tail fv (omega arith),
      decode-encode_string_entries m rest (insert k v out) fits (omega arith),
    )

encode_string_entries_size :
    (m : Map Bytes Bytes)
    → FitStringEntries m
    → length (encode_string_entries m) ≤ length m * (8 + 2 * max_string)
encode_string_entries_size [] fit = unfold encode_string_entries in omega arith
encode_string_entries_size ((k, v) ∷ m) (fk, fv, fits) =
    omega (arith, length-encode_string_entry k v m, encode_string_entries_size m fits)

-- A map of at most 128 entries, with keys and values of at most 8192 bytes, is read back from its
-- encoding.
pub decode-encode_string_to_string_map :
    (m : Map Bytes Bytes)
    → FitStringEntries m
    → Distinct m
    → length m ≤ max_entries
    → decode_string_to_string_map (encode_string_to_string_map m) ≡ ok m
unfolding decode_string_to_string_map encode_string_to_string_map put_le
decode-encode_string_to_string_map [] fit d h = refl
decode-encode_string_to_string_map (e ∷ m) fit d h =
    let n = length (e ∷ m) in
    let size : n % u32_mod ≡ n = omega arith in
    let count = get_le-put_le 4 (n % u32_mod) (omega arith) ∙ size in
    let entries = encode_string_entries (e ∷ m) in
    let bound = encode_string_entries_size (e ∷ m) fit in
    rw (
      count,
      ltb-false (length (put_le 4 (n % u32_mod) ++ entries)) 4 (omega arith),
      ltb-false max_entries n h,
      ← append-nil entries,
      decode-encode_string_entries (e ∷ m) [] [] fit (omega arith),
      insert_all-append [] (e ∷ m) d,
    )
