-- ===== src/Wire/Versions.antt =====
-- Version negotiation: what a peer lists is what the other side reads and picks from.
use channel.Base.{
  ℕ, ◌*◌, ◌≤◌, ◌≡◌, refl, ap, ◌∙◌, arith, List, [], ◌∷◌, ◌++◌, Bool, true, false, Option, none,
  some, ltb-false, length, take-append, length-append, append_assoc, Bool-cases, inl, inr, All,
}
use channel.Base.Bytes.{Bytes, put_le, get_le-put_le}
use channel.Io.{Reader, contents}
use channel.Wire.{unsupported_version, magic_unknown_version, max_supported_version_count}
use channel.Wire.Read.{version_numbers, read_v2}
use channel.Wire.Hello.{
  put_all_u32, has_version, common_version, get_retry_version_for, get_retry_version,
  unknown_version_response,
}
use channel.Wire.HeaderSection.{IsU32}
use channel.Wire.Decode.{refused, observe, report, decode_versions, decode_v2, read_v2-decode}

length-put_all_u32 : (vals : List ℕ) → length (put_all_u32 vals) ≡ length vals * 4
unfolding put_all_u32 put_le
length-put_all_u32 [] = refl
length-put_all_u32 (val ∷ vals) = omega (arith, length-put_all_u32 vals)

version_numbers-put_all_u32 :
    (vals : List ℕ) → All IsU32 vals → version_numbers (put_all_u32 vals) ≡ vals
unfolding version_numbers put_all_u32 put_le
version_numbers-put_all_u32 [] h = refl
version_numbers-put_all_u32 (val ∷ vals) (hv, h) =
    rw (get_le-put_le 4 val hv, version_numbers-put_all_u32 vals h)

decode_versions-put_all_u32 :
    (n : ℕ) (vals : List ℕ) (rest : Bytes)
    → n ≡ length vals
    → n ≤ max_supported_version_count
    → All IsU32 vals
    → decode_versions (put_all_u32 (n ∷ vals) ++ rest) ≡ unsupported_version vals
unfolding decode_versions put_all_u32 put_le
decode_versions-put_all_u32 n vals rest e h fit =
    let list : Bytes = put_all_u32 vals ++ rest in
    let exact : n * 4 ≡ length (put_all_u32 vals) = omega (arith, length-put_all_u32 vals) in
    let room : n * 4 ≤ length list = omega (arith, length-append (put_all_u32 vals) rest) in
    let count = get_le-put_le 4 n (omega arith) in
    rw (
      ltb-false (length (put_all_u32 (n ∷ vals) ++ rest)) 4 (omega arith),
      count,
      ltb-false max_supported_version_count n h,
      ltb-false (length list) (n * 4) room,
      take-append (n * 4) (put_all_u32 vals) rest exact,
      version_numbers-put_all_u32 vals fit,
    )

decode_v2-unknown :
    (bs : Bytes) → decode_v2 (magic_unknown_version ++ bs) ≡ report (decode_versions bs)
unfolding decode_v2
decode_v2-unknown bs = rw (ltb-false (length (magic_unknown_version ++ bs)) 4 (omega arith))

-- A peer that reads a version response of at most 64 entries, with anything behind it and cut into
-- chunks in any way, reports exactly the versions that were listed.
pub read-versions :
    (vals : List ℕ) (rest : Bytes) (r : Reader)
    → length vals ≤ max_supported_version_count
    → All IsU32 vals
    → contents r ≡ magic_unknown_version ++ (put_all_u32 (length vals ∷ vals) ++ rest)
    → observe (read_v2 r) ≡ refused (unsupported_version vals)
read-versions vals rest r h fit e =
    read_v2-decode r
    ∙ ap decode_v2 e
    ∙ decode_v2-unknown (put_all_u32 (length vals ∷ vals) ++ rest)
    ∙ ap report (decode_versions-put_all_u32 (length vals) vals rest refl h fit)

abbrev pub Lists : ℕ → List ℕ → Type 0
Lists v vals = has_version v vals ≡ true

abbrev Common : List ℕ → List ℕ → Option ℕ → Type 0
Common locals supported (some v) = Lists v locals × Lists v supported
Common locals supported none = All (λ v. has_version v supported ≡ false) locals

Common-cons :
    (w : ℕ) (locals supported : List ℕ) (o : Option ℕ)
    → has_version w supported ≡ false
    → Common locals supported o
    → Common (w ∷ locals) supported o
unfolding has_version
Common-cons w locals supported none h c = (h, c)
Common-cons w locals supported (some v) h c = ground arith

common_version-Common :
    (locals supported : List ℕ) → Common locals supported (common_version locals supported)
unfolding common_version
common_version-Common [] supported = tt
common_version-Common (w ∷ locals) supported = elim (Bool-cases (has_version w supported)) [
  | inl hit ↦ rw hit ((unfold has_version in ground arith), hit)
  | inr miss ↦ rw miss (
      Common-cons w locals supported (common_version locals supported) miss
        (common_version-Common locals supported))
]

-- An agreed version is local and named by the peer; without one the default is kept, and no local
-- version is named by the peer.
abbrev pub Agreement : ℕ → List ℕ → List ℕ → ℕ × Bool → Type 0
Agreement default locals supported (v, true) = Lists v locals × Lists v supported
Agreement default locals supported (v, false) =
    (v ≡ default) × All (λ w. has_version w supported ≡ false) locals

-- The retry version is one that both sides know, whenever there is one; otherwise it is the default,
-- reported as no agreement.
pub get_retry_version_for-Agreement :
    (default : ℕ) (locals supported : List ℕ)
    → Agreement default locals supported
        (get_retry_version_for (unsupported_version supported) default locals)
unfolding get_retry_version_for
get_retry_version_for-Agreement default locals supported =
    pick (common_version locals supported) (common_version-Common locals supported)
  where
    pick :
        (o : Option ℕ)
        → Common locals supported o
        → Agreement default locals supported
            (elim o [ some version ↦ (version, true) | none ↦ (default, false) ])
    pick none c = (refl, c)
    pick (some v) c = c

-- What `WriteUnknownVersionResponse` writes makes the peer retry with version 2, by agreement,
-- wherever the stream is cut and whatever follows.
pub unknown_version_response-retry :
    (rest : Bytes) (r : Reader)
    → contents r ≡ unknown_version_response ++ rest
    → (vals : List ℕ) × (observe (read_v2 r) ≡ refused (unsupported_version vals))
      × (get_retry_version (unsupported_version vals) ≡ (2, true))
unfolding unknown_version_response
unknown_version_response-retry rest r e = (
  1 ∷ 2 ∷ [],
  read-versions (1 ∷ 2 ∷ []) rest r (omega arith) (omega arith)
      (e ∙ append_assoc magic_unknown_version (put_all_u32 (2 ∷ 1 ∷ 2 ∷ [])) rest),
  (unfold get_retry_version get_retry_version_for common_version has_version in refl),
)
