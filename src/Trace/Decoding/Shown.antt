-- ===== src/Trace/Decoding/Shown.antt =====
-- What a trace shows of a result, and that the text of a trace does not depend on the order of a map.
use channel.Base.{
  ℕ, suc, ◌≡◌, refl, ap, ◌∙◌, sym, arith, List, [], ◌∷◌, ◌++◌, Bool, true, false, ◌||◌, Option,
  some, if◌then◌else◌, length, Bool-cases, inl, inr,
}
use channel.Base.Bytes.{Bytes}
use channel.Base.Maps.{lookup, bytes_eq, bytes_beq, bytes_beq_iff}
use channel.Message.{Message}
use channel.Message.Keys.{content_type_result}
use channel.Handshake.{unmarshal_result}
use channel.Trace.Decoding.{
  FieldValue, TraceMessageDecode, result_fields, fields_of, decode, string_le, put_in_order,
  sort_strings, other_keys, key_texts, decode_trace_and_format, decoder_field_name,
  message_field_name,
}

string_le_total : (xs ys : Bytes) → string_le xs ys ≡ false → string_le ys xs ≡ true
unfolding string_le
string_le_total [] ys h = absurd (cc)
string_le_total (x ∷ xs) [] h = refl
string_le_total (x ∷ xs) (y ∷ ys) h = ground (arith, string_le_total xs ys)

string_le_antisym : (xs ys : Bytes) → string_le xs ys ≡ true → string_le ys xs ≡ true → xs ≡ ys
unfolding string_le
string_le_antisym [] [] h k = refl
string_le_antisym [] (y ∷ ys) h k = absurd (cc)
string_le_antisym (x ∷ xs) [] h k = absurd (cc)
string_le_antisym (x ∷ xs) (y ∷ ys) h k = ground (arith, string_le_antisym xs ys)

string_le_trans :
    (xs ys zs : Bytes) → string_le xs ys ≡ true → string_le ys zs ≡ true → string_le xs zs ≡ true
unfolding string_le
string_le_trans [] ys zs h k = refl
string_le_trans (x ∷ xs) [] zs h k = absurd (cc)
string_le_trans (x ∷ xs) (y ∷ ys) [] h k = absurd (cc)
string_le_trans (x ∷ xs) (y ∷ ys) (z ∷ zs) h k = ground (arith, string_le_trans xs ys zs)

-- Two keys are put in order in either order.
put_in_order-swap :
    (a b : Bytes) (ks : List Bytes)
    → put_in_order a (put_in_order b ks) ≡ put_in_order b (put_in_order a ks)
unfolding put_in_order
put_in_order-swap a b [] =
    ground (arith, string_le_total a b, string_le_total b a, string_le_antisym a b)
put_in_order-swap a b (k ∷ ks) = ground (
  arith,
  put_in_order-swap a b ks,
  string_le_total a b,
  string_le_total b a,
  string_le_antisym a b,
  string_le_total a k,
  string_le_total b k,
  string_le_trans a b k,
  string_le_trans b a k,
  string_le_trans a k b,
  string_le_trans b k a,
)

-- A result in a trace shows its success and never its text: any two results that agree on the one are
-- shown alike, whatever their texts.
pub result_text_untraced :
    (marshal : TraceMessageDecode → Option Bytes) (m n : Message)
    → m.content_type ≡ content_type_result
    → n.content_type ≡ content_type_result
    → (unmarshal_result m).success ≡ (unmarshal_result n).success
    → decode marshal m ≡ decode marshal n
unfolding decode fields_of result_fields
result_text_untraced marshal m n is_result is_result' agree =
    let same_fields : result_fields m ≡ result_fields n = rw agree refl in
    rw (is_result, is_result', same_fields) refl

-- Two entries change places.
abbrev pub swapped :
    Bytes × FieldValue
    → Bytes × FieldValue
    → TraceMessageDecode
    → TraceMessageDecode
    → TraceMessageDecode
swapped a b xs ys = xs ++ (a ∷ b ∷ ys)

lookup-swapped :
    (a b : Bytes × FieldValue) (xs ys : TraceMessageDecode) (k : Bytes)
    → bytes_beq a.0 b.0 ≡ false
    → lookup k (swapped a b xs ys) ≡ lookup k (swapped b a xs ys)
unfolding lookup
lookup-swapped a b [] ys k other = elim (Bool-cases (bytes_beq a.0 k)) [
  | inl same ↦
      let e = (bytes_beq_iff a.0 k).0 same in
      elim (Bool-cases (bytes_beq b.0 k)) [
        | inl same' ↦
            let e' = (bytes_beq_iff b.0 k).0 same' in
            let own = (bytes_beq_iff a.0 b.0).1 (e ∙ sym e') in absurd (cc (own, other))
        | inr other' ↦ rw (same, other') refl
      ]
  | inr other' ↦ rw other' refl
]
lookup-swapped a b ((j, v) ∷ xs) ys k other =
    ap (λ o. if bytes_beq j k then some v else o) (lookup-swapped a b xs ys k other)

length-swapped :
    (a b : Bytes × FieldValue) (xs ys : TraceMessageDecode)
    → length (swapped a b xs ys) ≡ length (swapped b a xs ys)
length-swapped a b [] ys = refl
length-swapped a b (x ∷ xs) ys = ap suc (length-swapped a b xs ys)

-- A key is put in order unless it is that of the decoder or of the message.
abbrev is_built_in : Bytes → Bool
is_built_in k = bytes_beq k decoder_field_name || bytes_beq k message_field_name

abbrev put_unless : Bool → Bytes → List Bytes → List Bytes
put_unless b k ks = if b then ks else put_in_order k ks

put_unless-swap :
    (p q : Bool) (j k : Bytes) (ks : List Bytes)
    → put_unless p j (put_unless q k ks) ≡ put_unless q k (put_unless p j ks)
put_unless-swap true q j k ks = refl
put_unless-swap false true j k ks = refl
put_unless-swap false false j k ks = put_in_order-swap j k ks

sort-other_keys :
    (k : Bytes) (v : FieldValue) (meta : TraceMessageDecode)
    → sort_strings (other_keys ((k, v) ∷ meta))
      ≡ put_unless (is_built_in k) k (sort_strings (other_keys meta))
unfolding other_keys sort_strings
sort-other_keys k v meta = elim (Bool-cases (is_built_in k)) [
  | inl built_in ↦ rw built_in refl
  | inr other ↦ rw other refl
]

sort-swapped :
    (a b : Bytes × FieldValue) (xs ys : TraceMessageDecode)
    → sort_strings (other_keys (swapped a b xs ys)) ≡ sort_strings (other_keys (swapped b a xs ys))
sort-swapped (j, v) (k, w) [] ys =
    sort-other_keys j v ((k, w) ∷ ys)
    ∙ ap (put_unless (is_built_in j) j) (sort-other_keys k w ys)
    ∙ put_unless-swap (is_built_in j) (is_built_in k) j k (sort_strings (other_keys ys))
    ∙ ap (put_unless (is_built_in k) k) (sym (sort-other_keys j v ys))
    ∙ sym (sort-other_keys k w ((j, v) ∷ ys))
sort-swapped a b ((k, v) ∷ xs) ys =
    sort-other_keys k v (swapped a b xs ys)
    ∙ ap (put_unless (is_built_in k) k) (sort-swapped a b xs ys)
    ∙ sym (sort-other_keys k v (swapped b a xs ys))

module _ (number_text : ℕ → Bytes) (type_text : FieldValue → Bytes)
    (other_text : Option FieldValue → Bytes) (padded : ℕ → Bytes → Bytes) where
  key_texts-lookup :
      (is_first : Bool) (ks : List Bytes) (m n : TraceMessageDecode)
      → ((k : Bytes) → lookup k m ≡ lookup k n)
      → key_texts number_text type_text other_text padded is_first ks m
        ≡ key_texts number_text type_text other_text padded is_first ks n
  unfolding key_texts
  key_texts-lookup is_first [] m n same = refl
  key_texts-lookup is_first (k ∷ ks) m n same = rw (same k, key_texts-lookup false ks m n same) refl

  -- The text of a trace does not depend on the order in which Go ranges over the map of its fields: when
  -- two neighbours with different keys change places, wherever they stand, the text is the same.
  pub text_ignores_order :
      (a b : Bytes × FieldValue) (xs ys : TraceMessageDecode)
      → bytes_beq a.0 b.0 ≡ false
      → decode_trace_and_format number_text type_text other_text padded (some (swapped a b xs ys))
        ≡ decode_trace_and_format number_text type_text other_text padded (some (swapped b a xs ys))
  unfolding decode_trace_and_format
  text_ignores_order a b xs ys other =
      let same = λ (k : Bytes). lookup-swapped a b xs ys k other in
      rw
        (
          same decoder_field_name,
          same message_field_name,
          length-swapped a b xs ys,
          sort-swapped a b xs ys,
          key_texts-lookup true (sort_strings (other_keys (swapped b a xs ys))) (swapped a b xs ys)
              (swapped b a xs ys) same,
        )
        refl
