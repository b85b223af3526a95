-- ===== src/Underlays/Laws.antt =====
-- What the set of underlays promises: an underlay is found once, and the counts are exact.
use channel.Base.{
  ℕ, ◌+◌, ◌==◌, ◌≡◌, ◌≢◌, refl, sym, ◌∙◌, arith, List, [], ◌∷◌, ◌++◌, true, false, if◌then◌else◌,
  length, Bool-cases, inl, inr, ==_iff,
}
use channel.Base.Bytes.{Bytes}
use channel.Base.Maps.{Map, lookup, insert, bytes_eq, bytes_beq, bytes_beq_iff, lookup-insert}
use channel.Underlays.{
  Underlay, Underlays, get_underlay_type, add, remove, remove_entry, count_of, count_or_zero,
  count_entries, counts_by_type, total_count,
}

-- No entry of the list is the underlay.
abbrev pub Absent : Underlay → List Underlay → Type 0
Absent u [] = Unit
Absent u (x ∷ xs) = (x.ident ≢ u.ident) × Absent u xs

-- No underlay is in the list twice.
abbrev pub Single : List Underlay → Type 0
Single [] = Unit
Single (x ∷ xs) = Absent x xs × Single xs

remove_entry-Absent :
    (u : Underlay) (xs : List Underlay) → Absent u xs → remove_entry u xs ≡ (false, xs)
unfolding remove_entry
remove_entry-Absent u [] h = refl
remove_entry-Absent u (x ∷ xs) h = ground (arith, remove_entry-Absent u xs h.1, h.0)

Absent-alike : (u x : Underlay) (xs : List Underlay) → x.ident ≡ u.ident → Absent x xs → Absent u xs
Absent-alike u x [] e h = tt
Absent-alike u x (y ∷ ys) e h = ((λ p. h.0 (p ∙ sym e)), Absent-alike u x ys e h.1)

Absent-without : (u : Underlay) (xs : List Underlay) → Single xs → Absent u (remove_entry u xs).1
unfolding remove_entry
Absent-without u [] s = tt
Absent-without u (x ∷ xs) s = elim (Bool-cases (x.ident == u.ident)) [
  | inl e ↦ rw e (Absent-alike u x xs ((==_iff x.ident u.ident).0 e) s.0)
  | inr e ↦ rw e (ground (arith, e), Absent-without u xs s.1)
]

-- From a set that holds no underlay twice, an underlay is taken out once: the second of the two
-- goroutines that remove it finds nothing and leaves the set alone, so the listeners are told once.
pub remove-remove :
    (u : Underlay) (us : Underlays)
    → Single us.entries
    → remove u (remove u us).1 ≡ (false, (remove u us).1)
unfolding remove
remove-remove u us s =
    rw (remove_entry-Absent u (remove_entry u us.entries).1 (Absent-without u us.entries s))

pub remove_entry-append :
    (u : Underlay) (xs : List Underlay) → Absent u xs → remove_entry u (xs ++ (u ∷ [])) ≡ (true, xs)
unfolding remove_entry
remove_entry-append u [] h = ground arith
remove_entry-append u (x ∷ xs) h = ground (arith, remove_entry-append u xs h.1, h.0)

-- What is added is taken out again, and the other entries keep their order.
pub remove-add :
    (u : Underlay) (us : Underlays) → Absent u us.entries → remove u (add u us) ≡ (true, us)
unfolding remove add
remove-add u us h = rw (remove_entry-append u us.entries h)

-- The entries of a type.
abbrev pub of_type : Bytes → List Underlay → ℕ
of_type t [] = 0
of_type t (u ∷ us) = (if bytes_beq (get_underlay_type u) t then 1 else 0) + of_type t us

count_of-count_entries :
    (t : Bytes) (us : List Underlay) (result : Map Bytes ℕ)
    → count_of t (count_entries us result) ≡ count_of t result + of_type t us
unfolding count_entries count_or_zero
count_of-count_entries t [] result = omega arith
count_of-count_entries t (u ∷ us) result =
    let k = get_underlay_type u in
    let grown : Map Bytes ℕ = insert k (count_of k result + 1) result in
    ground (
      arith,
      count_of-count_entries t us grown,
      bytes_beq_iff k t,
      lookup-insert k t (count_of k result + 1) result,
    )

-- The count of a type is the number of entries of the type.
pub count_of-counts_by_type :
    (t : Bytes) (us : Underlays) → count_of t (counts_by_type us) ≡ of_type t us.entries
unfolding counts_by_type count_or_zero lookup
count_of-counts_by_type t us = omega (arith, count_of-count_entries t us.entries [])

total_count-insert :
    (t : Bytes) (n : ℕ) (counts : Map Bytes ℕ)
    → total_count (insert t (count_of t counts + n) counts) ≡ total_count counts + n
unfolding insert lookup count_or_zero
total_count-insert t n [] = omega arith
total_count-insert t n ((k, c) ∷ counts) =
    ground (arith, total_count-insert t n counts, bytes_beq_iff k t)

total_count-count_entries :
    (us : List Underlay) (result : Map Bytes ℕ)
    → total_count (count_entries us result) ≡ total_count result + length us
unfolding count_entries
total_count-count_entries [] result = omega arith
total_count-count_entries (u ∷ us) result =
    let k = get_underlay_type u in
    let grown : Map Bytes ℕ = insert k (count_of k result + 1) result in
    omega (arith, total_count-count_entries us grown, total_count-insert k 1 result)

-- The counts over all types add up to the number of entries.
pub total_count-counts_by_type :
    (us : Underlays) → total_count (counts_by_type us) ≡ length us.entries
unfolding counts_by_type
total_count-counts_by_type us = omega (arith, total_count-count_entries us.entries [])
