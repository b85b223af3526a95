-- ===== src/Base/Maps.antt =====
-- Go maps as association lists. The list is one order in which `range` may visit the map, so a
-- statement over every list of distinct keys holds whatever order the runtime picks.
use channel.Base.Tests.{◌==◌ as nat_beq, ==_iff, if◌then◌else◌}
use channel.Base.Lists.{length}
use Prim.Native.Nat.{ℕ, ◌+◌}
use mathlib.Core.Path.{◌≡◌, refl, sym, ◌∙◌}
use mathlib.Core.Logic.{◌↔◌, ◌≢◌}
use mathlib.Core.Bool.{Bool, true, false, ◌&&◌}
use mathlib.Core.Option.{Option, none, some}
use mathlib.Core.List.{List, [], ◌∷◌, ◌++◌, append_assoc, append-nil}
use native.Mathlib.Omega.{arith}

-- The equality that a map's keys are compared by.
pub record Eq {ℓ} (A : Type ℓ) : Type ℓ where
  pub beq : A → A → Bool
  pub beq_iff : (a b : A) → (beq a b ≡ true) ↔ (a ≡ b)

instance abbrev pub nat_eq : Eq ℕ
nat_eq = record { beq = nat_beq; beq_iff = ==_iff }

-- Go strings as keys: `bytes.Equal`, and `==` on strings.
abbrev pub bytes_beq : List ℕ → List ℕ → Bool
bytes_beq [] [] = true
bytes_beq [] (y ∷ ys) = false
bytes_beq (x ∷ xs) [] = false
bytes_beq (x ∷ xs) (y ∷ ys) = nat_beq x y && bytes_beq xs ys

pub bytes_beq_iff : (xs ys : List ℕ) → (bytes_beq xs ys ≡ true) ↔ (xs ≡ ys)
bytes_beq_iff [] [] = (λ _. refl, λ _. refl)
bytes_beq_iff [] (y ∷ ys) = (λ e. cc, λ e. cc)
bytes_beq_iff (x ∷ xs) [] = (λ e. cc, λ e. cc)
bytes_beq_iff (x ∷ xs) (y ∷ ys) =
    (λ e. ground (arith, bytes_beq_iff xs ys), λ e. ground (arith, bytes_beq_iff xs ys))

instance abbrev pub bytes_eq : Eq (List ℕ)
bytes_eq = record { beq = bytes_beq; beq_iff = bytes_beq_iff }

abbrev pub is_none {ℓ} : {A : Type ℓ} → Option A → Bool
is_none none = true
is_none (some a) = false

abbrev pub Map {ℓ κ} : Type ℓ → Type κ → Type (ℓ ⊔ κ)
Map K V = List (K × V)

module _ {ℓ κ} {K : Type ℓ} {V : Type κ} ⦃e : Eq K⦄ where
  -- `v, found := m[k]`
  unfoldable pub lookup : K → Map K V → Option V
  lookup k [] = none
  lookup k ((j, v) ∷ m) = if e.beq j k then some v else lookup k m

  -- `m[k] = v`
  unfoldable pub insert : K → V → Map K V → Map K V
  insert k v [] = (k, v) ∷ []
  insert k v ((j, w) ∷ m) = if e.beq j k then (j, v) ∷ m else (j, w) ∷ insert k v m

  -- `delete(m, k)`
  unfoldable pub delete : K → Map K V → Map K V
  delete k [] = []
  delete k ((j, w) ∷ m) = if e.beq j k then delete k m else (j, w) ∷ delete k m

  pub lookup-insert :
      (k j : K) (v : V) (m : Map K V)
      → lookup j (insert k v m) ≡ (if e.beq k j then some v else lookup j m)
  unfolding lookup insert
  lookup-insert k j v [] = refl
  lookup-insert k j v ((i, w) ∷ m) =
      ground (arith, e.beq_iff k j, e.beq_iff i k, e.beq_iff i j, lookup-insert k j v m)

  pub lookup-insert_self : (k : K) (v : V) (m : Map K V) → lookup k (insert k v m) ≡ some v
  lookup-insert_self k v m = rw (lookup-insert k k v m, (e.beq_iff k k).1 refl)

  pub lookup-insert_ne :
      (k j : K) (v : V) (m : Map K V) → k ≢ j → lookup j (insert k v m) ≡ lookup j m
  lookup-insert_ne k j v m h = ground (arith, lookup-insert k j v m, e.beq_iff k j)

  pub lookup-delete :
      (k j : K) (m : Map K V) → lookup j (delete k m) ≡ (if e.beq k j then none else lookup j m)
  unfolding lookup delete
  lookup-delete k j [] = ground arith
  lookup-delete k j ((i, w) ∷ m) =
      ground (arith, e.beq_iff k j, e.beq_iff i k, e.beq_iff i j, lookup-delete k j m)

  -- No key stands twice: what a list must satisfy to be the entries of a map.
  abbrev pub Distinct : Map K V → Type κ
  Distinct [] = Unit {κ}
  Distinct ((k, v) ∷ m) = (lookup k m ≡ none) × Distinct m

  -- A run of assignments, in the order of the list.
  unfoldable pub insert_all : Map K V → Map K V → Map K V
  insert_all m [] = m
  insert_all m ((k, v) ∷ kvs) = insert_all (insert k v m) kvs

  pub insert_fresh :
      (k : K) (v : V) (m : Map K V) → lookup k m ≡ none → insert k v m ≡ m ++ ((k, v) ∷ [])
  unfolding lookup insert
  insert_fresh k v [] h = refl
  insert_fresh k v ((j, w) ∷ m) h = ground (arith, insert_fresh k v m)

  lookup-append_none : (k : K) (xs ys : Map K V) → lookup k (xs ++ ys) ≡ none → lookup k xs ≡ none
  unfolding lookup
  lookup-append_none k [] ys h = refl
  lookup-append_none k ((j, w) ∷ xs) ys h = ground (arith, lookup-append_none k xs ys)

  lookup-middle : (k : K) (v : V) (xs ys : Map K V) → lookup k (xs ++ ((k, v) ∷ ys)) ≢ none
  unfolding lookup
  lookup-middle k v [] ys h = ground (arith, e.beq_iff k k)
  lookup-middle k v ((j, w) ∷ xs) ys h = ground (arith, lookup-middle k v xs ys)

  -- The key of a distinct list's middle entry is not among the entries before it.
  lookup_before :
      (k : K) (v : V) (xs ys : Map K V) → Distinct (xs ++ ((k, v) ∷ ys)) → lookup k xs ≡ none
  unfolding lookup
  lookup_before k v [] ys d = refl
  lookup_before k v ((j, w) ∷ xs) ys d =
      ground (arith, e.beq_iff j k, lookup-middle k v xs ys, lookup_before k v xs ys d.1, d.0)

  -- Assigning distinct entries one by one builds the list that they form.
  pub insert_all-append : (m kvs : Map K V) → Distinct (m ++ kvs) → insert_all m kvs ≡ m ++ kvs
  unfolding insert_all
  insert_all-append m [] d = sym (append-nil m)
  insert_all-append m ((k, v) ∷ kvs) d =
      let e = append_assoc m ((k, v) ∷ []) kvs in
      rw (insert_fresh k v m (lookup_before k v m kvs d))
        (insert_all-append (m ++ ((k, v) ∷ [])) kvs (rw e d) ∙ e)

  pub insert-Distinct : (k : K) (v : V) (m : Map K V) → Distinct m → Distinct (insert k v m)
  unfolding insert
  insert-Distinct k v [] d = (unfold lookup in refl, tt)
  insert-Distinct k v ((j, w) ∷ m) d =
      ground (arith, insert-Distinct k v m, lookup-insert k j v m, e.beq_iff k j, e.beq_iff j k)

  pub delete-Distinct : (k : K) (m : Map K V) → Distinct m → Distinct (delete k m)
  unfolding delete
  delete-Distinct k [] d = tt
  delete-Distinct k ((j, w) ∷ m) d = ground (arith, lookup-delete k j m, delete-Distinct k m)

  -- A map's size goes by what was at the key.
  pub length-insert :
      (k : K) (v : V) (m : Map K V)
      → length (insert k v m) ≡ length m + (if is_none (lookup k m) then 1 else 0)
  unfolding insert lookup
  length-insert k v [] = refl
  length-insert k v ((j, w) ∷ m) = ground (arith, length-insert k v m)

  delete_absent : (k : K) (m : Map K V) → lookup k m ≡ none → delete k m ≡ m
  unfolding delete lookup
  delete_absent k [] h = refl
  delete_absent k ((j, w) ∷ m) h = ground (arith, delete_absent k m)

  pub length-delete :
      (k : K) (m : Map K V)
      → Distinct m
      → length (delete k m) + (if is_none (lookup k m) then 0 else 1) ≡ length m
  unfolding delete lookup
  length-delete k [] d = refl
  length-delete k ((j, w) ∷ m) d =
      ground (arith, length-delete k m, delete_absent k m, e.beq_iff j k)
