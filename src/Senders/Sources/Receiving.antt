-- ===== src/Senders/Sources/Receiving.antt =====
-- What a receive from one of the queues leaves of all of them.
use channel.Base.{
  ℕ, ◌≡◌, ◌⊎◌, inl, inr, refl, List, [], ◌∷◌, true, Option, none, some, if◌then◌else◌,
}
use channel.Senders.Sources.{SourceQueue, q1, q2, q3, SourceView, SourceTurn, took, receive_from}
use channel.Senders.Sources.Serving.{queue_of, is_same}

List-cases : (xs : List ℕ) → (xs ≡ []) ⊎ ((x : ℕ) × (rest : List ℕ) × (xs ≡ x ∷ rest))
List-cases [] = inl refl
List-cases (x ∷ rest) = inr (x, rest, refl)

abbrev pub GivesTo : Option SourceTurn → SourceQueue → SourceView → Type 0
GivesTo turn p v =
    ((turn ≡ none) × (queue_of p v ≡ []))
    ⊎ ((x : ℕ) × (v' : SourceView) × (turn ≡ some (took x v'))
        × (v'.closed ≡ v.closed)
        × (v'.notified ≡ v.notified)
        × ((q : SourceQueue)
            → queue_of q v ≡ (if is_same p q then x ∷ queue_of q v' else queue_of q v')))

pub receive_from-cases : (p : SourceQueue) (v : SourceView) → GivesTo (receive_from p v) p v
unfolding receive_from
receive_from-cases q1 v = elim (List-cases v.first) [
  | inl none_left ↦ inl (rw (none_left) refl, none_left)
  | inr (x, rest, held) ↦
      inr (x, record v { first = rest }, rw (held) refl, refl, refl, λ q. same_one held q)
]
  where
    same_one :
        {x : ℕ} {rest : List ℕ}
        → v.first ≡ x ∷ rest
        → (q : SourceQueue)
        → queue_of q v ≡ (
            if is_same q1 q
            then x ∷ queue_of q (record v { first = rest })
            else queue_of q (record v { first = rest }))
    same_one held q1 = held
    same_one held q2 = refl
    same_one held q3 = refl
receive_from-cases q2 v = elim (List-cases v.second) [
  | inl none_left ↦ inl (rw (none_left) refl, none_left)
  | inr (x, rest, held) ↦
      inr (x, record v { second = rest }, rw (held) refl, refl, refl, λ q. same_one held q)
]
  where
    same_one :
        {x : ℕ} {rest : List ℕ}
        → v.second ≡ x ∷ rest
        → (q : SourceQueue)
        → queue_of q v ≡ (
            if is_same q2 q
            then x ∷ queue_of q (record v { second = rest })
            else queue_of q (record v { second = rest }))
    same_one held q1 = refl
    same_one held q2 = held
    same_one held q3 = refl
receive_from-cases q3 v = elim (List-cases v.third) [
  | inl none_left ↦ inl (rw (none_left) refl, none_left)
  | inr (x, rest, held) ↦
      inr (x, record v { third = rest }, rw (held) refl, refl, refl, λ q. same_one held q)
]
  where
    same_one :
        {x : ℕ} {rest : List ℕ}
        → v.third ≡ x ∷ rest
        → (q : SourceQueue)
        → queue_of q v ≡ (
            if is_same q3 q
            then x ∷ queue_of q (record v { third = rest })
            else queue_of q (record v { third = rest }))
    same_one held q1 = refl
    same_one held q2 = refl
    same_one held q3 = held

pub is_same-≡ : (p q : SourceQueue) → is_same p q ≡ true → p ≡ q
is_same-≡ q1 q1 e = refl
is_same-≡ q2 q2 e = refl
is_same-≡ q3 q3 e = refl
is_same-≡ q1 q2 e = absurd (cc)
is_same-≡ q1 q3 e = absurd (cc)
is_same-≡ q2 q1 e = absurd (cc)
is_same-≡ q2 q3 e = absurd (cc)
is_same-≡ q3 q1 e = absurd (cc)
is_same-≡ q3 q2 e = absurd (cc)
