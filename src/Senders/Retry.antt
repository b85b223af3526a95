-- ===== src/Senders/Retry.antt =====
-- senders.go: `RetryToQueues`, which puts a sendable whose write failed back into a queue.
use channel.Base.{
  ℕ, ◌+◌, ◌≤◌, ◌≡◌, ◌⊎◌, refl, arith, List, [], ◌∷◌, ◌++◌, Bool, true, false, if◌then◌else◌, ltb,
  length, All, Bool-cases, inl, inr, length-append,
}
use channel.Senders.Invariant.{occurrences, occurrences-append}

pub record MessageQueue : Type 0 where
  pub capacity : ℕ
  pub items : List ℕ

unfoldable pub retry_to_queues : ℕ → List MessageQueue → Bool × List MessageQueue
retry_to_queues t [] = (false, [])
retry_to_queues t (q ∷ queues) =
    let rest = retry_to_queues t queues in
    if ltb (length q.items) q.capacity
    then (true, record q { items = q.items ++ (t ∷ []) } ∷ queues)
    else (rest.0, q ∷ rest.1)

abbrev pub in_queues : ℕ → List MessageQueue → ℕ
in_queues t [] = 0
in_queues t (q ∷ queues) = occurrences t q.items + in_queues t queues

abbrev pub IsFull : MessageQueue → Type 0
IsFull q = q.capacity ≤ length q.items

abbrev pub WithinCapacity : MessageQueue → Type 0
WithinCapacity q = length q.items ≤ q.capacity

occurrences_self : (t : ℕ) → occurrences t (t ∷ []) ≡ 1
occurrences_self t = ground arith

-- A retry either finds every queue full, reports so and leaves the queues alone, or puts the sendable
-- into the queues once.
pub retry_to_queues_once :
    (t : ℕ) (queues : List MessageQueue)
    → ((retry_to_queues t queues ≡ (false, queues)) × All IsFull queues)
      ⊎ (((retry_to_queues t queues).0 ≡ true)
          × (in_queues t (retry_to_queues t queues).1 ≡ in_queues t queues + 1))
unfolding retry_to_queues
retry_to_queues_once t [] = inl (refl, tt)
retry_to_queues_once t (q ∷ queues) = elim (Bool-cases (ltb (length q.items) q.capacity)) [
  | inl space ↦
      inr
        (rw space (refl, omega (arith, occurrences-append t q.items (t ∷ []), occurrences_self t)))
  | inr full ↦ elim (retry_to_queues_once t queues) [
    | inl (none_took, all_full) ↦ inl (rw (full, none_took) refl, (ground (arith, full), all_full))
    | inr (took, counted) ↦ inr (rw full (took, omega (arith, counted)))
  ]
]

-- No queue is filled above its capacity.
pub retry_to_queues-WithinCapacity :
    (t : ℕ) (queues : List MessageQueue)
    → All WithinCapacity queues
    → All WithinCapacity (retry_to_queues t queues).1
unfolding retry_to_queues
retry_to_queues-WithinCapacity t [] h = tt
retry_to_queues-WithinCapacity t (q ∷ queues) h =
    elim (Bool-cases (ltb (length q.items) q.capacity)) [
      | inl space ↦ rw space (ground (arith, length-append q.items (t ∷ []), space), h.1)
      | inr full ↦ rw full (h.0, retry_to_queues-WithinCapacity t queues h.1)
    ]
