-- ===== src/Senders/Delivery.antt =====
-- What a queue promises to those who send through it.
use channel.Base.{
  ℕ, ◌%◌, ◌^◌, ◌≤◌, ◌<◌, ◌≡◌, refl, sym, ◌∙◌, arith, List, [], ◌∷◌, ◌++◌, true, not, ◌&&◌, none,
  some, if◌then◌else◌, if-keeps, length, append_assoc, append-nil, Bool-cases, inl, inr,
}
use channel.Base.Bytes.{u32_mod}
use channel.Base.Maps.{is_none}
use channel.Senders.{
  SendResult, queued, not_queued, timeout_error, closed_error, SendStage, numbered, returned,
  SendState, begin_with, has_space, select_done, select_closed, select_queue, select_default,
  SendAction, begins, picks_done, picks_closed, picks_queue, picks_default, send_at, take_item,
  QueueStep, sends, takes, closes, expires, queue_step, run_queue, new_queue, sequence_number,
  not_sent,
}
use channel.Senders.Invariant.{
  is_queued, has_number, occurrences, run_queue-QueueInv, new_queue-QueueInv,
}

-- Whatever goroutines send, whatever is taken and whenever the channel closes: a sendable whose `Send`
-- returned nil is exactly once in the queue or among those taken from it, every other is in neither, and
-- the queue keeps to its capacity.
pub sent_exactly_once :
    (capacity : ℕ) (steps : List QueueStep) (t : ℕ)
    → (occurrences t (
          (run_queue (new_queue capacity) steps).taken
          ++ (run_queue (new_queue capacity) steps).items)
        ≡ (if is_queued ((run_queue (new_queue capacity) steps).stage t) then 1 else 0))
      × (length (run_queue (new_queue capacity) steps).items
          ≤ (run_queue (new_queue capacity) steps).capacity)
sent_exactly_once capacity steps t =
    let inv = run_queue-QueueInv (new_queue capacity) steps (new_queue-QueueInv capacity) in
    (inv.placed t, inv.bounded)

-- Two sendables that wait in a select, are queued or were queued have different sequence numbers, as
-- long as 2 ^ 32 were given at most, where the sequence does not repeat an int32 in that many calls.
pub sequence_numbers_distinct :
    (next : ℕ → ℕ) (capacity : ℕ) (steps : List QueueStep) (t u : ℕ)
    → ((i j : ℕ) → i < 2 ^ 32 → j < 2 ^ 32 → next i % u32_mod ≡ next j % u32_mod → i ≡ j)
    → (run_queue (new_queue capacity) steps).counter ≤ 2 ^ 32
    → has_number ((run_queue (new_queue capacity) steps).stage t) ≡ true
    → has_number ((run_queue (new_queue capacity) steps).stage u) ≡ true
    → sequence_number next (run_queue (new_queue capacity) steps) t
      ≡ sequence_number next (run_queue (new_queue capacity) steps) u
    → t ≡ u
sequence_numbers_distinct next capacity steps t u differ few of_t of_u e =
    let inv = run_queue-QueueInv (new_queue capacity) steps (new_queue-QueueInv capacity) in
    let s = run_queue (new_queue capacity) steps in
    inv.unique t u of_t of_u (
      differ (s.sequence_of t) (s.sequence_of u) (omega (arith, inv.below t of_t))
        (omega (arith, inv.below u of_u)) e)

abbrev Extends : List ℕ → List ℕ → Type 0
Extends before after = (later : List ℕ) × (after ≡ before ++ later)

same_items : (s : SendState) → Extends (s.taken ++ s.items) (s.taken ++ s.items)
same_items s = ([], sym (append-nil (s.taken ++ s.items)))

abbrev Keeps : SendState → SendState → Type 0
Keeps s s' = Extends (s.taken ++ s.items) (s'.taken ++ s'.items)

send_at-Keeps : (p : SendStage) (a : SendAction) (t : ℕ) (s : SendState) → Keeps s (send_at p a t s)
unfolding send_at select_done select_closed select_queue select_default begin_with
send_at-Keeps not_sent begins t s =
    elim (s.context_error_of t) as (λ o. Keeps s (begin_with o t s)) [
      | none ↦ same_items s
      | some e ↦ same_items s
    ]
send_at-Keeps numbered picks_done t s =
    if-keeps (Keeps s) (is_none (s.context_error_of t)) (λ _. same_items s) (λ _. same_items s)
send_at-Keeps numbered picks_closed t s =
    if-keeps (Keeps s) s.is_closed (λ _. same_items s) (λ _. same_items s)
send_at-Keeps numbered picks_queue t s =
    if-keeps (Keeps s) (has_space s) (λ _. (t ∷ [], sym (append_assoc s.taken s.items (t ∷ []))))
      (λ _. same_items s)
send_at-Keeps numbered picks_default t s =
    if-keeps (Keeps s) (is_none (s.context_error_of t) && (not s.is_closed && not (has_space s)))
      (λ _. same_items s) (λ _. same_items s)
send_at-Keeps not_sent picks_done t s = same_items s
send_at-Keeps not_sent picks_closed t s = same_items s
send_at-Keeps not_sent picks_queue t s = same_items s
send_at-Keeps not_sent picks_default t s = same_items s
send_at-Keeps numbered begins t s = same_items s
send_at-Keeps (returned r) a t s = same_items s

take_item-Keeps : (s : SendState) (xs : List ℕ) → s.items ≡ xs → Keeps s (take_item xs s)
unfolding take_item
take_item-Keeps s [] e = same_items s
take_item-Keeps s (x ∷ xs) e =
    ([], append_assoc s.taken (x ∷ []) xs ∙ (rw e (sym (append-nil (s.taken ++ (x ∷ xs))))))

queue_step-Keeps : (s : SendState) (a : QueueStep) → Keeps s (queue_step s a)
unfolding queue_step
queue_step-Keeps s (sends a t) = send_at-Keeps (s.stage t) a t s
queue_step-Keeps s takes = take_item-Keeps s s.items refl
queue_step-Keeps s closes = same_items s
queue_step-Keeps s (expires t e) = same_items s

-- First in, first out: what was taken and what is queued, in that order, only ever grows at its end, so
-- that nothing overtakes, is lost or comes back, from any state and by any steps.
pub first_in_first_out :
    (s : SendState) (steps : List QueueStep)
    → (later : List ℕ) × ((run_queue s steps).taken ++ (run_queue s steps).items
        ≡ (s.taken ++ s.items) ++ later)
unfolding run_queue
first_in_first_out s [] = same_items s
first_in_first_out s (a ∷ steps) =
    let (now, e) = queue_step-Keeps s a in
    let (later, h) = first_in_first_out (queue_step s a) steps in
    (now ++ later, h ∙ rw e (append_assoc (s.taken ++ s.items) now later))

abbrev Returns : SendState → ℕ → SendAction → Type 0
Returns s t a = (r : SendResult) × ((queue_step s (sends a t)).stage t ≡ returned r)

-- `TrySend` never blocks: in its select some case is always ready, and takes it to its return.
pub try_send_returns :
    (s : SendState) (t : ℕ)
    → s.stage t ≡ numbered
    → (a : SendAction) × (r : SendResult) × ((queue_step s (sends a t)).stage t ≡ returned r)
unfolding queue_step send_at select_done select_closed select_queue select_default
try_send_returns s t e = elim (Bool-cases (is_none (s.context_error_of t))) [
  | inr d ↦ (picks_done, timeout_error, rw e (ground arith))
  | inl d ↦ elim (Bool-cases s.is_closed) [
    | inl c ↦ (picks_closed, closed_error, rw e (ground arith))
    | inr c ↦ elim (Bool-cases (has_space s)) [
      | inl q ↦ (picks_queue, queued, rw e (ground arith))
      | inr q ↦ (picks_default, not_queued, rw e (ground arith))
    ]
  ]
]
