-- ===== src/Senders/Invariant.antt =====
-- The invariant of a queue and of those who send through it.
use channel.Base.{
  ℕ, ◌+◌, ◌==◌, ◌≤◌, ◌<◌, ◌≡◌, refl, ap, ◌∙◌, arith, List, [], ◌∷◌, ◌++◌, Bool, true, false, not,
  ◌&&◌, ◌||◌, Option, none, some, if◌then◌else◌, if-keeps, length, length-append, append_assoc,
}
use channel.Base.Maps.{is_none}
use channel.Senders.{
  ContextError, deadline_exceeded, canceled, other_error, timeout_error, closed_error,
  context_error, not_queued, queued, SendStage, not_sent, numbered, returned, SendState, at_stage,
  begin_with, queue_context_err, has_space, select_done, select_closed, select_queue,
  select_default, SendAction, begins, picks_done, picks_closed, picks_queue, picks_default, send_at,
  take_item, QueueStep, sends, takes, closes, expires, queue_step, run_queue, new_queue,
}

abbrev pub is_queued : SendStage → Bool
is_queued (returned queued) = true
is_queued _ = false

-- The sendable has had its sequence.
abbrev pub is_waiting : SendStage → Bool
is_waiting numbered = true
is_waiting _ = false

abbrev pub has_number : SendStage → Bool
has_number p = is_waiting p || is_queued p

abbrev pub occurrences : ℕ → List ℕ → ℕ
occurrences t [] = 0
occurrences t (x ∷ xs) = (if x == t then 1 else 0) + occurrences t xs

pub record QueueInv (s : SendState) : Type 0 where
  pub bounded : length s.items ≤ s.capacity
  pub placed :
      (t : ℕ) → occurrences t (s.taken ++ s.items) ≡ (if is_queued (s.stage t) then 1 else 0)
  pub below : (t : ℕ) → has_number (s.stage t) ≡ true → s.sequence_of t < s.counter
  pub unique :
      (t u : ℕ)
      → has_number (s.stage t) ≡ true
      → has_number (s.stage u) ≡ true
      → s.sequence_of t ≡ s.sequence_of u
      → t ≡ u

pub occurrences-append :
    (t : ℕ) (xs ys : List ℕ) → occurrences t (xs ++ ys) ≡ occurrences t xs + occurrences t ys
occurrences-append t [] ys = omega arith
occurrences-append t (x ∷ xs) ys = ground (arith, occurrences-append t xs ys)

-- A stage that is not in the queue, for one that was not.
module _ (t : ℕ) (s : SendState) (inv : QueueInv s) where
  at_stage-QueueInv :
      (p : SendStage)
      → is_queued (s.stage t) ≡ false
      → has_number p ≡ false
      → QueueInv (at_stage s t p)
  at_stage-QueueInv p before after = record {
    bounded = inv.bounded;
    placed = λ u. ground (arith, inv.placed u);
    below = λ u h. ground (arith, inv.below u);
    unique = λ u v h k e. ground (arith, inv.unique u v);
  }

  begin-QueueInv : (o : Option ContextError) → s.stage t ≡ not_sent → QueueInv (begin_with o t s)
  unfolding begin_with queue_context_err
  begin-QueueInv (some deadline_exceeded) e =
      at_stage-QueueInv (returned timeout_error) (rw e refl) refl
  begin-QueueInv (some canceled) e = at_stage-QueueInv (returned timeout_error) (rw e refl) refl
  begin-QueueInv (some other_error) e = at_stage-QueueInv (returned context_error) (rw e refl) refl
  begin-QueueInv none e = record {
    bounded = inv.bounded;
    placed = λ u. ground (arith, inv.placed u, e);
    below = λ u h. ground (arith, inv.below u);
    unique = λ u v h k p. ground (arith, inv.unique u v, inv.below u, inv.below v);
  }

  queue-QueueInv : s.stage t ≡ numbered → QueueInv (select_queue t s)
  unfolding select_queue
  queue-QueueInv e =
      if-keeps QueueInv (has_space s)
        (λ space. record {
          bounded = ground (arith, length-append s.items (t ∷ []), space);
          placed = λ u.
              let moved : occurrences u (s.taken ++ (s.items ++ (t ∷ [])))
                  ≡ occurrences u (s.taken ++ s.items) + occurrences u (t ∷ []) =
                omega (
                  arith,
                  occurrences-append u s.taken (s.items ++ (t ∷ [])),
                  occurrences-append u s.items (t ∷ []),
                  occurrences-append u s.taken s.items,
                ) in
              ground (arith, moved, inv.placed u, e);
          below = λ u h. ground (arith, inv.below u, e);
          unique = λ u v h k p. ground (arith, inv.unique u v, e);
        })
        (λ _. inv)

  send_at-QueueInv : (p : SendStage) (a : SendAction) → s.stage t ≡ p → QueueInv (send_at p a t s)
  unfolding send_at select_done select_closed select_default
  send_at-QueueInv not_sent begins e = begin-QueueInv (s.context_error_of t) e
  send_at-QueueInv numbered picks_done e =
      if-keeps QueueInv (is_none (s.context_error_of t)) (λ _. inv)
        (λ _. at_stage-QueueInv (returned timeout_error) (rw e refl) refl)
  send_at-QueueInv numbered picks_closed e =
      if-keeps QueueInv s.is_closed
        (λ _. at_stage-QueueInv (returned closed_error) (rw e refl) refl) (λ _. inv)
  send_at-QueueInv numbered picks_queue e = queue-QueueInv e
  send_at-QueueInv numbered picks_default e =
      if-keeps QueueInv (is_none (s.context_error_of t) && (not s.is_closed && not (has_space s)))
        (λ _. at_stage-QueueInv (returned not_queued) (rw e refl) refl) (λ _. inv)
  send_at-QueueInv not_sent picks_done e = inv
  send_at-QueueInv not_sent picks_closed e = inv
  send_at-QueueInv not_sent picks_queue e = inv
  send_at-QueueInv not_sent picks_default e = inv
  send_at-QueueInv numbered begins e = inv
  send_at-QueueInv (returned r) a e = inv

take_item-QueueInv :
    (s : SendState) (xs : List ℕ) → s.items ≡ xs → QueueInv s → QueueInv (take_item xs s)
unfolding take_item
take_item-QueueInv s [] e inv = inv
take_item-QueueInv s (x ∷ xs) e inv = record {
  bounded = omega (arith, rw e at inv.bounded);
  placed = λ t. ap (occurrences t) (append_assoc s.taken (x ∷ []) xs) ∙ rw e at (inv.placed t);
  below = inv.below;
  unique = inv.unique;
}

queue_step-QueueInv : (s : SendState) (a : QueueStep) → QueueInv s → QueueInv (queue_step s a)
unfolding queue_step
queue_step-QueueInv s (sends a t) inv = send_at-QueueInv t s inv (s.stage t) a refl
queue_step-QueueInv s takes inv = take_item-QueueInv s s.items refl inv
queue_step-QueueInv s closes inv = record {
  bounded = inv.bounded;
  placed = inv.placed;
  below = inv.below;
  unique = inv.unique;
}
queue_step-QueueInv s (expires t e) inv = record {
  bounded = inv.bounded;
  placed = inv.placed;
  below = inv.below;
  unique = inv.unique;
}

pub run_queue-QueueInv :
    (s : SendState) (steps : List QueueStep) → QueueInv s → QueueInv (run_queue s steps)
unfolding run_queue
run_queue-QueueInv s [] inv = inv
run_queue-QueueInv s (a ∷ steps) inv =
    run_queue-QueueInv (queue_step s a) steps (queue_step-QueueInv s a inv)

pub new_queue-QueueInv : (capacity : ℕ) → QueueInv (new_queue capacity)
unfolding new_queue
new_queue-QueueInv capacity = record {
  bounded = omega arith;
  placed = λ t. refl;
  below = λ t h. cc;
  unique = λ t u h k e. cc;
}
