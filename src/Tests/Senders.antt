-- ===== src/Tests/Senders.antt =====
-- senders.go on two goroutines that send through a queue of one place.
use channel.Base.{ℕ, ◌≡◌, ◌≤◌, true, false, refl, arith, List, [], ◌∷◌, ◌++◌, if◌then◌else◌, length}
use channel.Senders.{
  SendState, begins, picks_queue, QueueStep, sends, takes, queue_step, run_queue, new_queue,
}
use channel.Senders.Invariant.{is_queued, occurrences}
use channel.Senders.Delivery.{sent_exactly_once, sequence_numbers_distinct}
use channel.Senders.Retry.{MessageQueue}
use channel.Senders.Sources.{
  SourceView, SourceCase, receives, q1, q2, close_notify, underlay_notify, single_queue_source,
  two_queue_source, three_queue_source, receive_from,
}
use channel.Senders.Sources.InTurn.{sources_in_turn}
use channel.Senders.Sources.Serving.{IsServed, has_one, has_two, has_three, run_source, from_queue}

-- 3 is queued and taken, 5 waits for the queue.
abbrev to_waiting : List QueueStep
to_waiting = sends begins 3 ∷ sends begins 5 ∷ sends picks_queue 3 ∷ takes ∷ []

abbrev waiting_state : SendState
waiting_state = run_queue (new_queue 1) to_waiting

sent_exactly_once_example :
    (occurrences 3 (waiting_state.taken ++ waiting_state.items)
      ≡ (if is_queued (waiting_state.stage 3) then 1 else 0))
    × (length waiting_state.items ≤ waiting_state.capacity)
sent_exactly_once_example = sent_exactly_once 1 to_waiting 3

sequence_numbers_distinct_example : ◌≡◌ {A = ℕ} 5 5
unfolding run_queue queue_step new_queue
sequence_numbers_distinct_example =
    sequence_numbers_distinct (λ n. n) 1 to_waiting 5 5
      (λ i j small_i small_j e. omega (arith, small_i, small_j, e)) (omega arith) refl refl refl

abbrev queues : List MessageQueue
queues = record { capacity = 1; items = 2 ∷ [] } ∷ record { capacity = 4; items = 1 ∷ [] } ∷ []

abbrev held_queues : SourceView
held_queues = record {
  first = 1 ∷ 2 ∷ [];
  second = 8 ∷ 9 ∷ [];
  third = 4 ∷ [];
  closed = true;
  notified = false;
}

abbrev cases_taken : List SourceCase
cases_taken =
    receives q2
    ∷ receives q1
    ∷ underlay_notify
    ∷ receives q2
    ∷ receives q2
    ∷ close_notify
    ∷ receives q1
    ∷ []

sources_in_turn_example :
    IsServed single_queue_source has_one cases_taken held_queues q2
    × IsServed two_queue_source has_two cases_taken held_queues q2
    × IsServed three_queue_source has_three cases_taken held_queues q2
sources_in_turn_example = sources_in_turn cases_taken held_queues q2

two_take_all_of_second :
    (from_queue q2 (run_source two_queue_source cases_taken held_queues).handed ≡ 8 ∷ 9 ∷ [])
    × ((run_source two_queue_source cases_taken held_queues).view.first ≡ 2 ∷ [])
unfolding run_source two_queue_source receive_from
two_take_all_of_second = (refl, refl)
