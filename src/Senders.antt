-- ===== src/Senders.antt =====
-- senders.go and message_source.go: sendables on their way through a queue. Sendable `t` is sent by its
-- own goroutine with `Send` or `TrySend`; a step is what runs between two waits, and where a `select`
-- has several ready cases the schedule picks one. The queue is a Go channel with a buffer of one place
-- at least. `RetryToQueues`, which puts failed sendables into a queue again, is not a step here: it is in
-- Senders/Retry, on its own queues. What the `n`-th call of the sequence's `Next` returns is a parameter, `next`.
pub mod Invariant
pub mod Delivery
pub mod Retry
pub mod Sources
use channel.Base.{
  ℕ, ◌+◌, ◌%◌, ◌==◌, List, [], ◌∷◌, ◌++◌, Bool, true, false, not, ◌&&◌, Option, none, some,
  if◌then◌else◌, ltb, length,
}
use channel.Base.Bytes.{Bytes, u32_mod}
use channel.Base.Maps.{Map, lookup, bytes_eq, is_none}

pub data ContextError : Type 0 where
  deadline_exceeded canceled other_error : ContextError

pub data SendResult : Type 0 where
  queued : SendResult  -- nil, or (true, nil)
  not_queued : SendResult  -- (false, nil) of `TrySend`
  timeout_error closed_error context_error : SendResult

pub data SendStage : Type 0 where
  not_sent : SendStage
  numbered : SendStage  -- has its sequence, in the select
  returned : SendResult → SendStage

pub record SendState : Type 0 where
  pub counter : ℕ  -- calls of `Next`
  pub capacity : ℕ
  pub items : List ℕ  -- the queue, oldest first
  pub taken : List ℕ  -- what message sources took from it, oldest first
  pub is_closed : Bool
  pub context_error_of : ℕ → Option ContextError
  pub sequence_of : ℕ → ℕ  -- which call gave it
  pub stage : ℕ → SendStage

abbrev pub update {ℓ} : {A : Type ℓ} → (ℕ → A) → ℕ → A → ℕ → A
update f k v j = if k == j then v else f j

abbrev pub at_stage : SendState → ℕ → SendStage → SendState
at_stage s t p = record s { stage = update s.stage t p }

unfoldable pub queue_context_err : ContextError → SendResult
queue_context_err deadline_exceeded = timeout_error
queue_context_err canceled = timeout_error
queue_context_err other_error = context_error

-- Up to the select: the context, and the next sequence.
unfoldable pub begin_with : Option ContextError → ℕ → SendState → SendState
unfolding queue_context_err
begin_with (some e) t s = at_stage s t (returned (queue_context_err e))
begin_with none t s = record (at_stage s t numbered) {
  counter = s.counter + 1;
  sequence_of = update s.sequence_of t s.counter;
}

unfoldable pub has_space : SendState → Bool
has_space s = ltb (length s.items) s.capacity

-- A case of the select that is not ready changes nothing.
unfoldable pub select_done : ℕ → SendState → SendState
select_done t s =
    if is_none (s.context_error_of t) then s else at_stage s t (returned timeout_error)

unfoldable pub select_closed : ℕ → SendState → SendState
select_closed t s = if s.is_closed then at_stage s t (returned closed_error) else s

unfoldable pub select_queue : ℕ → SendState → SendState
unfolding has_space
select_queue t s =
    if has_space s
    then record (at_stage s t (returned queued)) { items = s.items ++ (t ∷ []) }
    else s

-- The default of `TrySend`, where no other case is ready.
unfoldable pub select_default : ℕ → SendState → SendState
unfolding has_space
select_default t s =
    if is_none (s.context_error_of t) && (not s.is_closed && not (has_space s))
    then at_stage s t (returned not_queued)
    else s

pub data SendAction : Type 0 where
  begins picks_done picks_closed picks_queue picks_default : SendAction

unfoldable pub send_at : SendStage → SendAction → ℕ → SendState → SendState
unfolding begin_with select_done select_closed select_queue select_default
send_at not_sent begins t s = begin_with (s.context_error_of t) t s
send_at numbered picks_done t s = select_done t s
send_at numbered picks_closed t s = select_closed t s
send_at numbered picks_queue t s = select_queue t s
send_at numbered picks_default t s = select_default t s
send_at _ _ t s = s

-- A message source takes the oldest item.
unfoldable pub take_item : List ℕ → SendState → SendState
take_item [] s = s
take_item (t ∷ rest) s = record s { items = rest; taken = s.taken ++ (t ∷ []) }

pub data QueueStep : Type 0 where
  sends : SendAction → ℕ → QueueStep
  takes closes : QueueStep
  expires : ℕ → ContextError → QueueStep

unfoldable pub queue_step : SendState → QueueStep → SendState
unfolding send_at take_item
queue_step s (sends a t) = send_at (s.stage t) a t s
queue_step s takes = take_item s.items s
queue_step s closes = record s { is_closed = true }
queue_step s (expires t e) = record s { context_error_of = update s.context_error_of t (some e) }

unfoldable pub run_queue : SendState → List QueueStep → SendState
run_queue s [] = s
run_queue s (e ∷ es) = run_queue (queue_step s e) es

unfoldable pub new_queue : ℕ → SendState
new_queue capacity = record {
  counter = 0;
  capacity = capacity;
  items = [];
  taken = [];
  is_closed = false;
  context_error_of = λ t. none;
  sequence_of = λ t. 0;
  stage = λ t. not_sent;
}

-- What `NextSequence` gave a sendable: an int32, as its bit pattern.
abbrev pub sequence_number : (ℕ → ℕ) → SendState → ℕ → ℕ
sequence_number next s t = next (s.sequence_of t) % u32_mod

-- `SimpleMessageSourceProvider.GetMessageSource`; sources are named by numbers.
unfoldable pub source_or : ℕ → Option ℕ → ℕ
source_or default_source none = default_source
source_or default_source (some source) = source

unfoldable pub get_message_source : ℕ → Map Bytes ℕ → Bytes → ℕ
unfolding source_or lookup
get_message_source default_source sources underlay_type =
    source_or default_source (lookup underlay_type sources)
