-- ===== src/Senders/Sources.antt =====
-- message_source.go: the message sources over one, two or three queues, and NewSimpleMessageSourceProvider.
-- A queue is what it holds, oldest first; the schedule says which case of the select is taken.
pub mod Serving
pub mod Receiving
pub mod InTurn
use channel.Base.{ℕ, ◌≡◌, List, [], ◌∷◌, Bool, true, false, Option, none, some, if◌then◌else◌}
use channel.Base.Bytes.{Bytes}
use channel.Base.Maps.{Map}

pub data SourceQueue : Type 0 where
  q1 q2 q3 : SourceQueue

pub data SourceCase : Type 0 where
  receives : SourceQueue → SourceCase
  close_notify underlay_notify : SourceCase

-- What the cases of a select see: a channel that has fewer queues leaves the others empty.
pub record SourceView : Type 0 where
  pub first : List ℕ
  pub second : List ℕ
  pub third : List ℕ
  pub closed : Bool  -- `closeNotify` is closed
  pub notified : Bool  -- the underlay's CloseNotifier has notified

-- What a call of the source returns, with what the queues then hold.
pub data SourceTurn : Type 0 where
  took : ℕ → SourceView → SourceTurn
  eof : SourceTurn

-- A receive from a queue; none while it holds nothing.
unfoldable pub receive_from : SourceQueue → SourceView → Option SourceTurn
receive_from q1 v = elim v.first [
  | [] ↦ none
  | x ∷ rest ↦ some (took x (record v { first = rest }))
]
receive_from q2 v = elim v.second [
  | [] ↦ none
  | x ∷ rest ↦ some (took x (record v { second = rest }))
]
receive_from q3 v = elim v.third [
  | [] ↦ none
  | x ∷ rest ↦ some (took x (record v { third = rest }))
]

abbrev eof_if : Bool → Option SourceTurn
eof_if ready = if ready then some eof else none

-- The sources: the call goes on by the case given; none where that case is not ready, or not a case of
-- this source's select.
unfoldable pub single_queue_source : SourceCase → SourceView → Option SourceTurn
single_queue_source (receives q1) v = receive_from q1 v
single_queue_source (receives _) v = none
single_queue_source close_notify v = eof_if v.closed
single_queue_source underlay_notify v = eof_if v.notified

unfoldable pub two_queue_source : SourceCase → SourceView → Option SourceTurn
two_queue_source (receives q1) v = receive_from q1 v
two_queue_source (receives q2) v = receive_from q2 v
two_queue_source (receives _) v = none
two_queue_source close_notify v = eof_if v.closed
two_queue_source underlay_notify v = eof_if v.notified

unfoldable pub three_queue_source : SourceCase → SourceView → Option SourceTurn
three_queue_source (receives q1) v = receive_from q1 v
three_queue_source (receives q2) v = receive_from q2 v
three_queue_source (receives q3) v = receive_from q3 v
three_queue_source close_notify v = eof_if v.closed
three_queue_source underlay_notify v = eof_if v.notified

-- `NewSimpleMessageSourceProvider`: the default source, and no source of a type.
unfoldable pub new_simple_provider : ℕ → ℕ × Map Bytes ℕ
new_simple_provider default_source = (default_source, [])
