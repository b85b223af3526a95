-- ===== src/Senders/Sources/Serving.antt =====
-- A message source called time after time along a schedule, and what its queues are to be served.
use channel.Base.{
  ℕ, suc, ◌≡◌, List, [], ◌∷◌, Bool, true, false, Option, none, some, if◌then◌else◌, take, drop,
}
use channel.Senders.Sources.{
  SourceQueue, q1, q2, q3, SourceCase, receives, close_notify, underlay_notify, SourceView,
  SourceTurn, took, eof,
}

abbrev pub Source : Type 0
Source = SourceCase → SourceView → Option SourceTurn

abbrev pub queue_of : SourceQueue → SourceView → List ℕ
queue_of q1 v = v.first
queue_of q2 v = v.second
queue_of q3 v = v.third

abbrev pub is_same : SourceQueue → SourceQueue → Bool
is_same q1 q1 = true
is_same q2 q2 = true
is_same q3 q3 = true
is_same _ _ = false

-- What was handed out, each item with its queue; what is left; whether the source ended.
pub record SourceRun : Type 0 where
  pub handed : List (SourceQueue × ℕ)
  pub view : SourceView
  pub ended : Bool

abbrev pub hand : SourceCase → ℕ → SourceRun → SourceRun
hand (receives q) x r = record r { handed = (q, x) ∷ r.handed }
hand _ x r = r

-- The calls of a source until it ends; a case that is not ready is not taken.
unfoldable pub run_source : Source → List SourceCase → SourceView → SourceRun
run_source source [] v = record { handed = []; view = v; ended = false }
run_source source (c ∷ cs) v = elim (source c v) [
  | none ↦ run_source source cs v
  | some eof ↦ record { handed = []; view = v; ended = true }
  | some (took x v') ↦ let rest = run_source source cs v' in hand c x rest
]

abbrev pub from_queue : SourceQueue → List (SourceQueue × ℕ) → List ℕ
from_queue q [] = []
from_queue q ((p, x) ∷ handed) =
    if is_same p q then x ∷ from_queue q handed else from_queue q handed

-- The schedule up to the first notice of a closing that has happened, and whether there is one.
abbrev pub until_closing : Bool → Bool → List SourceCase → List SourceCase
until_closing closed notified [] = []
until_closing closed notified (receives q ∷ cs) = receives q ∷ until_closing closed notified cs
until_closing closed notified (close_notify ∷ cs) =
    if closed then [] else until_closing closed notified cs
until_closing closed notified (underlay_notify ∷ cs) =
    if notified then [] else until_closing closed notified cs

abbrev pub has_closing : Bool → Bool → List SourceCase → Bool
has_closing closed notified [] = false
has_closing closed notified (receives q ∷ cs) = has_closing closed notified cs
has_closing closed notified (close_notify ∷ cs) =
    if closed then true else has_closing closed notified cs
has_closing closed notified (underlay_notify ∷ cs) =
    if notified then true else has_closing closed notified cs

-- How often a schedule turns to a queue.
abbrev pub turns_of : SourceQueue → List SourceCase → ℕ
turns_of q [] = 0
turns_of q (receives p ∷ cs) = if is_same p q then suc (turns_of q cs) else turns_of q cs
turns_of q (_ ∷ cs) = turns_of q cs

abbrev pub has_one : SourceQueue → Bool
has_one q1 = true
has_one _ = false

abbrev pub has_two : SourceQueue → Bool
has_two q3 = false
has_two _ = true

abbrev pub has_three : SourceQueue → Bool
has_three q = true

-- Queue `q` was handed out as often as the run turned to it, its oldest items first, if the source has
-- it, and is left alone otherwise; the run ended at the first notice of a closing.
abbrev pub IsServed :
    Source → (SourceQueue → Bool) → List SourceCase → SourceView → SourceQueue → Type 0
IsServed source has cs v q =
    let run = run_source source cs v in
    let turns = if has q then turns_of q (until_closing v.closed v.notified cs) else 0 in
    (from_queue q run.handed ≡ take turns (queue_of q v))
    × (queue_of q run.view ≡ drop turns (queue_of q v))
    × (run.ended ≡ has_closing v.closed v.notified cs)
