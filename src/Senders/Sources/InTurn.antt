-- ===== src/Senders/Sources/InTurn.antt =====
-- The message sources serve their queues in turn.
use channel.Base.{
  ℕ, zero, suc, ◌≡◌, ap, subst, inl, inr, refl, List, [], ◌∷◌, Bool, true, false, none, some,
  if◌then◌else◌, take, drop, Option-cases, Bool-cases,
}
use channel.Senders.Sources.{
  SourceQueue, q1, q2, q3, SourceCase, receives, close_notify, underlay_notify, SourceView, took,
  eof, receive_from, single_queue_source, two_queue_source, three_queue_source,
}
use channel.Senders.Sources.Receiving.{receive_from-cases, is_same-≡}
use channel.Senders.Sources.Serving.{
  Source, queue_of, is_same, run_source, until_closing, has_closing, turns_of, has_one, has_two,
  has_three, IsServed,
}

-- A source by what it has.
abbrev source_over : (SourceQueue → Bool) → Source
source_over has (receives q) v = if has q then receive_from q v else none
source_over has close_notify v = if v.closed then some eof else none
source_over has underlay_notify v = if v.notified then some eof else none

run_alike :
    (s s' : Source) (h : (c : SourceCase) (v : SourceView) → s c v ≡ s' c v) (cs : List SourceCase)
    (v : SourceView)
    → run_source s cs v ≡ run_source s' cs v
unfolding run_source
run_alike s s' h [] v = refl
run_alike s s' h (c ∷ cs) v = elim (Option-cases (s' c v)) [
  | inl skipped ↦ rw (run_source, h c v, skipped) (run_alike s s' h cs v)
  | inr (eof, e) ↦ rw (run_source, h c v, e) refl
  | inr (took x v', e) ↦ rw (run_source, h c v, e, run_alike s s' h cs v') refl
]

-- `handed` and `left` are the two parts of `held`.
abbrev SplitsAt : ℕ → List ℕ → List ℕ → List ℕ → Type 0
SplitsAt n held handed left = (handed ≡ take n held) × (left ≡ drop n held)

splits_nothing : (b : Bool) (held : List ℕ) → SplitsAt (if b then 0 else 0) held [] held
splits_nothing true held = (refl, refl)
splits_nothing false held = (refl, refl)

-- A turn to a queue that holds nothing.
turn_to_empty :
    (has same : Bool) (n : ℕ) (held handed left : List ℕ)
    → (same ≡ true → held ≡ [])
    → SplitsAt (if has then n else 0) held handed left
    → SplitsAt (if has then (if same then suc n else n) else 0) held handed left
turn_to_empty false same n held handed left empty h = h
turn_to_empty true false n held handed left empty h = h
turn_to_empty true true zero [] handed left empty h = h
turn_to_empty true true (suc n) [] handed left empty h = h
turn_to_empty true true n (x ∷ held) handed left empty h = absurd (nonempty (empty refl))
  where
    nonempty : ¬ (x ∷ held ≡ [])
    nonempty e = cc

-- A turn to a queue of the source that hands out `x`.
turn_takes :
    (has same : Bool) (n x : ℕ) (held held' handed left : List ℕ)
    → (same ≡ true → has ≡ true)
    → held ≡ (if same then x ∷ held' else held')
    → SplitsAt (if has then n else 0) held' handed left
    → SplitsAt
        (if has then (if same then suc n else n) else 0)
        held
        (if same then x ∷ handed else handed)
        left
turn_takes true true n x held held' handed left ok e h = rw (e) (ap (λ l. x ∷ l) h.0, h.1)
turn_takes false true n x held held' handed left ok e h = absurd (cc (ok refl))
turn_takes true false n x held held' handed left ok e h = rw (e) h
turn_takes false false n x held held' handed left ok e h = rw (e) h

-- A turn to a queue that the source does not have.
turn_to_absent :
    (has same : Bool) (n : ℕ) (held handed left : List ℕ)
    → (same ≡ true → has ≡ false)
    → SplitsAt (if has then n else 0) held handed left
    → SplitsAt (if has then (if same then suc n else n) else 0) held handed left
turn_to_absent false same n held handed left absent h = h
turn_to_absent true false n held handed left absent h = h
turn_to_absent true true n held handed left absent h = absurd (cc (absent refl))

over_IsServed :
    (has : SourceQueue → Bool) (cs : List SourceCase) (v : SourceView) (q : SourceQueue)
    → IsServed (source_over has) has cs v q
unfolding run_source
over_IsServed has [] v q = let h = splits_nothing (has q) (queue_of q v) in (h.0, h.1, refl)
over_IsServed has (receives p ∷ cs) v q = elim (Bool-cases (has p)) [
  | inl it_has ↦ elim (receive_from-cases p v) [
    | inl (nothing, empty) ↦
        let rest = over_IsServed has cs v q in
        let h =
          turn_to_empty (has q) (is_same p q) (turns_of q (until_closing v.closed v.notified cs))
            (queue_of q v) _ _ (λ same. subst (λ k. queue_of k v ≡ []) (is_same-≡ p q same) empty)
            (rest.0, rest.1) in
        rw (run_source, it_has, nothing) (h.0, h.1, rest.2)
    | inr (x, v', took_x, same_closed, same_notified, queues) ↦
        let rest = over_IsServed has cs v' q in
        let turns : until_closing v'.closed v'.notified cs ≡ until_closing v.closed v.notified cs =
          rw (same_closed, same_notified) refl in
        let closing : has_closing v'.closed v'.notified cs ≡ has_closing v.closed v.notified cs =
          rw (same_closed, same_notified) refl in
        let h =
          turn_takes (has q) (is_same p q) (turns_of q (until_closing v.closed v.notified cs)) x
            (queue_of q v) (queue_of q v') _ _
            (λ same. subst (λ k. has k ≡ true) (is_same-≡ p q same) it_has) (queues q)
            (rw (turns) at rest.0, rw (turns) at rest.1) in
        rw (run_source, it_has, took_x) (h.0, h.1, rw (closing) at rest.2)
  ]
  | inr it_lacks ↦
      let rest = over_IsServed has cs v q in
      let h =
        turn_to_absent (has q) (is_same p q) (turns_of q (until_closing v.closed v.notified cs))
          (queue_of q v) _ _ (λ same. subst (λ k. has k ≡ false) (is_same-≡ p q same) it_lacks)
          (rest.0, rest.1) in
      rw (run_source, it_lacks) (h.0, h.1, rest.2)
]
over_IsServed has (close_notify ∷ cs) v q = elim (Bool-cases v.closed) [
  | inl shut ↦
      let h = splits_nothing (has q) (queue_of q v) in simp (run_source, shut) (h.0, h.1, refl)
  | inr stays ↦ simp (run_source, stays) (over_IsServed has cs v q)
]
over_IsServed has (underlay_notify ∷ cs) v q = elim (Bool-cases v.notified) [
  | inl shut ↦
      let h = splits_nothing (has q) (queue_of q v) in simp (run_source, shut) (h.0, h.1, refl)
  | inr stays ↦ simp (run_source, stays) (over_IsServed has cs v q)
]

single_is_over :
    (c : SourceCase) (v : SourceView) → single_queue_source c v ≡ source_over has_one c v
unfolding single_queue_source
single_is_over (receives q1) v = refl
single_is_over (receives q2) v = refl
single_is_over (receives q3) v = refl
single_is_over close_notify v = refl
single_is_over underlay_notify v = refl

two_is_over : (c : SourceCase) (v : SourceView) → two_queue_source c v ≡ source_over has_two c v
unfolding two_queue_source
two_is_over (receives q1) v = refl
two_is_over (receives q2) v = refl
two_is_over (receives q3) v = refl
two_is_over close_notify v = refl
two_is_over underlay_notify v = refl

three_is_over :
    (c : SourceCase) (v : SourceView) → three_queue_source c v ≡ source_over has_three c v
unfolding three_queue_source
three_is_over (receives q1) v = refl
three_is_over (receives q2) v = refl
three_is_over (receives q3) v = refl
three_is_over close_notify v = refl
three_is_over underlay_notify v = refl

like_over :
    (source : Source) (has : SourceQueue → Bool)
    (h : (c : SourceCase) (v : SourceView) → source c v ≡ source_over has c v)
    (cs : List SourceCase) (v : SourceView) (q : SourceQueue)
    → IsServed source has cs v q
like_over source has h cs v q =
    rw (run_alike source (source_over has) h cs v) (over_IsServed has cs v q)

-- The message sources over one, two and three queues, each called in turn along any schedule of the
-- cases of its select, on any queues: each hands out of a queue that it has as many items as the
-- schedule turned to that queue before the source ended, or all there are, the oldest first and each
-- once, and leaves the others in it; of a queue that it does not have it takes nothing. It ends at the
-- first turn to `closeNotify` or to the underlay's notifier where that is closed, and at no other.
pub sources_in_turn :
    (cs : List SourceCase) (v : SourceView) (q : SourceQueue)
    → IsServed single_queue_source has_one cs v q
      × IsServed two_queue_source has_two cs v q
      × IsServed three_queue_source has_three cs v q
sources_in_turn cs v q = (
  like_over single_queue_source has_one single_is_over cs v q,
  like_over two_queue_source has_two two_is_over cs v q,
  like_over three_queue_source has_three three_is_over cs v q,
)
