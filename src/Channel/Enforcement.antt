-- ===== src/Channel/Enforcement.antt =====
-- `applyConstraints` before it dials: a channel that goes on has what its constraints ask for.
use channel.Base.{
  ◌==◌, ◌≤◌, ◌≡◌, ◌↔◌, ◌⊎◌, inl, inr, refl, arith, List, [], ◌∷◌, Bool, true, false, ◌&&◌, if-keeps,
  length,
}
use channel.Base.Bytes.{Bytes}
use channel.Base.Maps.{Map}
use channel.Underlays.{Underlay, Underlays, counts_by_type}
use channel.Underlays.Laws.{of_type, count_of-counts_by_type, total_count-counts_by_type}
use channel.Channel.{UnderlayConstraint, ChannelImpl}
use channel.Channel.Acceptance.{is_closed-close}
use channel.Channel.Constraints.{
  minimums_met, counts_valid, check_constraints_valid, apply_constraints_check,
}

-- Each constraint's minimum, counted over the underlays themselves.
abbrev pub MeetsMinimums : List Underlay → Map Bytes UnderlayConstraint → Type 0
MeetsMinimums us [] = Unit
MeetsMinimums us ((t, k) ∷ cs) = (k.min_count ≤ of_type t us) × MeetsMinimums us cs

pub record MeetsConstraints (c : ChannelImpl) : Type 0 where
  pub minimums : MeetsMinimums c.underlays.entries c.constraints
  pub minimum_total : c.min_total_underlays ≤ length c.underlays.entries

minimums_met-MeetsMinimums :
    (us : Underlays) (cs : Map Bytes UnderlayConstraint)
    → (minimums_met cs (counts_by_type us) ≡ true) ↔ MeetsMinimums us.entries cs
unfolding minimums_met
minimums_met-MeetsMinimums us [] = ((λ _. tt), (λ _. refl))
minimums_met-MeetsMinimums us ((t, k) ∷ cs) =
    let counted = count_of-counts_by_type t us in
    let rest = minimums_met-MeetsMinimums us cs in
    (
      (λ e. (ground (arith, counted, e), rest.0 (ground (arith, e)))),
      (λ m. ground (arith, counted, m.0, rest.1 m.1)),
    )

-- The counts are valid exactly if the underlays meet the constraints, type by type and in total.
pub counts_valid_iff :
    (c : ChannelImpl) → (counts_valid c (counts_by_type c.underlays) ≡ true) ↔ MeetsConstraints c
unfolding counts_valid
counts_valid_iff c =
    let minimums = minimums_met-MeetsMinimums c.underlays c.constraints in
    let added = total_count-counts_by_type c.underlays in
    (
      (λ e. record {
        minimums = minimums.0 (ground (arith, e));
        minimum_total = ground (arith, added, e);
      }),
      (λ m. ground (arith, added, minimums.1 m.minimums, m.minimum_total)),
    )

-- The check of a channel that has constraints or a minimum total has one of two outcomes: either the
-- channel is open, meets them all, is left alone and the caller goes on, or the caller stops and the
-- channel is closed.
pub apply_constraints_enforced :
    (c : ChannelImpl)
    → ((length c.constraints == 0) && (c.min_total_underlays == 0)) ≡ false
    → ((apply_constraints_check c ≡ (c, true)) × MeetsConstraints c × (c.is_closed ≡ false))
      ⊎ (((apply_constraints_check c).1 ≡ false) × ((apply_constraints_check c).0.is_closed ≡ true))
unfolding apply_constraints_check check_constraints_valid
apply_constraints_enforced c constrained =
    let enforced : ChannelImpl × Bool → Type 0 = λ r.
      ((r ≡ (c, true)) × MeetsConstraints c × (c.is_closed ≡ false))
      ⊎ ((r.1 ≡ false) × (r.0.is_closed ≡ true)) in
    if-keeps enforced ((length c.constraints == 0) && (c.min_total_underlays == 0))
      (λ free. absurd (ground (arith, free, constrained)))
      (λ _.
        if-keeps enforced c.is_closed (λ shut. inr (refl, shut))
          (λ opened.
            if-keeps enforced (counts_valid c (counts_by_type c.underlays))
              (λ valid. inl (refl, (counts_valid_iff c).0 valid, opened))
              (λ _. inr (refl, is_closed-close c))))
