-- ===== src/Channel/Constraints.antt =====
-- impl.go: the constraints on the number of underlays, and `applyConstraints` up to the point where
-- it starts to dial.
use channel.Base.{ℕ, ◌==◌, [], ◌∷◌, Bool, true, false, ◌&&◌, if◌then◌else◌, ltb, length}
use channel.Base.Bytes.{Bytes}
use channel.Base.Maps.{Map, lookup, bytes_eq}
use channel.Underlays.{count_or_zero, count_of, counts_by_type, total_count}
use channel.Channel.{UnderlayConstraint, ChannelImpl, close}

-- The loop over the constraints: every minimum is met.
unfoldable pub minimums_met : Map Bytes UnderlayConstraint → Map Bytes ℕ → Bool
unfolding count_or_zero lookup
minimums_met [] counts = true
minimums_met ((t, k) ∷ cs) counts =
    let rest = minimums_met cs counts in if ltb (count_of t counts) k.min_count then false else rest

unfoldable pub counts_valid : ChannelImpl → Map Bytes ℕ → Bool
unfolding minimums_met
counts_valid c counts =
    if minimums_met c.constraints counts
    then (if ltb (total_count counts) c.min_total_underlays then false else true)
    else false

-- `countsShowValidState` with the counts of now, as `checkConstraintsValid` calls it.
unfoldable pub check_constraints_valid : Bool → ChannelImpl → ChannelImpl × Bool
unfolding counts_valid counts_by_type close
check_constraints_valid close_if_invalid c =
    if counts_valid c (counts_by_type c.underlays)
    then (c, true)
    else if close_if_invalid
    then (close c, false)
    else (c, false)

-- `areConstraintDesiresSatisfied`
unfoldable pub desires_satisfied : Map Bytes UnderlayConstraint → Map Bytes ℕ → Bool
unfolding count_or_zero lookup
desires_satisfied [] counts = true
desires_satisfied ((t, k) ∷ cs) counts =
    let rest = desires_satisfied cs counts in
    if ltb (count_of t counts) k.desired then false else rest

-- The check that `applyConstraints` makes before it takes the in-progress guard, and whether it
-- goes on.
unfoldable pub apply_constraints_check : ChannelImpl → ChannelImpl × Bool
unfolding check_constraints_valid
apply_constraints_check c =
    if (length c.constraints == 0) && (c.min_total_underlays == 0)
    then (c, false)
    else if c.is_closed
    then (c, false)
    else check_constraints_valid true c
