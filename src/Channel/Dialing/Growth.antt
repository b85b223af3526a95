-- ===== src/Channel/Dialing/Growth.antt =====
-- What grows while a channel dials: the underlays of each type, and nothing else of what the loop reads.
use channel.Base.{
  ℕ, ◌+◌, ◌-◌, ◌≤◌, ◌≡◌, refl, ◌∙◌, arith, List, [], ◌∷◌, ◌++◌, Bool, true, false, not, Option,
  some, if-keeps, length, length-append, All,
}
use channel.Base.Bytes.{Bytes}
use channel.Base.Maps.{Map, bytes_beq, bytes_beq_iff}
use channel.Underlays.{Underlay, get_underlay_type, counts_by_type, add}
use channel.Underlays.Laws.{of_type}
use channel.Channel.{
  UnderlayConstraint, ChannelImpl, is_multi_underlay_capable, secret_of, AcceptError,
  start_underlay, accept_underlay,
}
use channel.Channel.Constraints.{counts_valid}
use channel.Channel.Enforcement.{MeetsMinimums, counts_valid_iff}

-- Each constraint's desire, counted over the underlays themselves.
abbrev pub MeetsDesires : List Underlay → Map Bytes UnderlayConstraint → Type 0
MeetsDesires us [] = Unit
MeetsDesires us ((t, k) ∷ cs) = (k.desired ≤ of_type t us) × MeetsDesires us cs

-- How many underlays the constraints still ask for.
abbrev pub deficit : List Underlay → Map Bytes UnderlayConstraint → ℕ
deficit us [] = 0
deficit us ((t, k) ∷ cs) = (k.desired - of_type t us) + deficit us cs

-- Every dial for the type of a constraint gives an underlay of that type with the group secret.
abbrev pub DialsAll :
    (ℕ → Bytes → Bool → Option Underlay) → Bytes → Map Bytes UnderlayConstraint → Type 0
DialsAll policy secret cs =
    All
      (λ (entry : Bytes × UnderlayConstraint).
        (n : ℕ) (first : Bool)
        → (u : Underlay) × (policy n entry.0 first ≡ some u)
          × (get_underlay_type u ≡ entry.0)
          × (secret_of u ≡ secret))
      cs

pub of_type-append :
    (t : Bytes) (us vs : List Underlay) → of_type t (us ++ vs) ≡ of_type t us + of_type t vs
of_type-append t [] vs = omega arith
of_type-append t (u ∷ us) vs = omega (arith, of_type-append t us vs)

-- A channel that grew, and is otherwise as it was.
pub record Grown (c d : ChannelImpl) : Type 0 where
  pub opened : d.is_closed ≡ false
  pub capable : is_multi_underlay_capable d ≡ true
  pub same_secret : d.group_secret ≡ c.group_secret
  pub same_constraints : d.constraints ≡ c.constraints
  pub same_total : d.min_total_underlays ≡ c.min_total_underlays
  pub more : (t : Bytes) → of_type t c.underlays.entries ≤ of_type t d.underlays.entries
  pub longer : length c.underlays.entries ≤ length d.underlays.entries

pub Grown-here :
    (c : ChannelImpl) → c.is_closed ≡ false → is_multi_underlay_capable c ≡ true → Grown c c
Grown-here c opened capable = record {
  opened = opened;
  capable = capable;
  same_secret = refl;
  same_constraints = refl;
  same_total = refl;
  more = λ t. omega arith;
  longer = omega arith;
}

pub Grown-trans : (c d e : ChannelImpl) → Grown c d → Grown d e → Grown c e
Grown-trans c d e g h = record {
  opened = h.opened;
  capable = h.capable;
  same_secret = h.same_secret ∙ g.same_secret;
  same_constraints = h.same_constraints ∙ g.same_constraints;
  same_total = h.same_total ∙ g.same_total;
  more = λ t. omega (arith, g.more t, h.more t);
  longer = omega (arith, g.longer, h.longer);
}

-- An underlay that is accepted adds one to its type.
pub accept_underlay-Grown :
    (u : Underlay) (c : ChannelImpl)
    → c.is_closed ≡ false
    → is_multi_underlay_capable c ≡ true
    → secret_of u ≡ c.group_secret
    → Grown c (accept_underlay u c).0
      × (of_type (get_underlay_type u) (accept_underlay u c).0.underlays.entries
          ≡ of_type (get_underlay_type u) c.underlays.entries + 1)
unfolding accept_underlay start_underlay add is_multi_underlay_capable
accept_underlay-Grown u c opened capable knows =
    let us = c.underlays.entries in
    let t0 = get_underlay_type u in
    let spec : ChannelImpl × Option AcceptError → Type 0 =
      λ r. Grown c r.0 × (of_type t0 r.0.underlays.entries ≡ of_type t0 us + 1) in
    if-keeps spec (not (is_multi_underlay_capable c)) (λ e. absurd (ground (arith, e, capable)))
      (λ _.
        if-keeps spec (not (bytes_beq (secret_of u) c.group_secret))
          (λ e. absurd (ground (arith, e, (bytes_beq_iff (secret_of u) c.group_secret).1 knows)))
          (λ _.
            if-keeps spec c.is_closed (λ e. absurd (ground (arith, e, opened)))
              (λ _. (
                record {
                  opened = opened;
                  capable = capable;
                  same_secret = refl;
                  same_constraints = refl;
                  same_total = refl;
                  more = λ t. omega (arith, of_type-append t us (u ∷ []));
                  longer = omega (arith, length-append us (u ∷ []));
                },
                ground (arith, of_type-append t0 us (u ∷ []), (bytes_beq_iff t0 t0).1 refl),
              ))))

pub MeetsMinimums-more :
    (us vs : List Underlay) (cs : Map Bytes UnderlayConstraint)
    → ((t : Bytes) → of_type t us ≤ of_type t vs)
    → MeetsMinimums us cs
    → MeetsMinimums vs cs
MeetsMinimums-more us vs [] more h = tt
MeetsMinimums-more us vs ((t, k) ∷ cs) more h =
    (omega (arith, more t, h.0), MeetsMinimums-more us vs cs more h.1)

pub MeetsDesires-more :
    (us vs : List Underlay) (cs : Map Bytes UnderlayConstraint)
    → ((t : Bytes) → of_type t us ≤ of_type t vs)
    → MeetsDesires us cs
    → MeetsDesires vs cs
MeetsDesires-more us vs [] more h = tt
MeetsDesires-more us vs ((t, k) ∷ cs) more h =
    (omega (arith, more t, h.0), MeetsDesires-more us vs cs more h.1)

-- A channel that grew still meets its constraints.
pub counts_valid-Grown :
    (c d : ChannelImpl)
    → Grown c d
    → counts_valid c (counts_by_type c.underlays) ≡ true
    → counts_valid d (counts_by_type d.underlays) ≡ true
counts_valid-Grown c d g valid =
    let met = (counts_valid_iff c).0 valid in
    (counts_valid_iff d).1 (record {
      minimums = rw (g.same_constraints) (
          MeetsMinimums-more c.underlays.entries d.underlays.entries c.constraints g.more
            met.minimums);
      minimum_total = omega (arith, met.minimum_total, g.longer, g.same_total);
    })
