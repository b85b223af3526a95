-- ===== src/Channel/Dialing/Progress.antt =====
-- The dial loop of `applyConstraints` ends when its dials succeed, with what the constraints ask for.
use channel.Base.{
  ℕ, zero, suc, ◌+◌, ◌≤◌, ◌<◌, ◌≡◌, refl, sym, subst, arith, [], ◌∷◌, Bool, true, false, not,
  Option, if◌then◌else◌, if-keeps, ltb,
}
use channel.Base.Bytes.{Bytes}
use channel.Base.Maps.{Map}
use channel.Underlays.{Underlay, count_of, counts_by_type}
use channel.Underlays.Laws.{of_type, count_of-counts_by_type}
use channel.Channel.{UnderlayConstraint, ChannelImpl, is_multi_underlay_capable}
use channel.Channel.Constraints.{counts_valid}
use channel.Channel.Dialing.{
  is_first_dial, accept_dialed, FillEnd, satisfied, Filling, dial_underlay, fill_pass, fill_loop,
}
use channel.Channel.Dialing.Growth.{
  MeetsDesires, deficit, DialsAll, Grown, Grown-here, Grown-trans, accept_underlay-Grown,
  MeetsDesires-more, counts_valid-Grown,
}

module _ (policy : ℕ → Bytes → Bool → Option Underlay) (meanwhile : ℕ → ChannelImpl → ChannelImpl)
    (quiet : (n : ℕ) (c : ChannelImpl) → meanwhile n c ≡ c) where
  dial_underlay-Grown :
      (t : Bytes) (k : UnderlayConstraint) (cs : Map Bytes UnderlayConstraint) (f : Filling)
      → DialsAll policy f.channel_now.group_secret ((t, k) ∷ cs)
      → f.channel_now.is_closed ≡ false
      → is_multi_underlay_capable f.channel_now ≡ true
      → Grown f.channel_now (dial_underlay policy meanwhile t f).channel_now
        × (of_type t (dial_underlay policy meanwhile t f).channel_now.underlays.entries
            ≡ of_type t f.channel_now.underlays.entries + 1)
  unfolding dial_underlay accept_dialed
  dial_underlay-Grown t k cs f dials opened capable =
      let c = f.channel_now in
      let (u, answer, typed, knows) = dials.0 f.dials (is_first_dial c) in
      let grown = accept_underlay-Grown u c opened capable knows in
      rw (quiet f.dials c, answer, sym typed) grown

  -- A pass only adds, and whatever its counts ask for comes closer.
  fill_pass-Grown :
      (c0 : ChannelImpl) (cs : Map Bytes UnderlayConstraint) (f : Filling)
      → DialsAll policy f.channel_now.group_secret cs
      → Grown c0 f.channel_now
      → Grown f.channel_now
          (fill_pass policy meanwhile (counts_by_type c0.underlays) cs f).0.channel_now
        × (deficit
                (fill_pass policy meanwhile
                  (counts_by_type c0.underlays)
                  cs
                  f).0.channel_now.underlays.entries
                cs
              + (if (fill_pass policy meanwhile (counts_by_type c0.underlays) cs f).1 then 0 else 1)
            ≤ deficit c0.underlays.entries cs)
  unfolding fill_pass
  fill_pass-Grown c0 [] f dials grown =
      (Grown-here f.channel_now grown.opened grown.capable, omega arith)
  fill_pass-Grown c0 ((t, k) ∷ cs) f dials grown =
      let counts = counts_by_type c0.underlays in
      let counted = count_of-counts_by_type t c0.underlays in
      let f1 = dial_underlay policy meanwhile t f in
      let spec : Filling × Bool → Type 0 = λ r.
        Grown f.channel_now r.0.channel_now
        × (deficit r.0.channel_now.underlays.entries ((t, k) ∷ cs) + (if r.1 then 0 else 1)
            ≤ deficit c0.underlays.entries ((t, k) ∷ cs)) in
      if-keeps spec (ltb (count_of t counts) k.desired)
        (λ wanting.
          let (now, one) = dial_underlay-Grown t k cs f dials grown.opened grown.capable in
          let (later, closer) =
            fill_pass-Grown c0 cs f1
              (subst (λ secret. DialsAll policy secret cs) (sym now.same_secret) dials.1)
              (Grown-trans c0 f.channel_now f1.channel_now grown now) in
          let short : of_type t c0.underlays.entries < k.desired =
            ground (arith, counted, wanting) in
          (
            Grown-trans f.channel_now f1.channel_now
                (fill_pass policy meanwhile counts cs f1).0.channel_now now later,
            omega (arith, closer, later.more t, one, grown.more t, short),
          ))
        (λ enough.
          let (later, closer) = fill_pass-Grown c0 cs f dials.1 grown in
          (later, omega (arith, closer, later.more t, grown.more t)))

  fill_pass-satisfied :
      (c0 : ChannelImpl) (cs : Map Bytes UnderlayConstraint) (f : Filling)
      → (fill_pass policy meanwhile (counts_by_type c0.underlays) cs f).1 ≡ true
      → MeetsDesires c0.underlays.entries cs
  unfolding fill_pass
  fill_pass-satisfied c0 [] f e = tt
  fill_pass-satisfied c0 ((t, k) ∷ cs) f e =
      let counted = count_of-counts_by_type t c0.underlays in
      (ground (arith, counted, e), fill_pass-satisfied c0 cs f (ground (arith, e)))

  -- When every dial for a constraint succeeds and nothing else happens to an open channel that meets its
  -- minimums, the dial loop ends satisfied, in at most one pass more than there are underlays missing:
  -- the channel has the underlays that every constraint desires, is open, and has lost none.
  pub fill_loop_satisfies :
      (fuel : ℕ) (f : Filling)
      → f.channel_now.is_closed ≡ false
      → is_multi_underlay_capable f.channel_now ≡ true
      → counts_valid f.channel_now (counts_by_type f.channel_now.underlays) ≡ true
      → DialsAll policy f.channel_now.group_secret f.channel_now.constraints
      → deficit f.channel_now.underlays.entries f.channel_now.constraints < fuel
      → ((fill_loop policy meanwhile fuel f).1 ≡ satisfied)
        × Grown f.channel_now (fill_loop policy meanwhile fuel f).0.channel_now
        × MeetsDesires
            (fill_loop policy meanwhile fuel f).0.channel_now.underlays.entries
            f.channel_now.constraints
  unfolding fill_loop
  fill_loop_satisfies zero f opened capable valid dials few = absurd (omega (arith, few))
  fill_loop_satisfies (suc fuel) f opened capable valid dials few =
      let c = f.channel_now in
      let pass = fill_pass policy meanwhile (counts_by_type c.underlays) c.constraints f in
      let spec : Filling × FillEnd → Type 0 = λ r.
        (r.1 ≡ satisfied)
        × Grown c r.0.channel_now
        × MeetsDesires r.0.channel_now.underlays.entries c.constraints in
      let here : Grown c c = Grown-here c opened capable in
      let (later, closer) = fill_pass-Grown c c.constraints f dials here in
      if-keeps spec c.is_closed (λ e. absurd (ground (arith, e, opened)))
        (λ _.
          if-keeps spec (not (counts_valid c (counts_by_type c.underlays)))
            (λ e. absurd (ground (arith, e, valid)))
            (λ _.
              if-keeps spec pass.1
                (λ all. (
                  refl,
                  later,
                  MeetsDesires-more c.underlays.entries pass.0.channel_now.underlays.entries
                      c.constraints later.more (fill_pass-satisfied c c.constraints f all),
                ))
                (λ some_left.
                  let (ends, grown, met) =
                    fill_loop_satisfies fuel pass.0 later.opened later.capable
                      (counts_valid-Grown c pass.0.channel_now later valid)
                      (rw (later.same_secret, later.same_constraints) dials)
                      (subst (λ cs. deficit pass.0.channel_now.underlays.entries cs < fuel)
                        (sym later.same_constraints) (ground (arith, closer, some_left, few))) in
                  (
                    ends,
                    Grown-trans c pass.0.channel_now
                        (fill_loop policy meanwhile fuel pass.0).0.channel_now later grown,
                    subst
                        (λ cs.
                          MeetsDesires
                            (fill_loop policy meanwhile fuel pass.0).0.channel_now.underlays.entries
                            cs)
                        later.same_constraints met,
                  ))))
