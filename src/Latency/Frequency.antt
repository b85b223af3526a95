-- ===== src/Latency/Frequency.antt =====
-- How often a latency probe measures a round trip.
use channel.Base.{
  ℕ, zero, suc, ◌+◌, ◌*◌, ◌==◌, ◌<◌, ◌≡◌, refl, ap, ◌∙◌, arith, List, [], ◌∷◌, ◌++◌, Bool, true,
  false, subst,
}
use channel.Latency.{run_probe, probe_kinds}

-- `d` probes of the time before the write, and then a round trip.
abbrev pub one_round : ℕ → List Bool
one_round zero = true ∷ []
one_round (suc d) = false ∷ one_round d

abbrev pub rounds : ℕ → ℕ → List Bool
rounds zero d = []
rounds (suc cycles) d = one_round d ++ rounds cycles d

run_probe-counts :
    (freq count : ℕ) → count < freq → freq < 256 → run_probe freq count ≡ (suc count, false)
unfolding run_probe
run_probe-counts freq count early small =
    let unequal : (count == freq) ≡ false = ground (arith, early) in
    rw unequal (ap (λ (k : ℕ). (k, false)) (omega (arith, early, small)))

-- The next round trip comes when the count has caught up.
probe_kinds-one_round :
    (freq d count n : ℕ)
    → count + d ≡ freq
    → freq < 256
    → probe_kinds freq (suc (d + n)) count ≡ one_round d ++ probe_kinds freq n 1
unfolding probe_kinds run_probe
probe_kinds-one_round freq zero count n e small = ground (arith, e)
probe_kinds-one_round freq (suc d) count n e small =
    let shift : suc d + n ≡ suc (d + n) = omega arith in
    ap (λ m. probe_kinds freq (suc m) count) shift
    ∙ ap (λ (r : ℕ × Bool). r.1 ∷ probe_kinds freq (suc (d + n)) r.0)
        (run_probe-counts freq count (omega (arith, e)) small)
    ∙ ap (λ ks. false ∷ ks) (probe_kinds-one_round freq d (suc count) n (omega (arith, e)) small)

-- From the first round trip on, with a frequency from 1 to 255, a latency probe measures a round trip
-- with the last of every so many probes, and the time before the write with the others.
pub probe_kinds_periodic :
    (p cycles : ℕ) → suc p < 256 → probe_kinds (suc p) (cycles * suc p) 1 ≡ rounds cycles p
unfolding probe_kinds
probe_kinds_periodic p zero small =
    let nothing : 0 ≡ 0 * suc p = omega arith in
    subst (λ n. probe_kinds (suc p) n 1 ≡ []) nothing refl
probe_kinds_periodic p (suc cycles) small =
    let turns : suc (p + cycles * suc p) ≡ suc cycles * suc p = omega arith in
    subst (λ n. probe_kinds (suc p) n 1 ≡ rounds (suc cycles) p) turns
      (probe_kinds-one_round (suc p) p 1 (cycles * suc p) (omega arith) small
        ∙ ap (λ ks. one_round p ++ ks) (probe_kinds_periodic p cycles small))
