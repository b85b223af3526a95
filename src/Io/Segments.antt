-- ===== src/Io/Segments.antt =====
-- A read depends on the bytes of a stream and not on how they are cut into chunks.
use channel.Base.{
  ℕ, ◌+◌, ◌-◌, ◌≤◌, ◌<◌, ◌++◌, List, [], ◌∷◌, ◌≡◌, refl, sym, arith, Bool-cases, inl, inr, leb→le,
  ltb→lt, ltb→ge, append-cut, leb, ltb, length, take, drop, Result, ok, err, append_assoc,
  length-append, length-take, take-append, drop-append,
}
use channel.Base.Bytes.{Bytes}
use channel.Io.{IoError, Reader, flatten, contents, read_loop, read_at_least, read_full}

-- What a read of at least `need` and at most `size` bytes leaves behind, where it succeeds.
pub record Delivered (need size : ℕ) (all : Bytes) (fate : IoError) (out : Bytes) (r : Reader)
    : Type 0 where
  pub whole : out ++ contents r ≡ all
  pub enough : need ≤ length out
  pub fits : length out ≤ size
  pub same_fate : r.fate ≡ fate

abbrev pub Delivers : ℕ → ℕ → Bytes → IoError → Result IoError (Bytes × Reader) → Type 0
Delivers need size all fate (ok (out, r)) = Delivered need size all fate out r
Delivers need size all fate (err e) = ⊥

read_loop-Delivers :
    (need size : ℕ) (got : Bytes) (cs : List Bytes) (fate : IoError)
    → need ≤ size
    → length got ≤ size
    → need ≤ length got + length (flatten cs)
    → Delivers need size (got ++ flatten cs) fate (read_loop need size got cs fate)
unfolding read_loop contents flatten
read_loop-Delivers need size got [] fate hs hg h = ground arith
read_loop-Delivers need size got (c ∷ cs) fate hs hg h = elim (Bool-cases (leb need (length got))) [
  | inl full ↦
      rw (full, read_loop)
        (record { whole = refl; enough = leb→le _ _ full; fits = hg; same_fate = refl })
  | inr more ↦ elim (Bool-cases (ltb (size - length got) (length c))) [
    | inl cut ↦
        let fill = length-take (size - length got) c in
        let lt = ltb→lt _ _ cut in
        rw (more, cut)
          (record {
            whole = append-cut (size - length got) got c (flatten cs);
            enough = omega (arith, length-append got (take (size - length got) c), fill);
            fits = omega (arith, length-append got (take (size - length got) c), fill);
            same_fate = refl;
          })
    | inr all ↦
        rw (more, all)
          (rw (append_assoc got c (flatten cs)) at (
            read_loop-Delivers need size (got ++ c) cs fate hs
              (omega (arith, length-append got c, ltb→ge _ _ all))
              (omega (arith, length-append got c, length-append c (flatten cs)))))
  ]
]

abbrev pub Fails : Result IoError (Bytes × Reader) → Type 0
Fails (ok p) = ⊥
Fails (err e) = Unit {0}

read_loop-Fails :
    (need size : ℕ) (got : Bytes) (cs : List Bytes) (fate : IoError)
    → need ≤ size
    → length got + length (flatten cs) < need
    → Fails (read_loop need size got cs fate)
unfolding read_loop flatten
read_loop-Fails need size got [] fate hs h = ground arith
read_loop-Fails need size got (c ∷ cs) fate hs h =
    let total = length-append got c in
    let apart = length-append c (flatten cs) in
    ground (arith, total, apart, read_loop-Fails need size (got ++ c) cs fate)

of-Delivers :
    (need size : ℕ) (all : Bytes) (fate : IoError) (x : Result IoError (Bytes × Reader))
    → Delivers need size all fate x
    → (out : Bytes) × (r : Reader) × (x ≡ ok (out, r)) × Delivered need size all fate out r
of-Delivers need size all fate (ok (out, r)) d = (out, r, refl, d)
of-Delivers need size all fate (err e) d = absurd d

of-Fails : (x : Result IoError (Bytes × Reader)) → Fails x → (e : IoError) × (x ≡ err e)
of-Fails (ok p) d = absurd d
of-Fails (err e) d = (e, refl)

pub read_at_least_ok :
    (need size : ℕ) (r : Reader)
    → need ≤ size
    → need ≤ length (contents r)
    → (out : Bytes) × (r' : Reader) × (read_at_least need size r ≡ ok (out, r'))
      × Delivered need size (contents r) r.fate out r'
unfolding read_at_least contents
read_at_least_ok need size r hs h =
    of-Delivers need size _ r.fate _
      (read_loop-Delivers need size [] r.chunks r.fate hs (omega arith) (omega (arith, h)))

pub read_at_least_short :
    (need size : ℕ) (r : Reader)
    → need ≤ size
    → length (contents r) < need
    → (e : IoError) × (read_at_least need size r ≡ err e)
unfolding read_at_least contents
read_at_least_short need size r hs h =
    of-Fails _ (read_loop-Fails need size [] r.chunks r.fate hs (omega (arith, h)))

-- ReadFull gives the next `n` bytes and leaves the others, however the stream is cut.
pub read_full_ok :
    (n : ℕ) (r : Reader)
    → n ≤ length (contents r)
    → (r' : Reader) × (read_full n r ≡ ok (take n (contents r), r'))
      × (contents r' ≡ drop n (contents r))
      × (r'.fate ≡ r.fate)
unfolding read_full
read_full_ok n r h =
    let (out, r', e, d) = read_at_least_ok n n r (omega arith) h in
    let exact : n ≡ length out = omega (arith, d.enough, d.fits) in
    let front : out ≡ take n (contents r) =
      rw d.whole at (sym (take-append n out (contents r') exact)) in
    let back : contents r' ≡ drop n (contents r) =
      rw d.whole at (sym (drop-append n out (contents r') exact)) in
    (r', rw front at e, back, d.same_fate)

pub read_full_short :
    (n : ℕ) (r : Reader) → length (contents r) < n → (e : IoError) × (read_full n r ≡ err e)
unfolding read_full
read_full_short n r h = read_at_least_short n n r (omega arith) h
