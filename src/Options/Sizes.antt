-- ===== src/Options/Sizes.antt =====
-- What `Load` may leave as the size of the outgoing queue.
use channel.Base.{
  ℕ, ◌≡◌, refl, false, Option, none, some, Result, ok, err, arith, Option-cases, inl, inr,
}
use channel.Base.Bytes.{Bytes}
use channel.Options.{is_negative, Options}
use channel.Options.Loading.{
  Setting, Value, LoadError, Data, not_negative, loaded_size, Loaded, store, and_then, put_size,
  put_connect_timeout, put_write_timeout, load_size, load_connects, connect_timeout_from,
  load_connect_timeout, load_write_timeout, load,
}

-- A size that `make(chan ...)` takes.
abbrev pub HasLegalSize : Options → Type 0
HasLegalSize o = is_negative o.out_queue_size ≡ false

loaded_size-legal :
    (overflowed : ℕ) (v : Value) (n : ℕ) → loaded_size overflowed v ≡ ok n → is_negative n ≡ false
unfolding loaded_size not_negative
loaded_size-legal overflowed v n e = ground (arith)

module _ (parse_duration : Bytes → Option ℕ) where
  and_then-legal :
      (r : Loaded parse_duration) (next : Options → Loaded parse_duration)
      → HasLegalSize r.0
      → ((o : Options) → HasLegalSize o → HasLegalSize (next o).0)
      → HasLegalSize (and_then parse_duration r next).0
  and_then-legal (o, none) next h keeps = keeps o h
  and_then-legal (o, some e) next h keeps = h

  store-legal :
      (r : Result LoadError ℕ) (put : ℕ → Options → Options) (o : Options)
      → HasLegalSize o
      → ((n : ℕ) → r ≡ ok n → HasLegalSize (put n o))
      → HasLegalSize (store parse_duration r put o).0
  store-legal (err e) put o h keeps = h
  store-legal (ok n) put o h keeps = keeps n refl

  load_size-legal :
      (overflowed : ℕ) (settings : Data) (o : Options)
      → HasLegalSize o
      → HasLegalSize (load_size parse_duration overflowed settings o).0
  unfolding load_size
  load_size-legal overflowed settings o h = elim (Option-cases (settings Setting.out_queue_size)) [
    | inl missing ↦ rw missing h
    | inr (v, found) ↦ rw found (
        store-legal (loaded_size overflowed v) (put_size parse_duration) o h
          (λ n e. loaded_size-legal overflowed v n e))
  ]

  keeps_size :
      (settings : Data) (o : Options)
      → HasLegalSize o
      → HasLegalSize (load_connects parse_duration settings o)
  unfolding load_connects
  keeps_size settings o h = h

  load_connect_timeout-legal :
      (settings : Data) (o : Options)
      → HasLegalSize o
      → HasLegalSize (load_connect_timeout parse_duration settings o).0
  unfolding load_connect_timeout connect_timeout_from
  load_connect_timeout-legal settings o h = elim (Option-cases (settings Setting.connect_timeout)) [
    | inl missing ↦ rw missing h
    | inr (v, found) ↦ rw found (store-legal _ (put_connect_timeout parse_duration) o h (λ n e. h))
  ]

  load_write_timeout-legal :
      (settings : Data) (o : Options)
      → HasLegalSize o
      → HasLegalSize (load_write_timeout parse_duration settings o).0
  unfolding load_write_timeout
  load_write_timeout-legal settings o h = elim (Option-cases (settings Setting.write_timeout)) [
    | inl missing ↦ rw missing h
    | inr (v, found) ↦ rw found (store-legal _ (put_write_timeout parse_duration) o h (λ n e. h))
  ]

  -- Options whose queue size is not negative still have such a size after `Load`, whether it returns an
  -- error or not, whatever the configuration holds and whatever int Go makes of the float 2 ^ 63.
  pub load-HasLegalSize :
      (overflowed : ℕ) (settings : Data) (o : Options)
      → HasLegalSize o
      → HasLegalSize (load parse_duration overflowed settings o).0
  unfolding load
  load-HasLegalSize overflowed settings o h =
      and_then-legal (load_size parse_duration overflowed settings o) _
        (load_size-legal overflowed settings o h)
        (λ o1 h1.
          and_then-legal
            (load_connect_timeout parse_duration settings
              (load_connects parse_duration settings o1))
            _
            (load_connect_timeout-legal settings (load_connects parse_duration settings o1)
              (keeps_size settings o1 h1))
            (λ o2 h2. load_write_timeout-legal settings o2 h2))
