-- ===== src/Envelope/Contexts/Older.antt =====
-- Contexts that an envelope did not make: it does not end them.
use channel.Base.{ℕ, ◌<◌, ◌≡◌, refl, arith, Bool, true, some}
use channel.Senders.{update}
use channel.Envelope.Contexts.{
  Context, background, given, error_context, with_cancel, with_deadline, Contexts, is_done,
  EnvelopeImpl, Envelope, envelope_impl, message_with_timeout, impl_with_timeout, with_timeout,
  cancel,
}

-- A context all of whose names were given before `k`.
abbrev pub IsOlder : ℕ → Context → Type 0
IsOlder k background = Unit {0}
IsOlder k (given j) = Unit {0}
IsOlder k (error_context e) = Unit {0}
IsOlder k (with_cancel n c) = (n < k) × IsOlder k c
IsOlder k (with_deadline n d c) = (n < k) × IsOlder k c

update-older : (f : ℕ → Bool) (k n : ℕ) → n < k → update f k true n ≡ f n
update-older f k n h = ground (arith, h)

is_done-older :
    (w : Contexts) (k : ℕ) (c : Context)
    → IsOlder k c
    → is_done (record w { is_cancelled = update w.is_cancelled k true }) c ≡ is_done w c
unfolding is_done
is_done-older w k background h = refl
is_done-older w k (given j) h = refl
is_done-older w k (error_context e) h = refl
is_done-older w k (with_cancel n c) h =
    rw (update-older w.is_cancelled k n h.0, is_done-older w k c h.1) refl
is_done-older w k (with_deadline n d c) h =
    rw (update-older w.is_cancelled k n h.0, is_done-older w k c h.1) refl

-- An envelope that is done with ends no context that was made before its own by `WithTimeout`: not a
-- caller's, not another envelope's, and not that of an earlier `WithTimeout` of the same envelope.
pub cancel_spares_older :
    (duration : ℕ) (env : Envelope) (e : EnvelopeImpl) (w0 w1 w : Contexts) (c : Context)
    → with_timeout duration env w0 ≡ (envelope_impl e, w1)
    → IsOlder w0.made c
    → is_done (cancel e w) c ≡ is_done w c
unfolding with_timeout message_with_timeout impl_with_timeout cancel
cancel_spares_older duration (Envelope.message m) e w0 w1 w c made older =
    let f : e.cancel_f ≡ some w0.made = cc in rw f (is_done-older w w0.made c older)
cancel_spares_older duration (envelope_impl x) e w0 w1 w c made older =
    let f : e.cancel_f ≡ some w0.made = cc in rw f (is_done-older w w0.made c older)
cancel_spares_older duration (Envelope.error_envelope x) e w0 w1 w c made older = absurd (cc)
