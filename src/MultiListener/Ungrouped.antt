-- ===== src/MultiListener/Ungrouped.antt =====
-- multi_listener.go: `AcceptUnderlay` for an underlay that is not grouped, and the constructors. The
-- factory, the fallback and the admitter are named by numbers.
use channel.Base.{
  ℕ, ◌≡◌, refl, List, [], ◌∷◌, Bool, true, false, Option, none, some, Result, ok, err,
}
use channel.Acceptors.{
  AcceptEffect, acknowledged, ack_failed, closed, handed_over, accept_with_function,
  as_hello_acceptor,
}

-- What becomes of the underlay, by whether the ack and the fallback succeed.
unfoldable pub accept_ungrouped : ℕ → Bool → Bool → List AcceptEffect
accept_ungrouped fallback false takes = ack_failed ∷ closed ∷ []
accept_ungrouped fallback true true = acknowledged ∷ handed_over fallback ∷ []
accept_ungrouped fallback true false = acknowledged ∷ handed_over fallback ∷ closed ∷ []

-- To the fallback an underlay goes as it goes to an acceptor that `AsHelloAcceptor` adapts.
accept_ungrouped-acceptor :
    (fallback : ℕ) (ack_succeeds takes : Bool)
    → accept_ungrouped fallback ack_succeeds takes ≡ as_hello_acceptor fallback takes ack_succeeds
unfolding accept_ungrouped as_hello_acceptor accept_with_function
accept_ungrouped-acceptor fallback true true = refl
accept_ungrouped-acceptor fallback true false = refl
accept_ungrouped-acceptor fallback false true = refl
accept_ungrouped-acceptor fallback false false = refl

pub record MultiListenerConfig : Type 0 where
  pub factory : Option ℕ
  pub ungrouped_channel_fallback : Option ℕ
  pub admitter : Option ℕ

-- The parts of a MultiListener that stay as they were made.
pub record Dependencies : Type 0 where
  pub factory : ℕ
  pub fallback : ℕ
  pub admitter : Option ℕ

pub data Missing : Type 0 where
  no_factory no_fallback : Missing

unfoldable pub with_factory : Option ℕ → Option ℕ → Option ℕ → Result Missing Dependencies
with_factory none fallback admitter = err no_factory
with_factory (some f) none admitter = err no_fallback
with_factory (some f) (some g) admitter =
    ok (record { factory = f; fallback = g; admitter = admitter })

-- `NewMultiListenerWithConfig`: an error is a panic.
unfoldable pub new_multi_listener_with_config : MultiListenerConfig → Result Missing Dependencies
unfolding with_factory
new_multi_listener_with_config c = with_factory c.factory c.ungrouped_channel_fallback c.admitter

-- `NewMultiListener`
unfoldable pub new_multi_listener : Option ℕ → Option ℕ → Result Missing Dependencies
unfolding new_multi_listener_with_config
new_multi_listener factory fallback =
    new_multi_listener_with_config
      (record { factory = factory; ungrouped_channel_fallback = fallback; admitter = none })
