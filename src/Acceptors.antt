-- ===== src/Acceptors.antt =====
-- hello_acceptor.go and accept_dispatcher.go: to whom an incoming underlay goes. A map of acceptors may
-- hold a nil acceptor, so its values are Options.
pub mod Routing
use channel.Base.{ℕ, List, [], ◌∷◌, ◌++◌, Bool, true, false, Option, none, some, if◌then◌else◌}
use channel.Base.Bytes.{Bytes}
use channel.Base.Maps.{Map, lookup, nat_eq, bytes_eq}
use channel.Message.{Headers}
use channel.Message.Keys.{type_header}
use channel.Underlays.{Underlay}

-- What happens to one underlay.
pub data AcceptEffect : Type 0 where
  acknowledged ack_failed closed : AcceptEffect
  handed_over : ℕ → AcceptEffect  -- to a function or an acceptor

-- `HelloAcceptorF.AcceptUnderlay`
unfoldable pub accept_with_function : ℕ → Bool → List AcceptEffect
accept_with_function f ack_succeeds =
    if ack_succeeds then acknowledged ∷ handed_over f ∷ [] else ack_failed ∷ closed ∷ []

-- `AsHelloAcceptor`, for an acceptor that takes the underlay or returns an error.
unfoldable pub as_hello_acceptor : ℕ → Bool → Bool → List AcceptEffect
unfolding accept_with_function
as_hello_acceptor a takes ack_succeeds =
    accept_with_function a ack_succeeds
    ++ (if ack_succeeds then (if takes then [] else closed ∷ []) else [])

module _ {A : Type 0} where
  unfoldable pub typed_or : Option A → Option (Option A) → Option A
  typed_or default_acceptor none = default_acceptor
  typed_or default_acceptor (some typed) = typed

  unfoldable pub route_by_type : Map Bytes (Option A) → Option A → Option Bytes → Option A
  unfolding typed_or lookup
  route_by_type acceptors default_acceptor none = default_acceptor
  route_by_type acceptors default_acceptor (some chan_type) =
      typed_or default_acceptor (lookup chan_type acceptors)

  -- The choice that `TypeRoutingAcceptor.AcceptUnderlay` makes.
  unfoldable pub route : Map Bytes (Option A) → Option A → Headers → Option A
  unfolding route_by_type lookup
  route acceptors default_acceptor headers =
      route_by_type acceptors default_acceptor (lookup type_header headers)

  unfoldable pub accept_by : (A → List AcceptEffect) → Option A → List AcceptEffect
  accept_by accept none = closed ∷ []
  accept_by accept (some a) = accept a

  -- `TypeRoutingAcceptor.AcceptUnderlay`, where an acceptor's own effects are `accept`.
  unfoldable pub accept_routed :
      Map Bytes (Option A) → Option A → (A → List AcceptEffect) → Headers → List AcceptEffect
  unfolding route accept_by
  accept_routed acceptors default_acceptor accept headers =
      accept_by accept (route acceptors default_acceptor headers)

  -- `acceptor, found = self.acceptors[...]`: nil where it is not found.
  unfoldable pub value_and_found : Option (Option A) → Option A × Bool
  value_and_found none = (none, false)
  value_and_found (some v) = (v, true)

  unfoldable pub choose_by_type : Map Bytes (Option A) → Option A → Option Bytes → Option A
  unfolding value_and_found lookup
  choose_by_type acceptors default_acceptor none = default_acceptor
  choose_by_type acceptors default_acceptor (some chan_type) =
      let (acceptor, found) = value_and_found (lookup chan_type acceptors) in
      if found then acceptor else default_acceptor

  -- The choice that `UnderlayDispatcher.Run` makes.
  unfoldable pub choose : Map Bytes (Option A) → Option A → Headers → Option A
  unfolding choose_by_type lookup
  choose acceptors default_acceptor headers =
      choose_by_type acceptors default_acceptor (lookup type_header headers)

-- What the listener's `Create` returns; only the text "closed" ends the loop.
pub data Creation : Type 0 where
  arrived : Underlay → Creation
  failed : Creation
  listener_closed : Creation

pub data Dispatched : Type 0 where
  taken_by : ℕ → Underlay → Dispatched
  returned_by : ℕ → Underlay → Dispatched  -- with an error
  underlay_closed : Underlay → Dispatched

unfoldable pub dispatch_to : (ℕ → Underlay → Bool) → Underlay → Option ℕ → List Dispatched
dispatch_to takes u none = underlay_closed u ∷ []
dispatch_to takes u (some a) =
    if takes a u then taken_by a u ∷ [] else returned_by a u ∷ underlay_closed u ∷ []

-- `Run`, on what `Create` returns turn by turn.
unfoldable pub run_dispatcher :
    Map Bytes (Option ℕ) → Option ℕ → (ℕ → Underlay → Bool) → List Creation → List Dispatched
unfolding dispatch_to choose
run_dispatcher acceptors default_acceptor takes [] = []
run_dispatcher acceptors default_acceptor takes (listener_closed ∷ rest) = []
run_dispatcher acceptors default_acceptor takes (failed ∷ rest) =
    run_dispatcher acceptors default_acceptor takes rest
run_dispatcher acceptors default_acceptor takes (arrived u ∷ rest) =
    dispatch_to takes u (choose acceptors default_acceptor u.headers)
    ++ run_dispatcher acceptors default_acceptor takes rest
