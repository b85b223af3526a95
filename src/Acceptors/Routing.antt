-- ===== src/Acceptors/Routing.antt =====
-- The two routings agree, and no underlay is left open without an owner.
use channel.Base.{
  ℕ, ◌+◌, ◌==◌, ◌≡◌, refl, arith, List, [], ◌∷◌, ◌++◌, Bool, Option, none, some, if◌then◌else◌,
}
use channel.Base.Bytes.{Bytes}
use channel.Base.Maps.{Map, lookup, nat_eq, bytes_eq}
use channel.Message.{Headers}
use channel.Message.Keys.{type_header}
use channel.Underlays.{Underlay}
use channel.Acceptors.{
  typed_or, route_by_type, route, value_and_found, choose_by_type, choose, Creation, arrived,
  failed, listener_closed, Dispatched, taken_by, returned_by, underlay_closed, dispatch_to,
  run_dispatcher,
}

found_or_default :
    {A : Type 0} (default_acceptor : Option A) (o : Option (Option A))
    → (if (value_and_found o).1 then (value_and_found o).0 else default_acceptor)
      ≡ typed_or default_acceptor o
unfolding value_and_found typed_or
found_or_default default_acceptor none = refl
found_or_default default_acceptor (some v) = refl

choose_by_type-eq :
    {A : Type 0} (acceptors : Map Bytes (Option A)) (default_acceptor : Option A) (o : Option Bytes)
    → choose_by_type acceptors default_acceptor o ≡ route_by_type acceptors default_acceptor o
unfolding choose_by_type route_by_type
choose_by_type-eq acceptors default_acceptor none = refl
choose_by_type-eq acceptors default_acceptor (some t) =
    found_or_default default_acceptor (lookup t acceptors)

-- A dispatcher and a type-routing acceptor with the same acceptors choose the same one for every
-- underlay: `TypeRoutingAcceptor` is the analog of `UnderlayDispatcher` that its comment says it is.
pub choose-eq-route :
    {A : Type 0} (acceptors : Map Bytes (Option A)) (default_acceptor : Option A)
    (headers : Headers)
    → choose acceptors default_acceptor headers ≡ route acceptors default_acceptor headers
unfolding choose route
choose-eq-route acceptors default_acceptor headers =
    choose_by_type-eq acceptors default_acceptor (lookup type_header headers)

-- 1 for an underlay with the number `k`.
abbrev pub is_underlay : ℕ → Underlay → ℕ
is_underlay k u = if u.ident == k then 1 else 0

-- An acceptor took the underlay `k`.
abbrev pub is_owned : ℕ → Dispatched → ℕ
is_owned k (taken_by a u) = is_underlay k u
is_owned k (returned_by a u) = 0
is_owned k (underlay_closed u) = 0

-- The dispatcher closed the underlay `k`.
abbrev pub is_shut : ℕ → Dispatched → ℕ
is_shut k (taken_by a u) = 0
is_shut k (returned_by a u) = 0
is_shut k (underlay_closed u) = is_underlay k u

abbrev pub count_of : (Dispatched → ℕ) → List Dispatched → ℕ
count_of f [] = 0
count_of f (e ∷ es) = f e + count_of f es

-- How often the underlay `k` arrived before the listener closed.
abbrev pub arrivals : ℕ → List Creation → ℕ
arrivals k [] = 0
arrivals k (listener_closed ∷ rest) = 0
arrivals k (failed ∷ rest) = arrivals k rest
arrivals k (arrived u ∷ rest) = is_underlay k u + arrivals k rest

count_of-append :
    (f : Dispatched → ℕ) (es fs : List Dispatched)
    → count_of f (es ++ fs) ≡ count_of f es + count_of f fs
count_of-append f [] fs = omega arith
count_of-append f (e ∷ es) fs = omega (arith, count_of-append f es fs)

dispatch_to_once :
    (takes : ℕ → Underlay → Bool) (u : Underlay) (k : ℕ) (o : Option ℕ)
    → count_of (is_owned k) (dispatch_to takes u o) + count_of (is_shut k) (dispatch_to takes u o)
      ≡ is_underlay k u
unfolding dispatch_to
dispatch_to_once takes u k none = ground arith
dispatch_to_once takes u k (some a) = ground arith

-- Every underlay that arrives is taken by an acceptor or closed by the dispatcher, as often as it
-- arrives, so once if it arrives once: whatever the acceptors answer, and however often `Create` fails.
pub run_dispatcher_once :
    (acceptors : Map Bytes (Option ℕ)) (default_acceptor : Option ℕ) (takes : ℕ → Underlay → Bool)
    (creations : List Creation) (k : ℕ)
    → count_of (is_owned k) (run_dispatcher acceptors default_acceptor takes creations)
        + count_of (is_shut k) (run_dispatcher acceptors default_acceptor takes creations)
      ≡ arrivals k creations
unfolding run_dispatcher
run_dispatcher_once acceptors default_acceptor takes [] k = refl
run_dispatcher_once acceptors default_acceptor takes (listener_closed ∷ rest) k = refl
run_dispatcher_once acceptors default_acceptor takes (failed ∷ rest) k =
    run_dispatcher_once acceptors default_acceptor takes rest k
run_dispatcher_once acceptors default_acceptor takes (arrived u ∷ rest) k =
    let here = dispatch_to takes u (choose acceptors default_acceptor u.headers) in
    let later = run_dispatcher acceptors default_acceptor takes rest in
    omega (
      arith,
      count_of-append (is_owned k) here later,
      count_of-append (is_shut k) here later,
      dispatch_to_once takes u k (choose acceptors default_acceptor u.headers),
      run_dispatcher_once acceptors default_acceptor takes rest k,
    )
