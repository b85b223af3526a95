-- ===== src/Tests/Acceptors.antt =====
-- hello_acceptor.go and accept_dispatcher.go on two acceptors, one of them nil.
use channel.Base.{ℕ, ◌+◌, ◌==◌, ◌≡◌, List, [], ◌∷◌, Option, none, some}
use channel.Base.Bytes.{Bytes}
use channel.Base.Maps.{Map}
use channel.Message.Keys.{type_header}
use channel.Underlays.{Underlay}
use channel.Acceptors.{choose, route, Creation, arrived, failed, listener_closed, run_dispatcher}
use channel.Acceptors.Routing.{choose-eq-route, run_dispatcher_once, is_owned, is_shut, count_of}

abbrev acceptors : Map Bytes (Option ℕ)
acceptors = (107 ∷ [], some 1) ∷ (108 ∷ [], none) ∷ []

abbrev typed : ℕ → Underlay
typed k = record { ident = k; headers = (type_header, k ∷ []) ∷ [] }

choose-eq-route_example :
    choose acceptors (some 9) (typed 108).headers ≡ route acceptors (some 9) (typed 108).headers
choose-eq-route_example = choose-eq-route acceptors (some 9) (typed 108).headers

abbrev creations : List Creation
creations =
    arrived (typed 107) ∷ failed ∷ arrived (typed 108) ∷ arrived (typed 109) ∷ listener_closed ∷ []

run_dispatcher_once_example :
    count_of (is_owned 108) (run_dispatcher acceptors none (λ a u. a == 1) creations)
      + count_of (is_shut 108) (run_dispatcher acceptors none (λ a u. a == 1) creations)
    ≡ 1
run_dispatcher_once_example = run_dispatcher_once acceptors none (λ a u. a == 1) creations 108
