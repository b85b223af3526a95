-- ===== src/Handshake/Listening.antt =====
-- classic_listener.go: the life of a listener made by NewClassicListener: Listen, Close, Create, and the
-- acceptor that offers each underlay to a Create. The goroutines of the acceptor and of the callers of
-- Create are steps; where a select could go either way, the schedule says which. An underlay and a
-- socket are named by numbers; the connection handlers that Listen appends are left out.
pub mod Accounts
pub mod Config
pub mod PoolSizes
use channel.Base.{
  ℕ, ◌+◌, ◌==◌, List, [], ◌∷◌, Bool, true, false, Option, none, some, if◌then◌else◌, ltb,
}

pub record ListenerState : Type 0 where
  pub closed : Bool
  pub signals : ℕ  -- how often `close(self.close)` was called
  pub socket : Option ℕ
  pub shut : List ℕ  -- the sockets that were closed
  pub offered : List ℕ  -- underlays whose acceptor stands in its select
  pub created : List ℕ  -- underlays that Create returned
  pub dropped : List ℕ  -- underlays whose acceptor found the listener closed
  pub refused : List ℕ  -- underlays that were closed since their hello could not be acknowledged

unfoldable pub new_listener : ListenerState
new_listener = record {
  closed = false;
  signals = 0;
  socket = none;
  shut = [];
  offered = [];
  created = [];
  dropped = [];
  refused = [];
}

-- `Listen`, with the socket that the endpoint gives; it does not look at the closed flag.
unfoldable pub listen : Option ℕ → ListenerState → ListenerState
listen none s = s
listen (some socket) s = record s { socket = some socket }

-- The end of `Close`: a socket that fails to close is kept.
unfoldable pub close_socket : Option ℕ → Bool → ListenerState → ListenerState
close_socket none fails s = s
close_socket (some socket) fails s = record s {
  shut = socket ∷ s.shut;
  socket = if fails then some socket else none;
}

unfoldable pub close_listener : Bool → ListenerState → ListenerState
unfolding close_socket
close_listener fails s =
    if s.closed
    then s
    else close_socket s.socket fails (record s { closed = true; signals = s.signals + 1 })

-- The function of the acceptor is called: the underlay waits in its select.
unfoldable pub offer : ℕ → ListenerState → ListenerState
offer u s = record s { offered = u ∷ s.offered }

-- The acceptor, a `HelloAcceptorF`, is called with an underlay: where the acknowledgement fails the
-- underlay is closed, and the function is not called.
unfoldable pub accept_or_close : Bool → ℕ → ListenerState → ListenerState
unfolding offer
accept_or_close ack_succeeds u s =
    if ack_succeeds then offer u s else record s { refused = u ∷ s.refused }

unfoldable pub is_offered : ℕ → List ℕ → Bool
is_offered u [] = false
is_offered u (x ∷ xs) = let rest = is_offered u xs in if x == u then true else rest

unfoldable pub without : ℕ → List ℕ → List ℕ
without u [] = []
without u (x ∷ xs) = let rest = without u xs in if x == u then xs else x ∷ rest

-- A `Create` and the acceptor of `u` meet at the channel `created`.
unfoldable pub hand_to_create : ℕ → ListenerState → ListenerState
unfolding is_offered without
hand_to_create u s =
    if is_offered u s.offered
    then record s { offered = without u s.offered; created = u ∷ s.created }
    else s

-- The acceptor of `u` takes the other case of its select, which must be ready. The underlay is not
-- closed.
unfoldable pub drop_offer : ℕ → ListenerState → ListenerState
unfolding is_offered without
drop_offer u s =
    if ltb 0 s.signals
    then (if is_offered u s.offered
        then record s { offered = without u s.offered; dropped = u ∷ s.dropped }
        else s)
    else s

pub data ListenerAction : Type 0 where
  listens : Option ℕ → ListenerAction
  closes : Bool → ListenerAction
  accepts : Bool → ℕ → ListenerAction  -- whether the acknowledgement succeeds
  creates gives_up : ℕ → ListenerAction

unfoldable pub listener_step : ListenerState → ListenerAction → ListenerState
unfolding listen close_listener accept_or_close hand_to_create drop_offer
listener_step s (listens socket) = listen socket s
listener_step s (closes fails) = close_listener fails s
listener_step s (accepts ack_succeeds u) = accept_or_close ack_succeeds u s
listener_step s (creates u) = hand_to_create u s
listener_step s (gives_up u) = drop_offer u s

abbrev pub run_listener : ListenerState → List ListenerAction → ListenerState
run_listener s [] = s
run_listener s (a ∷ acts) = run_listener (listener_step s a) acts
