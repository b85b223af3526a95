-- ===== src/Channel.antt =====
-- impl.go: `channelImpl`, the life of a channel and of its underlays. A function is the part of the
-- source function that runs under the channel's lock, or between two waits; what the channel does to
-- the outside is appended to `effects`. Handlers, listeners and receivers are named by numbers.
-- Logging is left out. Errors of an underlay's `Close` are only logged or joined, and are left out.
pub mod Setup
pub mod Constraints
pub mod Dispatch
pub mod Replies
pub mod Steps
pub mod Effects
pub mod Invariant
pub mod Safety
pub mod Acceptance
pub mod Enforcement
pub mod Dialing
pub mod Handlers
pub mod Binding
pub mod Registering
pub mod Single
use channel.Base.{
  ℕ, ◌==◌, List, [], ◌∷◌, ◌++◌, Bool, true, false, not, ◌||◌, Option, none, some, if◌then◌else◌,
  ltb, map, length,
}
use channel.Base.Bytes.{Bytes}
use channel.Base.Maps.{Map, lookup, bytes_beq, nat_eq}
use channel.Message.Keys.{group_secret_header}
use channel.Waiters.{WaiterMap, clear}
use channel.Underlays.{
  Underlay, Underlays, Listener, the_channel, other, header_bytes, add, remove, get_underlay_type,
  default_underlay_type,
}

pub data Effect : Type 0 where
  close_notified : Effect  -- `close(closeNotify)`
  peek_handler_closed : ℕ → Effect
  close_handler_called : ℕ → Effect
  underlay_closed : ℕ → Effect
  listener_told_added : ℕ → ℕ → Effect  -- a listener of an underlay
  listener_told_removed : ℕ → ℕ → Effect
  multiplex_started : ℕ → Effect
  dial_policy_told : Bytes → Effect  -- `dialPolicy.UnderlayClosed`, with the type
  constraints_spawned : Effect  -- `go applyConstraints()`

pub record UnderlayConstraint : Type 0 where
  pub desired : ℕ
  pub min_count : ℕ

pub record ChannelImpl : Type 0 where
  pub fallback_underlay : Underlay
  pub waiters : WaiterMap
  pub is_closed : Bool
  pub peek_handlers : List ℕ
  pub close_handlers : List ℕ
  pub transform_handlers : List ℕ
  pub error_handlers : List ℕ
  pub receive_handlers : Map ℕ ℕ
  pub reply_counter : ℕ
  pub group_secret : Bytes
  pub has_dial_policy : Bool
  pub constraints : Map Bytes UnderlayConstraint
  pub min_total_underlays : ℕ
  pub valid_underlay_types : List Bytes
  pub underlays : Underlays
  pub effects : List Effect

abbrev pub emit : List Effect → ChannelImpl → ChannelImpl
emit es c = record c { effects = c.effects ++ es }

unfoldable pub secret_of : Underlay → Bytes
unfolding header_bytes lookup
secret_of u = header_bytes (lookup group_secret_header u.headers)

unfoldable pub is_multi_underlay_capable : ChannelImpl → Bool
is_multi_underlay_capable c =
    c.has_dial_policy || (ltb 0 (length c.constraints) || ltb 0 c.min_total_underlays)

unfoldable pub contains : List Bytes → Bytes → Bool
contains [] t = false
contains (x ∷ xs) t = bytes_beq x t || contains xs t

unfoldable pub get_validated_underlay_type : ChannelImpl → Underlay → Bytes
unfolding get_underlay_type contains
get_validated_underlay_type c u =
    let t = get_underlay_type u in
    if length c.valid_underlay_types == 0
    then t
    else if contains c.valid_underlay_types t
    then t
    else default_underlay_type

unfoldable pub closing_effects : ChannelImpl → List Effect
closing_effects c =
    close_notified
    ∷ (map peek_handler_closed c.peek_handlers
        ++ (map close_handler_called c.close_handlers
            ++ map (λ (u : Underlay). underlay_closed u.ident) c.underlays.entries))

-- `Close`
unfoldable pub close : ChannelImpl → ChannelImpl
unfolding clear closing_effects
close c = if c.is_closed then c else record c {
  is_closed = true;
  waiters = clear c.waiters;
  effects = c.effects ++ closing_effects c;
}

-- The channel's own `UnderlayAdded` logs; the other listeners are told.
unfoldable pub tell_added : Underlay → List Listener → List Effect
tell_added u [] = []
tell_added u (the_channel ∷ ls) = tell_added u ls
tell_added u (other l ∷ ls) = listener_told_added l u.ident ∷ tell_added u ls

-- `underlays.Add` and `startMultiplex`
unfoldable pub start_underlay : Underlay → ChannelImpl → ChannelImpl
unfolding tell_added add
start_underlay u c = record c {
  underlays = add u c.underlays;
  effects = c.effects ++ (tell_added u c.underlays.listeners ++ (multiplex_started u.ident ∷ []));
}

pub data AcceptError : Type 0 where
  no_additional_underlays incorrect_group_secret channel_is_closed : AcceptError

-- `AcceptUnderlay`. The owner id of the new underlay is only compared for a warning.
unfoldable pub accept_underlay : Underlay → ChannelImpl → ChannelImpl × Option AcceptError
unfolding is_multi_underlay_capable secret_of start_underlay
accept_underlay u c =
    let refused = emit (underlay_closed u.ident ∷ []) c in
    if not (is_multi_underlay_capable c)
    then (refused, some no_additional_underlays)
    else if not (bytes_beq (secret_of u) c.group_secret)
    then (refused, some incorrect_group_secret)
    else if c.is_closed
    then (refused, some channel_is_closed)
    else (start_underlay u (record c { fallback_underlay = u }), none)

-- The channel's own `UnderlayRemoved`.
unfoldable pub underlay_removed : Underlay → ChannelImpl → ChannelImpl
unfolding is_multi_underlay_capable get_validated_underlay_type close
underlay_removed u c =
    let told =
      if c.has_dial_policy
      then emit (dial_policy_told (get_validated_underlay_type c u) ∷ []) c
      else c in
    if not (is_multi_underlay_capable c)
    then (if length c.underlays.entries == 0 then close told else told)
    else emit (constraints_spawned ∷ []) told

unfoldable pub tell_removed : Underlay → List Listener → ChannelImpl → ChannelImpl
unfolding underlay_removed
tell_removed u [] c = c
tell_removed u (the_channel ∷ ls) c = tell_removed u ls (underlay_removed u c)
tell_removed u (other l ∷ ls) c = tell_removed u ls (emit (listener_told_removed l u.ident ∷ []) c)

-- `underlays.Remove`: the entries, then the listeners if the underlay was there.
unfoldable pub remove_underlay : Underlay → ChannelImpl → ChannelImpl
unfolding remove tell_removed
remove_underlay u c =
    let r = remove u c.underlays in
    let taken : ChannelImpl = record c { underlays = r.1 } in
    if r.0 then tell_removed u c.underlays.listeners taken else taken

unfoldable pub last_or : Underlay → List Underlay → Underlay
last_or fallback [] = fallback
last_or fallback (u ∷ us) = last_or u us

-- The end of `closeUnderlay`: the fallback moves to the last underlay that is left.
unfoldable pub move_fallback : Underlay → ChannelImpl → ChannelImpl
unfolding last_or
move_fallback u c =
    if c.fallback_underlay.ident == u.ident
    then record c { fallback_underlay = last_or c.fallback_underlay c.underlays.entries }
    else c

-- `closeUnderlay`, which the sender and the receiver of an underlay both run when they end.
unfoldable pub close_underlay : Underlay → ChannelImpl → ChannelImpl
unfolding remove_underlay move_fallback
close_underlay u c = move_fallback u (remove_underlay u (emit (underlay_closed u.ident ∷ []) c))
