-- ===== src/Channel/Acceptance.antt =====
-- `AcceptUnderlay`: who gets in, and what becomes of an underlay that does not. `closeUnderlay` of a
-- channel that cannot grow.
use channel.Base.{
  ◌==◌, ◌≡◌, ◌↔◌, refl, arith, List, [], ◌∷◌, Bool, true, false, not, Option, none, some,
  if◌then◌else◌, if-keeps, length, ap, sym, subst,
}
use channel.Base.Maps.{bytes_beq, bytes_beq_iff}
use channel.Underlays.{Underlay, Listener, the_channel, other, remove, remove_entry}
use channel.Channel.{
  underlay_closed, dial_policy_told, listener_told_removed, get_validated_underlay_type,
  AcceptError, ChannelImpl, emit, secret_of, is_multi_underlay_capable, close, accept_underlay,
  underlay_removed, tell_removed, remove_underlay, move_fallback, close_underlay,
}
use channel.Underlays.Laws.{remove_entry-append}

-- An underlay is accepted exactly if the channel can grow, the secrets are equal and the channel is
-- open.
pub accepted_iff :
    (u : Underlay) (c : ChannelImpl)
    → ((accept_underlay u c).1 ≡ none) ↔ (
        (is_multi_underlay_capable c ≡ true)
        × (secret_of u ≡ c.group_secret)
        × (c.is_closed ≡ false))
unfolding accept_underlay
accepted_iff u c = ground (arith, bytes_beq_iff (secret_of u) c.group_secret)

-- Where `AcceptUnderlay` fails, it has closed the underlay and done nothing else to the channel.
pub refused_is_closed :
    (u : Underlay) (c : ChannelImpl) (e : AcceptError)
    → (accept_underlay u c).1 ≡ some e
    → (accept_underlay u c).0 ≡ emit (underlay_closed u.ident ∷ []) c
unfolding accept_underlay
refused_is_closed u c e =
    let spec : ChannelImpl × Option AcceptError → Type 0 =
      λ r. r.1 ≡ some e → r.0 ≡ emit (underlay_closed u.ident ∷ []) c in
    if-keeps spec (not (is_multi_underlay_capable c)) (λ _ _. refl)
      (λ _.
        if-keeps spec (not (bytes_beq (secret_of u) c.group_secret)) (λ _ _. refl)
          (λ _. if-keeps spec c.is_closed (λ _ _. refl) (λ _ h. absurd (cc))))

pub is_closed-close : (c : ChannelImpl) → (close c).is_closed ≡ true
unfolding close
is_closed-close c =
    if-keeps (λ (d : ChannelImpl). d.is_closed ≡ true) c.is_closed (λ e. e) (λ _. refl)

abbrev Closed : ChannelImpl → Type 0
Closed c = c.is_closed ≡ true

underlay_removed-Closed :
    (u : Underlay) (c : ChannelImpl) → Closed c → Closed (underlay_removed u c)
unfolding underlay_removed
underlay_removed-Closed u c h =
    let policy_told = dial_policy_told (get_validated_underlay_type c u) ∷ [] in
    let told = if c.has_dial_policy then emit policy_told c else c in
    let still : Closed told = if-keeps Closed c.has_dial_policy (λ _. h) (λ _. h) in
    if-keeps Closed (not (is_multi_underlay_capable c))
      (λ _.
        if-keeps Closed (length c.underlays.entries == 0) (λ _. is_closed-close told) (λ _. still))
      (λ _. still)

pub tell_removed-Closed :
    (u : Underlay) (ls : List Listener) (c : ChannelImpl) → Closed c → Closed (tell_removed u ls c)
unfolding tell_removed
tell_removed-Closed u [] c h = h
tell_removed-Closed u (the_channel ∷ ls) c h =
    tell_removed-Closed u ls (underlay_removed u c) (underlay_removed-Closed u c h)
tell_removed-Closed u (other l ∷ ls) c h =
    tell_removed-Closed u ls (emit (listener_told_removed l u.ident ∷ []) c) h

move_fallback-Closed : (u : Underlay) (c : ChannelImpl) → Closed c → Closed (move_fallback u c)
unfolding move_fallback
move_fallback-Closed u c h =
    if-keeps Closed (c.fallback_underlay.ident == u.ident) (λ _. h) (λ _. h)

last_underlay_closes :
    (u : Underlay) (c : ChannelImpl)
    → is_multi_underlay_capable c ≡ false
    → c.underlays.entries ≡ []
    → Closed (underlay_removed u c)
unfolding underlay_removed
last_underlay_closes u c simple none_left =
    let policy_told = dial_policy_told (get_validated_underlay_type c u) ∷ [] in
    let told = if c.has_dial_policy then emit policy_told c else c in
    if-keeps Closed (not (is_multi_underlay_capable c))
      (λ _.
        if-keeps Closed (length c.underlays.entries == 0) (λ _. is_closed-close told)
          (λ some_left.
            absurd (ground (arith, some_left, ap (λ (us : List Underlay). length us) none_left))))
      (λ grows. absurd (ground (arith, grows, simple)))

-- A channel that cannot grow, and is its own first listener as `NewChannel` sets it up, is closed
-- when the one underlay that it holds has been closed and removed.
pub simple_channel_closes :
    (u : Underlay) (c : ChannelImpl)
    → is_multi_underlay_capable c ≡ false
    → c.underlays.entries ≡ u ∷ []
    → (others : List Listener) → c.underlays.listeners ≡ the_channel ∷ others
    → (close_underlay u c).is_closed ≡ true
unfolding close_underlay remove_underlay remove is_multi_underlay_capable
simple_channel_closes u c simple one others ls =
    let shut = emit (underlay_closed u.ident ∷ []) c in
    let taken : ChannelImpl = record shut { underlays = (remove u c.underlays).1 } in
    let removed : remove_entry u c.underlays.entries ≡ (true, []) =
      rw one (remove_entry-append u [] tt) in
    move_fallback-Closed u (remove_underlay u shut) (
      if-keeps Closed (remove_entry u c.underlays.entries).0
        (λ _.
          subst (λ l. Closed (tell_removed u l taken)) (sym ls)
            (tell_removed-Closed u others (underlay_removed u taken) (
              last_underlay_closes u taken simple
                (ap (λ (r : Bool × List Underlay). r.1) removed))))
        (λ missed. absurd (ground (arith, missed, removed))))
