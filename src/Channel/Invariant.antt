-- ===== src/Channel/Invariant.antt =====
-- The invariant of a channel, which `NewChannel` establishes and every step keeps.
use channel.Base.{
  ◌==◌, ◌≡◌, ◌≢◌, refl, ap, ◌∙◌, arith, List, [], ◌∷◌, ◌++◌, Bool, true, false, not, ◌&&◌, Option,
  none, some, All, All-append, if◌then◌else◌, length, Bool-cases, inl, inr, if-keeps, subst,
}
use channel.Base.Bytes.{Bytes}
use channel.Base.Maps.{bytes_beq, bytes_beq_iff}
use channel.Underlays.{
  Underlay, Listener, the_channel, other, add, remove, remove_entry, counts_by_type,
}
use channel.Channel.{
  Effect, underlay_closed, AcceptError, dial_policy_told, constraints_spawned,
  listener_told_removed, multiplex_started, ChannelImpl, emit, secret_of, is_multi_underlay_capable,
  closing_effects, get_validated_underlay_type, close, tell_added, start_underlay, accept_underlay,
  underlay_removed, tell_removed, move_fallback, last_or,
}
use channel.Channel.Setup.{
  Config, Bound, SetupError, new_channel, new_channel_with, start, bind, prepare, lacks_secret,
}
use channel.Channel.Constraints.{apply_constraints_check, check_constraints_valid, counts_valid}
use channel.Channel.Effects.{
  signal_count, AllClosed, signal_count-append, AllClosed-append, AllClosed-append_right,
  signal_count-closing_effects, closing_effects-AllClosed, was_closed, tell_added_silent,
}
use channel.Channel.Steps.{
  Step, accepts, closes, closes_underlay, takes_out, tells, moves_fallback, checks, spawns, Steps,
  stay, then_step, Running,
}

abbrev pub AllKnow : Bytes → List Underlay → Type 0
AllKnow secret us = All (λ (u : Underlay). secret_of u ≡ secret) us

pub record Safe (c : ChannelImpl) : Type 0 where
  pub signalled : signal_count c.effects ≡ (if c.is_closed then 1 else 0)
  pub all_closed : c.is_closed ≡ true → AllClosed c.effects c.underlays.entries
  pub all_know : AllKnow c.group_secret c.underlays.entries
  pub guarded : is_multi_underlay_capable c ≡ true → c.group_secret ≢ []

All-remove_entry :
    (P : Underlay → Type 0) (u : Underlay) (us : List Underlay)
    → All P us
    → All P (remove_entry u us).1
unfolding remove_entry
All-remove_entry P u [] h = tt
All-remove_entry P u (x ∷ xs) h = elim (Bool-cases (x.ident == u.ident)) [
  | inl e ↦ rw e h.1
  | inr e ↦ rw e (h.0, All-remove_entry P u xs h.1)
]

emit-Safe : (es : List Effect) (c : ChannelImpl) → signal_count es ≡ 0 → Safe c → Safe (emit es c)
unfolding is_multi_underlay_capable
emit-Safe es c silent s = record {
  signalled = signal_count-append c.effects es ∙ omega (arith, silent, s.signalled);
  all_closed = λ e. AllClosed-append c.effects es c.underlays.entries (s.all_closed e);
  all_know = s.all_know;
  guarded = s.guarded;
}

close-Safe : (c : ChannelImpl) → Safe c → Safe (close c)
unfolding close is_multi_underlay_capable
close-Safe c s =
    if-keeps Safe c.is_closed (λ _. s)
      (λ opened. record {
        signalled =
            signal_count-append c.effects (closing_effects c)
            ∙ omega (arith, rw opened at s.signalled, signal_count-closing_effects c);
        all_closed = λ _.
            AllClosed-append_right c.effects (closing_effects c) c.underlays.entries
              (closing_effects-AllClosed c);
        all_know = s.all_know;
        guarded = s.guarded;
      })

start_underlay-Safe :
    (u : Underlay) (c : ChannelImpl)
    → c.is_closed ≡ false
    → secret_of u ≡ c.group_secret
    → Safe c
    → Safe (start_underlay u c)
unfolding start_underlay add is_multi_underlay_capable
start_underlay-Safe u c opened knows s =
    let told = tell_added u c.underlays.listeners in
    record {
      signalled =
          signal_count-append c.effects (told ++ (multiplex_started u.ident ∷ []))
          ∙ omega (
            arith,
            s.signalled,
            signal_count-append told (multiplex_started u.ident ∷ []),
            tell_added_silent u c.underlays.listeners,
          );
      all_closed = λ e. cc;
      all_know =
          All-append (λ (x : Underlay). secret_of x ≡ c.group_secret) c.underlays.entries (u ∷ [])
            s.all_know (knows, tt);
      guarded = s.guarded;
    }

refallback-Safe :
    (u : Underlay) (c : ChannelImpl) → Safe c → Safe (record c { fallback_underlay = u })
unfolding is_multi_underlay_capable
refallback-Safe u c s = record {
  signalled = s.signalled;
  all_closed = s.all_closed;
  all_know = s.all_know;
  guarded = s.guarded;
}

accept_underlay-Safe : (u : Underlay) (c : ChannelImpl) → Safe c → Safe (accept_underlay u c).0
unfolding accept_underlay
accept_underlay-Safe u c s =
    let refused = emit-Safe (underlay_closed u.ident ∷ []) c refl s in
    let ok : ChannelImpl × Option AcceptError → Type 0 = λ r. Safe r.0 in
    if-keeps ok (not (is_multi_underlay_capable c)) (λ _. refused)
      (λ _.
        if-keeps ok (not (bytes_beq (secret_of u) c.group_secret)) (λ _. refused)
          (λ knows.
            if-keeps ok c.is_closed (λ _. refused)
              (λ opened.
                start_underlay-Safe u (record c { fallback_underlay = u }) opened
                  ((bytes_beq_iff (secret_of u) c.group_secret).0 (ground (arith, knows)))
                  (refallback-Safe u c s))))

takes_out-Safe :
    (u : Underlay) (c : ChannelImpl)
    → Safe c
    → Safe (record c { underlays = (remove u c.underlays).1 })
unfolding remove is_multi_underlay_capable
takes_out-Safe u c s = record {
  signalled = s.signalled;
  all_closed = λ e.
      All-remove_entry (λ x. was_closed x.ident c.effects ≡ true) u c.underlays.entries
        (s.all_closed e);
  all_know = All-remove_entry (λ x. secret_of x ≡ c.group_secret) u c.underlays.entries s.all_know;
  guarded = s.guarded;
}

underlay_removed-Safe : (u : Underlay) (c : ChannelImpl) → Safe c → Safe (underlay_removed u c)
unfolding underlay_removed
underlay_removed-Safe u c s =
    let policy_told = dial_policy_told (get_validated_underlay_type c u) ∷ [] in
    let told = if c.has_dial_policy then emit policy_told c else c in
    let told-Safe : Safe told =
      if-keeps Safe c.has_dial_policy (λ _. emit-Safe policy_told c refl s) (λ _. s) in
    if-keeps Safe (not (is_multi_underlay_capable c))
      (λ _.
        if-keeps Safe (length c.underlays.entries == 0) (λ _. close-Safe told told-Safe)
          (λ _. told-Safe))
      (λ _. emit-Safe (constraints_spawned ∷ []) told refl told-Safe)

tell_removed-Safe :
    (u : Underlay) (ls : List Listener) (c : ChannelImpl) → Safe c → Safe (tell_removed u ls c)
unfolding tell_removed
tell_removed-Safe u [] c s = s
tell_removed-Safe u (the_channel ∷ ls) c s =
    tell_removed-Safe u ls (underlay_removed u c) (underlay_removed-Safe u c s)
tell_removed-Safe u (other l ∷ ls) c s =
    let told = listener_told_removed l u.ident ∷ [] in
    tell_removed-Safe u ls (emit told c) (emit-Safe told c refl s)

move_fallback-Safe : (u : Underlay) (c : ChannelImpl) → Safe c → Safe (move_fallback u c)
unfolding move_fallback last_or
move_fallback-Safe u c s =
    if-keeps Safe (c.fallback_underlay.ident == u.ident)
      (λ _. refallback-Safe (last_or c.fallback_underlay c.underlays.entries) c s) (λ _. s)

checks-Safe : (c : ChannelImpl) → Safe c → Safe (apply_constraints_check c).0
unfolding apply_constraints_check check_constraints_valid
checks-Safe c s =
    let ok : ChannelImpl × Bool → Type 0 = λ r. Safe r.0 in
    if-keeps ok ((length c.constraints == 0) && (c.min_total_underlays == 0)) (λ _. s)
      (λ _.
        if-keeps ok c.is_closed (λ _. s)
          (λ _.
            if-keeps ok (counts_valid c (counts_by_type c.underlays)) (λ _. s)
              (λ _. close-Safe c s)))

Step-Safe : (c d : ChannelImpl) → Step c d → Safe c → Safe d
Step-Safe c d (accepts u) s = accept_underlay-Safe u c s
Step-Safe c d closes s = close-Safe c s
Step-Safe c d (closes_underlay u) s = emit-Safe (underlay_closed u.ident ∷ []) c refl s
Step-Safe c d (takes_out u) s = takes_out-Safe u c s
Step-Safe c d (tells u ls) s = tell_removed-Safe u ls c s
Step-Safe c d (moves_fallback u) s = move_fallback-Safe u c s
Step-Safe c d checks s = checks-Safe c s
Step-Safe c d spawns s = emit-Safe (constraints_spawned ∷ []) c refl s

Steps-Safe : (c d : ChannelImpl) → Steps c d → Safe c → Safe d
Steps-Safe c d stay s = s
Steps-Safe c d (then_step {d = e} before last) s = Step-Safe e d last (Steps-Safe c e before s)

bound-Safe :
    (config : Config) (b : Bound) (u : Underlay)
    → lacks_secret config u ≡ false
    → Safe (bind b (prepare config u))
unfolding bind prepare lacks_secret is_multi_underlay_capable
bound-Safe config b u has_secret = record {
  signalled = refl;
  all_closed = λ e. cc;
  all_know = tt;
  guarded =
      λ capable empty. ground (arith, capable, has_secret, ap (λ (xs : Bytes). length xs) empty);
}

some_value : {A : Type 0} {a b : A} → some a ≡ some b → a ≡ b
some_value e = cc

new_channel_with-Safe :
    (config : Config) (b : Bound) (o : Option Underlay) (c : ChannelImpl)
    → new_channel_with config (some b) o ≡ (some c, none)
    → Safe c
unfolding new_channel_with start
new_channel_with-Safe config b none c = λ h. absurd (cc)
new_channel_with-Safe config b (some u) c =
    let bound = bind b (prepare config u) in
    let is_result : Option ChannelImpl × Option SetupError → Type 0 =
      λ r. r ≡ (some c, none) → Safe c in
    if-keeps is_result (lacks_secret config u) (λ _ h. absurd (cc))
      (λ has_secret h.
        subst Safe (some_value (ap (λ (r : Option ChannelImpl × Option SetupError). r.0) h)) (
          emit-Safe (constraints_spawned ∷ []) (start_underlay u bound) refl
            (start_underlay-Safe u bound refl refl (bound-Safe config b u has_secret))))

new_channel-Safe :
    (config : Config) (b : Bound) (c : ChannelImpl)
    → new_channel config (some b) ≡ (some c, none)
    → Safe c
unfolding new_channel
new_channel-Safe config b c =
    let is_result : Option ChannelImpl × Option SetupError → Type 0 =
      λ r. r ≡ (some c, none) → Safe c in
    if-keeps is_result (not config.has_senders) (λ _ h. absurd (cc))
      (λ _.
        if-keeps is_result (not config.has_message_source_provider) (λ _ h. absurd (cc))
          (λ _. new_channel_with-Safe config b config.underlay c))

pub Running-Safe : (config : Config) (c : ChannelImpl) → Running config c → Safe c
Running-Safe config c r =
    Steps-Safe r.first_state c r.history (new_channel-Safe config r.bound r.first_state r.is_new)
