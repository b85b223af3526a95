-- ===== src/DialPolicy/Groups.antt =====
-- The dials of a group: its first connection, and those that join it under the same connection id.
use channel.Base.{
  ℕ, ◌==◌, ◌&&◌, ◌≡◌, refl, sym, ap, ◌∙◌, [], ◌∷◌, Bool, true, false, Option, none, some, if-keeps,
  ltb,
}
use channel.Base.Bytes.{Bytes}
use channel.Base.Maps.{lookup, insert, nat_eq}
use channel.Message.{Headers}
use channel.Message.Headers.{put_bool_header}
use channel.Message.Keys.{connection_id_header, is_first_group_connection}
use channel.Underlays.{Underlay}
use channel.DialPolicy.{
  BackoffDialPolicy, DialAnswers, DialResult, dialed, dial, dial_headers, group_id, next_iteration,
  reset_stale_failures, proven_stable, backs_off_for, is_early, record_result,
}

-- A dialer whose underlay shows the headers it was dialed with.
abbrev pub Shows : DialAnswers → Type 0
Shows a = (h : Headers) (u : Underlay) → a.create_with_headers h ≡ some u → u.headers ≡ h

iteration-reset_stale_failures :
    (now : ℕ) (p : BackoffDialPolicy) → (reset_stale_failures now p).iteration ≡ p.iteration
unfolding reset_stale_failures
iteration-reset_stale_failures now p =
    let same : BackoffDialPolicy → Type 0 = λ q. q.iteration ≡ p.iteration in
    if-keeps same (p.consecutive_failures == 0) (λ _. refl)
      (λ _. if-keeps same (proven_stable now p p.last_dial_success) (λ _. refl) (λ _. refl))

record_result_dialed :
    (now : ℕ) (o : Option Underlay) (r q : BackoffDialPolicy) (u : Underlay)
    → record_result now o r ≡ (q, dialed u)
    → (q.iteration ≡ r.iteration) × (o ≡ some u)
unfolding record_result
record_result_dialed now none r q u h = absurd (cc)
record_result_dialed now (some x) r q u h =
    (sym (ap (λ (z : BackoffDialPolicy × DialResult). z.0.iteration) h), cc)

module _ (suffixed : Bytes → ℕ → Bytes) (jittered : ℕ → ℕ) where
  -- What the dialed underlay shows, and the iteration that the policy is left in.
  unfoldable pub DialedIn :
      Bool → BackoffDialPolicy → Bytes → Bytes → Bytes → BackoffDialPolicy → Underlay → Type 0
  DialedIn is_first p underlay_type connection_id secret q u =
      (q.iteration ≡ (next_iteration is_first p).iteration)
      × (u.headers
          ≡ dial_headers underlay_type
              (group_id suffixed connection_id (next_iteration is_first p).iteration) secret
              is_first)

  dial-DialedIn :
      (a : DialAnswers) (underlay_type connection_id secret : Bytes) (is_first : Bool)
      (p q : BackoffDialPolicy) (u : Underlay)
      → Shows a
      → dial suffixed jittered a underlay_type connection_id secret is_first p ≡ (q, dialed u)
      → DialedIn is_first p underlay_type connection_id secret q u
  unfolding dial DialedIn record_result
  dial-DialedIn a underlay_type connection_id secret is_first p q u shows =
      let spec : BackoffDialPolicy × DialResult → Type 0 =
        λ z. z ≡ (q, dialed u) → DialedIn is_first p underlay_type connection_id secret q u in
      let waited = reset_stale_failures a.at_reset (next_iteration is_first p) in
      let started : BackoffDialPolicy = record waited { last_dial_time = some a.at_dial } in
      let early = is_early a.at_reset waited.backoff.min_dial_interval waited.last_dial_time in
      let same = iteration-reset_stale_failures a.at_reset (next_iteration is_first p) in
      let headers_in : ℕ → Headers =
        λ i. dial_headers underlay_type (group_id suffixed connection_id i) secret is_first in
      if-keeps spec (early && a.cancelled_in_interval) (λ _ h. absurd (cc))
        (λ _.
          if-keeps spec (ltb 0 (backs_off_for jittered started) && a.cancelled_in_backoff)
            (λ _ h. absurd (cc))
            (λ _.
              if-keeps spec a.cancelled (λ _ h. absurd (cc))
                (λ _ h.
                  let made =
                    record_result_dialed a.at_end
                      (a.create_with_headers (headers_in waited.iteration)) started q u h in
                  (
                    made.0 ∙ same,
                    shows (headers_in waited.iteration) u made.1 ∙ ap headers_in same,
                  ))))

  -- Once a first dial of a group has succeeded, an underlay dialed next that is not the first shows the
  -- connection id that the first one showed, and no first-connection header, which the first one had.
  -- Here the dialers' underlays show the headers that they were dialed with.
  pub later_dial_joins :
      (a b : DialAnswers) (first_type later_type connection_id secret : Bytes)
      (p q r : BackoffDialPolicy) (u v : Underlay)
      → Shows a
      → Shows b
      → dial suffixed jittered a first_type connection_id secret true p ≡ (q, dialed u)
      → dial suffixed jittered b later_type connection_id secret false q ≡ (r, dialed v)
      → (lookup connection_id_header v.headers ≡ lookup connection_id_header u.headers)
        × (lookup is_first_group_connection u.headers ≡ some (1 ∷ []))
        × (lookup is_first_group_connection v.headers ≡ none)
  unfolding DialedIn dial_headers lookup insert put_bool_header next_iteration
  later_dial_joins a b first_type later_type connection_id secret p q r u v shows_a shows_b one
        two =
      let x = dial-DialedIn a first_type connection_id secret true p q u shows_a one in
      let y = dial-DialedIn b later_type connection_id secret false q r v shows_b two in
      rw (x.1, y.1) (rw x.0 refl, refl, refl)
