-- ===== src/Handshake/Attempts.antt =====
-- `CreateWithHeaders`: how many connections a dial takes, and that it leaves none open but the one it
-- returns.
use channel.Base.{
  ℕ, suc, ◌+◌, ◌<◌, ◌≤◌, ◌^◌, ◌≡◌, ◌≢◌, refl, ap, arith, true, false, not, ◌||◌, Option, some,
  Result, ok, err, if◌then◌else◌, if-keeps, ltb,
}
use mathlib.Core.Path.{fun_ext}
use channel.Message.{Headers, Message}
use channel.Wire.RoundTrip.{received}
use channel.Handshake.{Reason, class_of, reason_text, reject_response}
use channel.Handshake.Dialer.{
  ClassicDialer, HelloError, refused, PeerUnderlay, Turn, Created, CreateResult, created,
  hello_failed, dial_failed, timed_out, out_of_fuel, hello_request, Answers, exchange, send_hello,
  after_rx, after_hello, is_non_retryable, retry_version, create_loop, create_with_headers,
}
use channel.Handshake.Refusals.{refusal_reaches_dialer}

-- 1 for the underlay that is returned.
unfoldable pub returned : CreateResult → ℕ
returned (created u) = 1
returned _ = 0

-- Every connection that was opened is returned or was closed, two are opened at most, and the loop
-- ended of itself.
pub record Balanced (most : ℕ) (r : Created) : Type 0 where
  pub accounted : r.closed + returned r.result ≡ r.opened
  pub bounded : r.opened ≤ most
  pub ended : r.result ≢ out_of_fuel

after_hello-Balanced :
    (most : ℕ) (r : Result HelloError PeerUnderlay) (try_count opened closed : ℕ)
    (again : ℕ → Created)
    → closed + 1 ≡ opened
    → opened ≤ most
    → (ltb 0 try_count ≡ false → (v : ℕ) → Balanced most (again v))
    → Balanced most (after_hello r try_count opened closed again)
unfolding after_hello returned
after_hello-Balanced most (ok u) try_count opened closed again counted few rest = record {
  accounted = counted;
  bounded = few;
  ended = λ e. cc;
}
after_hello-Balanced most (err e) try_count opened closed again counted few rest =
    let failed : Created = record {
      result = hello_failed e;
      opened = opened;
      closed = closed + 1;
    } in
    let balanced : Balanced most failed = record {
      accounted = omega arith;
      bounded = few;
      ended = λ p. cc;
    } in
    if-keeps (Balanced most) (ltb 0 try_count || is_non_retryable e) (λ _. balanced)
      (λ once.
        if-keeps (Balanced most) (not (retry_version e).1) (λ _. balanced)
          (λ _. rest (ground (arith, once)) (retry_version e).0))

module _ (d : ClassicDialer) (extra : Headers) (turns : ℕ → ℕ → Turn) where
  -- The loop ends in its next turn once it has tried.
  last_turn :
      (fuel n try_count version opened closed : ℕ)
      → ltb 0 try_count ≡ true
      → closed ≡ opened
      → opened ≤ 1
      → Balanced 2 (create_loop d extra turns (suc fuel) n try_count version opened closed)
  unfolding create_loop returned
  last_turn fuel n try_count version opened closed tried counted few =
      let t = turns n version in
      if-keeps (Balanced 2) (not t.in_time)
        (λ _. record { accounted = omega arith; bounded = omega arith; ended = λ p. cc })
        (λ _.
          if-keeps (Balanced 2) t.dial_fails
            (λ _. record { accounted = omega arith; bounded = omega arith; ended = λ p. cc })
            (λ _.
              after_hello-Balanced 2 (send_hello d extra t.answers) try_count (opened + 1) closed
                (λ v.
                  create_loop d extra turns fuel (n + 1) (try_count + 1) v (opened + 1)
                    (closed + 1))
                (omega arith) (omega arith) (λ untried. absurd (ground (arith, tried, untried)))))

  -- A dial opens two connections at most, whatever the transport and the peer answer; every one that
  -- it opened and does not return it has closed; and it ends, in two turns of its loop.
  pub create_with_headers-Balanced : Balanced 2 (create_with_headers d extra turns)
  unfolding create_with_headers create_loop returned
  create_with_headers-Balanced =
      let t = turns 0 2 in
      if-keeps (Balanced 2) (not t.in_time)
        (λ _. record { accounted = omega arith; bounded = omega arith; ended = λ p. cc })
        (λ _.
          if-keeps (Balanced 2) t.dial_fails
            (λ _. record { accounted = omega arith; bounded = omega arith; ended = λ p. cc })
            (λ _.
              after_hello-Balanced 2 (send_hello d extra t.answers) 0 1 0
                (λ v. create_loop d extra turns 1 1 1 v 1 1) (omega arith) (omega arith)
                (λ _ v. last_turn 0 1 1 v 1 1 refl refl (omega arith))))

send_hello_refused :
    (d : ClassicDialer) (extra : Headers) (a : Answers) (request : Message) (reason : Option Reason)
    → class_of reason < 2 ^ 32
    → a.deadline_fails ≡ false
    → a.tx_fails ≡ false
    → hello_request d extra ≡ some request
    → a.rx ≡ ok (received (reject_response reason))
    → send_hello d extra a
      ≡ err (refused (record { reject_class = class_of reason; message = reason_text reason }))
unfolding send_hello exchange after_rx
send_hello_refused d extra a request reason small deadline sends sent answer =
    rw (deadline, sent, exchange, sends, answer, after_rx)
      (refusal_reaches_dialer request a.common_name reason small)

after_hello_tried :
    (r : Result HelloError PeerUnderlay) (k opened closed : ℕ) (f g : ℕ → Created)
    → after_hello r (suc k) opened closed f ≡ after_hello r (suc k) opened closed g
unfolding after_hello
after_hello_tried (ok u) k opened closed f g = refl
after_hello_tried (err e) k opened closed f g = ground arith

module _ (d : ClassicDialer) (extra : Headers) (turns : ℕ → ℕ → Turn) where
  tried_alike :
      (f g n version opened closed : ℕ)
      → create_loop d extra turns (suc f) n 1 version opened closed
        ≡ create_loop d extra turns (suc g) n 1 version opened closed
  unfolding create_loop
  tried_alike f g n version opened closed =
      let t = turns n version in
      let late : Created = record { result = timed_out; opened = opened; closed = closed } in
      let unreached : Created = record { result = dial_failed; opened = opened; closed = closed } in
      ap (λ (x : Created). if not t.in_time then late else if t.dial_fails then unreached else x)
        (after_hello_tried (send_hello d extra t.answers) 0 (opened + 1) closed
          (λ v. create_loop d extra turns f (n + 1) 2 v (opened + 1) (closed + 1))
          (λ v. create_loop d extra turns g (n + 1) 2 v (opened + 1) (closed + 1)))

  -- More fuel than two turns gives the same result.
  pub create_loop_enough :
      (fuel : ℕ)
      → create_loop d extra turns (suc (suc fuel)) 0 0 2 0 0 ≡ create_with_headers d extra turns
  unfolding create_with_headers create_loop
  create_loop_enough fuel =
      let t = turns 0 2 in
      let late : Created = record { result = timed_out; opened = 0; closed = 0 } in
      let unreached : Created = record { result = dial_failed; opened = 0; closed = 0 } in
      ap
        (λ (again : ℕ → Created).
          if not t.in_time
          then late
          else if t.dial_fails
          then unreached
          else after_hello (send_hello d extra t.answers) 0 1 0 again)
        (fun_ext (λ v. tried_alike fuel 0 1 v 1 1))

  -- Where the listener refuses the hello, the dial fails with the listener's class and text after one
  -- connection, which is closed.
  pub refused_once :
      (request : Message) (reason : Option Reason)
      → class_of reason < 2 ^ 32
      → (turns 0 2).in_time ≡ true
      → (turns 0 2).dial_fails ≡ false
      → (turns 0 2).answers.deadline_fails ≡ false
      → (turns 0 2).answers.tx_fails ≡ false
      → hello_request d extra ≡ some request
      → (turns 0 2).answers.rx ≡ ok (received (reject_response reason))
      → create_with_headers d extra turns ≡ record {
        result =
            hello_failed
              (refused (record { reject_class = class_of reason; message = reason_text reason }));
        opened = 1;
        closed = 1;
      }
  unfolding create_with_headers create_loop
  refused_once request reason small in_time dials deadline sends sent answer =
      let a = (turns 0 2).answers in
      rw
        (
          in_time,
          dials,
          send_hello_refused d extra a request reason small deadline sends sent answer,
          after_hello,
        )
        refl
