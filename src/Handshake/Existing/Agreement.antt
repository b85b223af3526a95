-- ===== src/Handshake/Existing/Agreement.antt =====
-- Both sides of an existing connection, and the end of the dialer's loop.
use channel.Base.{
  ℕ, suc, ◌+◌, ◌==◌, ◌<◌, ◌^◌, ◌≡◌, ◌≢◌, refl, ap, ◌∙◌, arith, [], true, false, Option, none, some,
  Result, ok, err, if-keeps, ltb,
}
use channel.Base.Bytes.{Bytes, put_le, length-put_le, get_le-put_le}
use channel.Base.Maps.{lookup, insert, insert_all, nat_eq, lookup-insert, lookup-insert_self}
use channel.Message.{
  Headers, Message, reflect, reflected_header, reply_for, reply_for_header, is_replying_to,
  reply_to, new_message,
}
use channel.Message.Headers.{put_uint32_header}
use channel.Message.Keys.{
  connection_id_header, result_success_header, content_type_result, hello_sequence,
}
use channel.Underlays.{header_bytes}
use channel.Wire.RoundTrip.{received}
use channel.Handshake.{new_hello, unmarshal_result, new_result}
use channel.Handshake.Dialer.{PeerUnderlay}
use channel.Handshake.Listener.{receive_hello}
use channel.Handshake.Responses.{lookup-insert_all, lookup-reflect, found_true, new_result_success}
use channel.Handshake.Existing.{
  ExistingConn, ExistingError, ExistingAnswers, existing_accepted, existing_request, judge_existing,
  send_existing, existing_retry_version, after_existing, existing_loop, create_existing,
  ack_existing, accept_hello, accept_with_id,
}

module _ (l : ExistingConn) (connection_id : Bytes) (request : Message) where
  abbrev response : Message
  response = received (ack_existing l connection_id request)

  abbrev own : Headers
  own =
      insert connection_id_header connection_id (insert_all (new_result true []).headers l.headers)

  lookup-response :
      (k : ℕ)
      → (reflected_header == k) ≡ false
      → (1 == k) ≡ false
      → lookup k response.headers ≡ lookup k own
  unfolding received ack_existing reply_to put_uint32_header
  lookup-response k not_reflected not_reply =
      let value = lookup reflected_header request.headers in
      rw
        (
          lookup-insert reply_for_header k (put_le 4 request.sequence) (reflect value own),
          not_reply,
        )
        (lookup-reflect value k own not_reflected)

  connection_id-response : lookup connection_id_header response.headers ≡ some connection_id
  connection_id-response =
      lookup-response connection_id_header refl refl
      ∙ lookup-insert_self connection_id_header connection_id
          (insert_all (new_result true []).headers l.headers)

  success-response :
      lookup result_success_header l.headers ≡ none → (unmarshal_result response).success ≡ true
  unfolding unmarshal_result
  success-response free = found_true result_success_header response.headers (
      lookup-response result_success_header refl refl
      ∙ lookup-insert connection_id_header result_success_header connection_id
          (insert_all (new_result true []).headers l.headers)
      ∙ lookup-insert_all result_success_header (new_result true []).headers l.headers free
      ∙ new_result_success)

  reply_for-response : request.sequence < 2 ^ 32 → reply_for response ≡ request.sequence
  unfolding received ack_existing reply_to put_uint32_header reply_for
  reply_for-response small =
      let value = lookup reflected_header request.headers in
      rw
        (
          lookup-insert_self reply_for_header (put_le 4 request.sequence) (reflect value own),
          length-put_le 4 request.sequence,
        )
        (get_le-put_le 4 request.sequence small)

judge_existing_ok :
    (d : ExistingConn) (m : Message)
    → reply_for m ≡ hello_sequence
    → (m.content_type == content_type_result) ≡ true
    → (unmarshal_result m).success ≡ true
    → judge_existing d m
      ≡ ok (record {
        id = d.token;
        connection_id = header_bytes (lookup connection_id_header m.headers);
        headers = m.headers;
      })
unfolding judge_existing is_replying_to
judge_existing_ok d m replies typed succeeds = rw (replies, typed, succeeds) refl

-- Over an existing connection, a listener that gets its connection id, its deadline and its ack through
-- accepts the hello of a dialer, as it comes over the wire, and the dialer makes of the response an
-- underlay with the same connection id. The listener's headers must not set the success of a result.
pub existing_handshake_agrees :
    (d l : ExistingConn) (connection_id : Bytes)
    → lookup result_success_header l.headers ≡ none
    → (u v : PeerUnderlay) × (response : Message) × (accept_with_id l false false
          (ok (received (existing_request d)))
          (some connection_id)
        ≡ existing_accepted u response)
      × (judge_existing d (received response) ≡ ok v)
      × (u.id ≡ d.token)
      × (u.connection_id ≡ connection_id)
      × (v.connection_id ≡ connection_id)
unfolding accept_with_id accept_hello receive_hello existing_request new_hello new_message received
    header_bytes
existing_handshake_agrees d l connection_id free =
    let rq = received (existing_request d) in
    let answer = received (ack_existing l connection_id rq) in
    (
      record { id = d.token; connection_id = connection_id; headers = rq.headers },
      record {
        id = d.token;
        connection_id = header_bytes (lookup connection_id_header answer.headers);
        headers = answer.headers;
      },
      ack_existing l connection_id rq,
      refl,
      judge_existing_ok d answer (reply_for-response l connection_id rq (omega arith)) refl
          (success-response l connection_id rq free),
      refl,
      refl,
      ap header_bytes (connection_id-response l connection_id rq),
    )

abbrev Ends : Option (Result ExistingError PeerUnderlay) → Type 0
Ends r = r ≢ none

after_existing-Ends :
    (r : Result ExistingError PeerUnderlay) (try_count version : ℕ)
    (again : ℕ → Option (Result ExistingError PeerUnderlay))
    → (ltb 0 try_count ≡ false → (v : ℕ) → Ends (again v))
    → Ends (after_existing r try_count version again)
unfolding after_existing
after_existing-Ends (ok u) try_count version again rest = λ e. absurd (cc)
after_existing-Ends (err x) try_count version again rest =
    if-keeps Ends (ltb 0 try_count) (λ _ e. absurd (cc))
      (λ once.
        if-keeps Ends (existing_retry_version x == version) (λ _ e. absurd (cc))
          (λ _. rest once (existing_retry_version x)))

module _ (d : ExistingConn) (turns : ℕ → ℕ → ExistingAnswers) where
  last_existing : (fuel n version : ℕ) → Ends (existing_loop d turns (suc fuel) n 1 version)
  unfolding existing_loop
  last_existing fuel n version =
      let a = turns n version in
      if-keeps Ends a.deadline_fails (λ _ e. absurd (cc))
        (λ _.
          after_existing-Ends (send_existing d a) 1 version
            (λ v. existing_loop d turns fuel (n + 1) 2 v)
            (λ untried. absurd (ground (arith, untried))))

-- The dialer of an existing connection ends in two turns of its loop, whatever the peer answers.
pub create_existing_ends :
    (d : ExistingConn) (turns : ℕ → ℕ → ExistingAnswers) → create_existing d turns ≢ none
unfolding create_existing existing_loop
create_existing_ends d turns =
    let a = turns 0 2 in
    if-keeps Ends a.deadline_fails (λ _ e. absurd (cc))
      (λ _.
        after_existing-Ends (send_existing d a) 0 2 (λ v. existing_loop d turns 1 1 1 v)
          (λ _ v. last_existing d turns 0 1 v))
