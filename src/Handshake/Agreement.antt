-- ===== src/Handshake/Agreement.antt =====
-- The hello exchange from both sides: what a dialer and a listener make of one connection.
use channel.Base.{
  ℕ, ◌==◌, ◌≡◌, refl, sym, ap, ◌∙◌, arith, List, [], ◌∷◌, Bool, true, false, Option, none, some,
  Result, ok, if-keeps, length, Option-cases, Bool-cases, inl, inr,
}
use channel.Base.Bytes.{Bytes}
use channel.Base.Maps.{lookup, insert_all, nat_eq, lookup-insert, lookup-insert_self}
use channel.Message.{Headers, Message, reply_for, is_replying_to, reply_to}
use channel.Message.Headers.{get_bool_header, get_string_header}
use channel.Message.Keys.{
  connection_id_header, type_header, is_grouped_header, group_secret_header, result_success_header,
  content_type_result, content_type_hello, hello_sequence,
}
use channel.Underlays.{header_bytes}
use channel.Wire.Marshal.{stamp_reply_for}
use channel.Wire.RoundTrip.{received}
use channel.Handshake.{new_hello, unmarshal_hello, unmarshal_result}
use channel.Handshake.Dialer.{
  ClassicDialer, PeerUnderlay, provide, finish_request, hello_request, first_nonempty, init_dialed,
  judge_response,
}
use channel.Handshake.Listener.{
  PeerEffect, Incoming, Accepting, offered, accepted_id, with_secret, init_accepted, receive_hello,
  after_receive, accept_connection, ClassicListener, ack_hello,
}
use channel.Handshake.Responses.{
  connection_id-response, group_secret-response, success-response, reply_for-response,
}

offered-injective :
    {u v : PeerUnderlay} {q r : Message} → offered u q ≡ offered v r → (u ≡ v) × (q ≡ r)
offered-injective e = (cc, cc)

-- An offered underlay is what the request makes of it.
offered-init_accepted :
    (i : Incoming) (m : Message) (u : PeerUnderlay) (rq : Message)
    → i.rx ≡ ok m
    → accept_connection i ≡ offered u rq
    → init_accepted i m ≡ offered u rq
unfolding accept_connection after_receive receive_hello
offered-init_accepted i m u rq rx =
    let spec : Accepting → Type 0 = λ r. r ≡ offered u rq → init_accepted i m ≡ offered u rq in
    let received_spec : Result (List PeerEffect) Message → Type 0 =
      λ r. after_receive i r ≡ offered u rq → init_accepted i m ≡ offered u rq in
    rw rx (
      if-keeps spec i.deadline_fails (λ _ h. absurd (cc))
        (λ _.
          if-keeps received_spec (m.content_type == content_type_hello)
            (λ _.
              if-keeps spec (i.handlers_agree (unmarshal_hello m)) (λ _ h. h) (λ _ h. absurd (cc)))
            (λ _ h. absurd (cc))))

-- A request as the dialer sends it.
pub record IsRequest (request : Message) : Type 0 where
  pub is_hello : request.sequence ≡ hello_sequence
  pub fresh : request.reply_for ≡ none

hello_request-IsRequest :
    (d : ClassicDialer) (extra : Headers) (request : Message)
    → hello_request d extra ≡ some request
    → IsRequest request
unfolding hello_request finish_request new_hello
hello_request-IsRequest d extra request h =
    let hello = new_hello d.token d.headers in
    elim (Option-cases (provide d.hello_header_provider (insert_all hello.headers extra))) [
      | inl e ↦ absurd (ground (arith, rw (e, finish_request) at h))
      | inr (headers, e) ↦ ground (arith, rw (e, finish_request) at h)
    ]

first_nonempty-accepted_id :
    (given next : Bytes)
    → first_nonempty given (accepted_id true given next) ≡ accepted_id true given next
unfolding first_nonempty accepted_id
first_nonempty-accepted_id [] next = refl
first_nonempty-accepted_id (x ∷ given) next = ground arith

abbrev lacks_group_secret : Headers → Bool
lacks_group_secret h = length (header_bytes (lookup group_secret_header h)) == 0

with_secret_lem :
    (secret : Bytes) (h : Headers)
    → (length secret == 0) ≡ false
    → (lacks_group_secret (with_secret true secret h) ≡ false)
      × (lookup type_header (with_secret true secret h) ≡ lookup type_header h)
unfolding with_secret
with_secret_lem secret h fresh = elim (Bool-cases (lacks_group_secret h)) [
  | inl e ↦ rw e (
    rw (lookup-insert_self group_secret_header secret h, header_bytes) fresh,
    lookup-insert group_secret_header type_header secret h,
  )
  | inr e ↦ rw e (e, refl)
]

headers-received : (m : Message) → m.reply_for ≡ none → (received m).headers ≡ m.headers
unfolding received
headers-received m fresh = rw fresh refl

-- What is offered for the request of a group.
record OfferedFor (i : Incoming) (request : Message) (u : PeerUnderlay) (rq : Message)
    : Type 0 where
  id :
      u.connection_id
      ≡ accepted_id true (get_string_header connection_id_header request.headers).0 i.next_id
  shared : u.headers ≡ rq.headers
  secret : rq.headers ≡ with_secret true i.new_secret request.headers
  answers_hello : rq.sequence ≡ hello_sequence

init_accepted-OfferedFor :
    (i : Incoming) (request : Message) (u : PeerUnderlay) (rq : Message)
    → IsRequest request
    → (get_bool_header is_grouped_header request.headers).0 ≡ true
    → init_accepted i (received request) ≡ offered u rq
    → OfferedFor i request u rq
unfolding init_accepted received
init_accepted-OfferedFor i request u rq is_request grouped h =
    let made = rw (is_request.fresh, stamp_reply_for, grouped) at h in
    let us = sym (offered-injective made).0 in
    let qs = sym (offered-injective made).1 in
    record {
      id = ap (λ (x : PeerUnderlay). x.connection_id) us;
      shared = ap (λ (x : PeerUnderlay). x.headers) us ∙ sym (ap (λ (x : Message). x.headers) qs);
      secret = ap (λ (x : Message). x.headers) qs;
      answers_hello = ap (λ (x : Message). x.sequence) qs ∙ is_request.is_hello;
    }

judge_response_ok :
    (request response : Message) (common_name : Option Bytes)
    → reply_for response ≡ hello_sequence
    → response.content_type ≡ content_type_result
    → (unmarshal_result response).success ≡ true
    → judge_response request common_name response ≡ ok (init_dialed request response common_name)
unfolding judge_response is_replying_to
judge_response_ok request response common_name replies typed success =
    ground (arith, replies, typed, success)

string_bytes : (k : ℕ) (h : Headers) → (get_string_header k h).0 ≡ header_bytes (lookup k h)
unfolding get_string_header header_bytes
string_bytes k h = elim (Option-cases (lookup k h)) [
  | inl e ↦ rw (e, get_string_header) refl
  | inr (v, e) ↦ rw (e, get_string_header) refl
]

same_id : (given next id : Bytes) → id ≡ accepted_id true given next → first_nonempty given id ≡ id
same_id given next id e = rw e (first_nonempty-accepted_id given next)

-- What the dialer's underlay takes from the response and from its own request.
module _ (request response : Message) (common_name : Option Bytes) where
  connection_id-init_dialed :
      (next id : Bytes)
      → lookup connection_id_header response.headers ≡ some id
      → id ≡ accepted_id true (get_string_header connection_id_header request.headers).0 next
      → (init_dialed request response common_name).connection_id ≡ id
  unfolding init_dialed
  connection_id-init_dialed next id found e =
      rw (found, header_bytes)
        (same_id (header_bytes (lookup connection_id_header request.headers)) next id (
          e
          ∙ ap (λ g. accepted_id true g next) (string_bytes connection_id_header request.headers)))

  type-init_dialed :
      header_bytes (lookup type_header (init_dialed request response common_name).headers)
      ≡ header_bytes (lookup type_header request.headers)
  unfolding init_dialed
  type-init_dialed =
      let value = header_bytes (lookup type_header request.headers) in
      rw (lookup-insert_self type_header value response.headers, header_bytes) refl

  secret-init_dialed :
      lookup group_secret_header (init_dialed request response common_name).headers
      ≡ lookup group_secret_header response.headers
  unfolding init_dialed
  secret-init_dialed =
      lookup-insert type_header group_secret_header
        (header_bytes (lookup type_header request.headers)) response.headers

-- A dial of a group succeeds where the listener offers its acceptor the underlay: of the response, as
-- it comes over the wire, the dialer makes an underlay with the connection id, the type and the group
-- secret of the listener's, and the secret is not empty. The listener's configured headers must not
-- set the success of a result, and a new secret is not empty.
pub grouped_handshake_agrees :
    (d : ClassicDialer) (extra : Headers) (request : Message) (common_name : Option Bytes)
    (i : Incoming) (l : ClassicListener) (u : PeerUnderlay) (rq : Message)
    → hello_request d extra ≡ some request
    → (get_bool_header is_grouped_header request.headers).0 ≡ true
    → i.rx ≡ ok (received request)
    → (length i.new_secret == 0) ≡ false
    → lookup result_success_header l.headers ≡ none
    → lookup result_success_header l.headers_f ≡ none
    → accept_connection i ≡ offered u rq
    → (v : PeerUnderlay) × (judge_response request common_name (received (ack_hello l u rq true []))
        ≡ ok v)
      × (v.connection_id ≡ u.connection_id)
      × (header_bytes (lookup type_header v.headers) ≡ header_bytes (lookup type_header u.headers))
      × (header_bytes (lookup group_secret_header v.headers)
          ≡ header_bytes (lookup group_secret_header u.headers))
      × ((length (header_bytes (lookup group_secret_header u.headers)) == 0) ≡ false)
unfolding received ack_hello reply_to header_bytes
grouped_handshake_agrees d extra request common_name i l u rq sent grouped rx fresh free free_f
      accepted =
    let is_request = hello_request-IsRequest d extra request sent in
    let response = received (ack_hello l u rq true []) in
    let made =
      init_accepted-OfferedFor i request u rq is_request grouped
        (offered-init_accepted i (received request) u rq rx accepted) in
    let replies : reply_for response ≡ hello_sequence =
      reply_for-response l u rq (rw made.answers_hello (omega arith)) ∙ made.answers_hello in
    let secret_kept = with_secret_lem i.new_secret request.headers fresh in
    let has : lacks_group_secret rq.headers ≡ false = rw made.secret secret_kept.0 in
    (
      init_dialed request response common_name,
      judge_response_ok request response common_name replies refl
          (success-response l u rq free free_f),
      connection_id-init_dialed request response common_name i.next_id u.connection_id
          (connection_id-response l u rq) made.id,
      type-init_dialed request response common_name
          ∙ ap header_bytes (sym secret_kept.1)
          ∙ ap (λ h. header_bytes (lookup type_header h)) (sym made.secret ∙ sym made.shared),
      ap header_bytes
            (secret-init_dialed request response common_name ∙ group_secret-response l u rq has)
          ∙ ap (λ h. header_bytes (lookup group_secret_header h)) (sym made.shared),
      rw made.shared has,
    )
