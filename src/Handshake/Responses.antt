-- ===== src/Handshake/Responses.antt =====
-- What a dialer finds in the headers of the response that `ackHello` sends.
use channel.Base.{
  ℕ, ◌==◌, ◌<◌, ◌^◌, ◌≡◌, refl, ◌∙◌, arith, [], ◌∷◌, Bool, true, false, Option, none, some,
  if◌then◌else◌, length,
}
use channel.Base.Bytes.{Bytes, put_le, length-put_le, get_le-put_le}
use channel.Base.Maps.{lookup, insert, insert_all, nat_eq, lookup-insert, lookup-insert_self}
use channel.Message.{
  Headers, Message, reply_for, reflect, reflected_header, reply_for_header, reply_to,
}
use channel.Message.Headers.{put_string_header, get_bool_header, put_uint32_header}
use channel.Message.Keys.{
  connection_id_header, id_header, group_secret_header, result_success_header,
}
use channel.Underlays.{header_bytes}
use channel.Wire.RoundTrip.{received}
use channel.Handshake.{unmarshal_result, new_result}
use channel.Handshake.Dialer.{PeerUnderlay}
use channel.Handshake.Listener.{ClassicListener, put_if, put_token, own_headers, ack_hello}

lookup-put_if :
    (b : Bool) (j k : ℕ) (v : Bytes) (h : Headers)
    → lookup k (put_if b j v h)
      ≡ (if j == k then (if b then some v else lookup k h) else lookup k h)
unfolding put_if
lookup-put_if true j k v h = lookup-insert j k v h
lookup-put_if false j k v h = ground arith

lookup-put_token :
    (token : Option Bytes) (k : ℕ) (h : Headers)
    → (id_header == k) ≡ false
    → lookup k (put_token token h) ≡ lookup k h
unfolding put_token put_string_header
lookup-put_token none k h e = refl
lookup-put_token (some t) k h e = rw (lookup-insert id_header k t h, e)

pub lookup-insert_all :
    (k : ℕ) (m kvs : Headers) → lookup k kvs ≡ none → lookup k (insert_all m kvs) ≡ lookup k m
unfolding insert_all
lookup-insert_all k m [] h = refl
lookup-insert_all k m ((j, v) ∷ kvs) h =
    let other : (j == k) ≡ false = unfold lookup in ground arith in
    lookup-insert_all k (insert j v m) kvs (unfold lookup in ground arith)
    ∙ rw (lookup-insert j k v m, other)

pub lookup-reflect :
    (o : Option Bytes) (k : ℕ) (h : Headers)
    → (reflected_header == k) ≡ false
    → lookup k (reflect o h) ≡ lookup k h
unfolding reflect
lookup-reflect none k h e = refl
lookup-reflect (some v) k h e = rw (lookup-insert reflected_header k v h, e)

pub found_true : (k : ℕ) (h : Headers) → lookup k h ≡ some (1 ∷ []) → (get_bool_header k h).0 ≡ true
unfolding get_bool_header
found_true k h e = rw (e, get_bool_header) refl

pub new_result_success : lookup result_success_header (new_result true []).headers ≡ some (1 ∷ [])
unfolding new_result lookup insert
new_result_success = refl

module _ (l : ClassicListener) (u : PeerUnderlay) (request : Message) where
  abbrev response : Message
  response = received (ack_hello l u request true [])

  abbrev configured : Headers
  configured = insert_all (insert_all (new_result true []).headers l.headers) l.headers_f

  lookup-response :
      (k : ℕ)
      → (reflected_header == k) ≡ false
      → (1 == k) ≡ false
      → lookup k response.headers ≡ lookup k (own_headers l.token u request configured)
  unfolding received ack_hello reply_to put_uint32_header
  lookup-response k not_reflected not_reply =
      let value = lookup reflected_header request.headers in
      let own = own_headers l.token u request configured in
      rw
        (
          lookup-insert reply_for_header k (put_le 4 request.sequence) (reflect value own),
          not_reply,
        )
        (lookup-reflect value k own not_reflected)

  -- The connection id of the listener's underlay.
  pub connection_id-response : lookup connection_id_header response.headers ≡ some u.connection_id
  unfolding own_headers put_string_header
  connection_id-response =
      lookup-response connection_id_header refl refl
      ∙ simp (lookup-put_if, lookup-put_token, lookup-insert_self)

  -- The secret of the request, where it has one.
  pub group_secret-response :
      (length (header_bytes (lookup group_secret_header request.headers)) == 0) ≡ false
      → lookup group_secret_header response.headers
        ≡ some (header_bytes (lookup group_secret_header request.headers))
  unfolding own_headers put_string_header
  group_secret-response has =
      lookup-response group_secret_header refl refl ∙ simp (lookup-put_if, has)

  -- The result is the one that was put in, unless the configured headers replace it.
  pub success-response :
      lookup result_success_header l.headers ≡ none
      → lookup result_success_header l.headers_f ≡ none
      → (unmarshal_result response).success ≡ true
  unfolding own_headers put_string_header unmarshal_result
  success-response free free_f = found_true result_success_header response.headers (
      lookup-response result_success_header refl refl
      ∙ simp (lookup-put_if, lookup-put_token, lookup-insert)
          (lookup-insert_all result_success_header
              (insert_all (new_result true []).headers l.headers) l.headers_f free_f
            ∙ lookup-insert_all result_success_header (new_result true []).headers l.headers free
            ∙ new_result_success))

  -- A response is a reply to the request.
  pub reply_for-response : request.sequence < 2 ^ 32 → reply_for response ≡ request.sequence
  unfolding received ack_hello reply_to put_uint32_header reply_for
  reply_for-response small =
      let own = own_headers l.token u request configured in
      let value = lookup reflected_header request.headers in
      rw
        (
          lookup-insert_self reply_for_header (put_le 4 request.sequence) (reflect value own),
          length-put_le 4 request.sequence,
        )
        (get_le-put_le 4 request.sequence small)
