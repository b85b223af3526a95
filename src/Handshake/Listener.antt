-- ===== src/Handshake/Listener.antt =====
-- classic_listener.go: `acceptConnection` with `receiveHello`, up to the hand-over to the acceptor, and
-- `ackHello`. The hello of a request shares its headers with it, so the secret that is made for a group
-- is in both.
use channel.Base.{
  ℕ, ◌==◌, List, [], ◌∷◌, ◌++◌, Bool, true, false, not, ◌&&◌, ◌||◌, Option, none, some, Result, ok,
  err, if◌then◌else◌, length,
}
use channel.Base.Bytes.{Bytes}
use channel.Base.Maps.{lookup, insert, insert_all, nat_eq}
use channel.Message.{Headers, Message, reply_to}
use channel.Message.Headers.{get_string_header, put_string_header, get_bool_header}
use channel.Message.Keys.{
  connection_id_header, type_header, id_header, is_grouped_header, group_secret_header,
  content_type_hello, hello_sequence,
}
use channel.Underlays.{header_bytes}
use channel.Wire.{WireError, bad_magic_number}
use channel.Wire.Hello.{unknown_version_response}
use channel.Handshake.{HelloMessage, unmarshal_hello, new_result}
use channel.Handshake.Dialer.{PeerUnderlay}

pub data PeerEffect : Type 0 where
  wrote : Bytes → PeerEffect
  underlay_closed peer_closed : PeerEffect

-- `receiveHello`: what is done where it fails, or the request.
unfoldable pub receive_hello : Result WireError Message → Result (List PeerEffect) Message
unfolding unknown_version_response
receive_hello (err bad_magic_number) = err (wrote unknown_version_response ∷ underlay_closed ∷ [])
receive_hello (err e) = err (underlay_closed ∷ [])
receive_hello (ok request) =
    if request.content_type == content_type_hello then ok request else err (underlay_closed ∷ [])

-- The answers of the transport and the connection handlers, the listener's next connection id, and a
-- new secret: a UUID's bytes.
pub record Incoming : Type 0 where
  pub deadline_fails : Bool
  pub rx : Result WireError Message
  pub handlers_agree : HelloMessage → Bool
  pub next_id : Bytes
  pub new_secret : Bytes

unfoldable pub accepted_id : Bool → Bytes → Bytes → Bytes
accepted_id is_grouped connection_id next_id =
    if not is_grouped || length connection_id == 0 then next_id else connection_id

-- A grouped hello without a secret gets one.
unfoldable pub with_secret : Bool → Bytes → Headers → Headers
unfolding header_bytes lookup insert
with_secret is_grouped new_secret h =
    if is_grouped && length (header_bytes (lookup group_secret_header h)) == 0
    then insert group_secret_header new_secret h
    else h

pub data Accepting : Type 0 where
  dropped : List PeerEffect → Accepting
  -- The underlay for the acceptor, and the request that `ackHello` answers.
  offered : PeerUnderlay → Message → Accepting

unfoldable pub init_accepted : Incoming → Message → Accepting
unfolding get_string_header get_bool_header accepted_id with_secret unmarshal_hello
init_accepted i request =
    let is_grouped = (get_bool_header is_grouped_header request.headers).0 in
    let given = (get_string_header connection_id_header request.headers).0 in
    let headers = with_secret is_grouped i.new_secret request.headers in
    offered
      (record {
        id = (unmarshal_hello request).id_token;
        connection_id = accepted_id is_grouped given i.next_id;
        headers = headers;
      })
      (record request { headers = headers })

unfoldable pub after_receive : Incoming → Result (List PeerEffect) Message → Accepting
unfolding init_accepted unmarshal_hello
after_receive i (err effects) = dropped (effects ++ (peer_closed ∷ []))
after_receive i (ok request) =
    if i.handlers_agree (unmarshal_hello request)
    then init_accepted i request
    else dropped (peer_closed ∷ [])

-- `acceptConnection`, as the worker of the pool runs it.
unfoldable pub accept_connection : Incoming → Accepting
unfolding after_receive receive_hello
accept_connection i =
    if i.deadline_fails then dropped (peer_closed ∷ []) else after_receive i (receive_hello i.rx)

-- `headers_f` is what `headersF` returns, or no headers; `token` that of the identity, if there is one.
pub record ClassicListener : Type 0 where
  pub headers : Headers
  pub headers_f : Headers
  pub token : Option Bytes

unfoldable pub put_token : Option Bytes → Headers → Headers
unfolding put_string_header
put_token none h = h
put_token (some token) h = put_string_header id_header token h

unfoldable pub put_if : Bool → ℕ → Bytes → Headers → Headers
unfolding insert
put_if true key value h = insert key value h
put_if false key value h = h

-- The headers that a response gets after those of the listener's configuration.
unfoldable pub own_headers : Option Bytes → PeerUnderlay → Message → Headers → Headers
unfolding put_string_header put_token put_if get_bool_header get_string_header header_bytes lookup
own_headers token u request h =
    let is_grouped = (get_bool_header is_grouped_header request.headers).0 in
    let underlay_type = (get_string_header type_header request.headers).0 in
    let group_secret = header_bytes (lookup group_secret_header request.headers) in
    put_if (not (length group_secret == 0)) group_secret_header group_secret (
      put_if (not (length underlay_type == 0)) type_header underlay_type (
        put_if is_grouped is_grouped_header (1 ∷ [])
          (put_token token (put_string_header connection_id_header u.connection_id h))))

-- The message that `ackHello` sends.
unfoldable pub ack_hello : ClassicListener → PeerUnderlay → Message → Bool → Bytes → Message
unfolding new_result insert_all own_headers reply_to
ack_hello l u request success message =
    let response = new_result success message in
    let configured = insert_all (insert_all response.headers l.headers) l.headers_f in
    reply_to
      (record response {
        headers = own_headers l.token u request configured;
        sequence = hello_sequence;
      })
      request
