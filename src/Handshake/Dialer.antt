-- ===== src/Handshake/Dialer.antt =====
-- classic_dialer.go: `sendHello` and `CreateWithHeaders`. What the transport and the peer do is given
-- as answers, for each turn of the loop and the protocol version of that turn.
use channel.Base.{
  ℕ, zero, suc, ◌+◌, ◌==◌, [], ◌∷◌, Bool, true, false, not, ◌||◌, Option, none, some, Result, ok,
  err, if◌then◌else◌, ltb,
}
use channel.Base.Bytes.{Bytes}
use channel.Base.Maps.{lookup, insert, insert_all, nat_eq}
use channel.Message.{Headers, Message, is_replying_to}
use channel.Message.Headers.{get_string_header}
use channel.Message.Keys.{
  connection_id_header, type_header, id_header, content_type_result, hello_sequence,
}
use channel.Underlays.{header_bytes}
use channel.Wire.{WireError, bad_magic_number}
use channel.Wire.Hello.{get_retry_version}
use channel.Handshake.{new_hello, unmarshal_result, RejectedError, get_reject_class}

-- The provider, where there is one, gives the adjusted headers or an error.
pub record ClassicDialer : Type 0 where
  pub token : Bytes
  pub headers : Headers
  pub hello_header_provider : Option (Headers → Option Headers)

pub data HelloError : Type 0 where
  deadline_failed provider_refused tx_failed invalid_header synchronization_error : HelloError
  rx_failed : WireError → HelloError
  refused : RejectedError → HelloError

-- What `init` makes of an underlay.
pub record PeerUnderlay : Type 0 where
  pub id : Bytes
  pub connection_id : Bytes
  pub headers : Headers

unfoldable pub provide : Option (Headers → Option Headers) → Headers → Option Headers
provide none h = some h
provide (some f) h = f h

unfoldable pub finish_request : Message → Option Headers → Option Message
finish_request request none = none
finish_request request (some h) = some (record request { headers = h; sequence = hello_sequence })

-- The hello that is sent, or none where the provider refuses.
unfoldable pub hello_request : ClassicDialer → Headers → Option Message
unfolding new_hello provide insert_all finish_request
hello_request d extra =
    let request = new_hello d.token d.headers in
    finish_request request (provide d.hello_header_provider (insert_all request.headers extra))

unfoldable pub first_nonempty : Bytes → Bytes → Bytes
first_nonempty [] b = b
first_nonempty (x ∷ a) b = x ∷ a

-- `id`: the peer's id header, or the common name of its first certificate, if any.
unfoldable pub peer_id : Bytes × Bool → Option Bytes → Bytes
peer_id (val, true) common_name = val
peer_id (val, false) (some name) = name
peer_id (val, false) none = []

unfoldable pub init_dialed : Message → Message → Option Bytes → PeerUnderlay
unfolding first_nonempty header_bytes lookup peer_id get_string_header insert
init_dialed request response common_name = record {
  id = peer_id (get_string_header id_header response.headers) common_name;
  connection_id =
      first_nonempty (header_bytes (lookup connection_id_header request.headers))
        (header_bytes (lookup connection_id_header response.headers));
  headers = insert type_header (header_bytes (lookup type_header request.headers)) response.headers;
}

-- What `sendHello` makes of the answer to its hello.
unfoldable pub judge_response : Message → Option Bytes → Message → Result HelloError PeerUnderlay
unfolding is_replying_to unmarshal_result get_reject_class init_dialed
judge_response request common_name response =
    let result = unmarshal_result response in
    if not (is_replying_to response hello_sequence)
      || not (response.content_type == content_type_result)
    then err synchronization_error
    else if not result.success
    then err
        (refused (record { reject_class = get_reject_class response; message = result.message }))
    else ok (init_dialed request response common_name)

unfoldable pub after_rx :
    Message → Option Bytes → Result WireError Message → Result HelloError PeerUnderlay
unfolding judge_response
after_rx request common_name (ok response) = judge_response request common_name response
after_rx request common_name (err bad_magic_number) = err invalid_header
after_rx request common_name (err e) = err (rx_failed e)

pub record Answers : Type 0 where
  pub deadline_fails : Bool
  pub tx_fails : Bool
  pub rx : Result WireError Message
  pub common_name : Option Bytes

unfoldable pub exchange : Option Message → Answers → Result HelloError PeerUnderlay
unfolding after_rx
exchange none a = err provider_refused
exchange (some request) a =
    if a.tx_fails then err tx_failed else after_rx request a.common_name a.rx

-- `sendHello`. On an error the deferred function closes the underlay.
unfoldable pub send_hello : ClassicDialer → Headers → Answers → Result HelloError PeerUnderlay
unfolding hello_request exchange
send_hello d extra a =
    if a.deadline_fails then err deadline_failed else exchange (hello_request d extra) a

unfoldable pub is_non_retryable : HelloError → Bool
is_non_retryable provider_refused = true
is_non_retryable (refused e) = true
is_non_retryable e = false

-- `GetRetryVersion`, of any error of `sendHello`.
unfoldable pub retry_version : HelloError → ℕ × Bool
unfolding get_retry_version
retry_version (rx_failed e) = get_retry_version e
retry_version e = (2, false)

pub record Turn : Type 0 where
  pub in_time : Bool  -- before the deadline
  pub dial_fails : Bool
  pub answers : Answers

pub data CreateResult : Type 0 where
  created : PeerUnderlay → CreateResult
  dial_failed timed_out out_of_fuel : CreateResult
  hello_failed : HelloError → CreateResult

-- A result, with the connections opened and the underlays closed on the way.
pub record Created : Type 0 where
  pub result : CreateResult
  pub opened : ℕ
  pub closed : ℕ

unfoldable pub after_hello : Result HelloError PeerUnderlay → ℕ → ℕ → ℕ → (ℕ → Created) → Created
unfolding is_non_retryable retry_version
after_hello (ok u) try_count opened closed again = record {
  result = created u;
  opened = opened;
  closed = closed;
}
after_hello (err e) try_count opened closed again =
    let failed : Created = record {
      result = hello_failed e;
      opened = opened;
      closed = closed + 1;
    } in
    if ltb 0 try_count || is_non_retryable e
    then failed
    else if not (retry_version e).1
    then failed
    else again (retry_version e).0

module _ (d : ClassicDialer) (extra : Headers) (turns : ℕ → ℕ → Turn) where
  -- The loop of `CreateWithHeaders`, at its turn `n`.
  unfoldable pub create_loop : ℕ → ℕ → ℕ → ℕ → ℕ → ℕ → Created
  unfolding after_hello
  create_loop zero n try_count version opened closed = record {
    result = out_of_fuel;
    opened = opened;
    closed = closed;
  }
  create_loop (suc fuel) n try_count version opened closed =
      let t = turns n version in
      let again : ℕ → Created =
        λ v. create_loop fuel (n + 1) (try_count + 1) v (opened + 1) (closed + 1) in
      if not t.in_time
      then record { result = timed_out; opened = opened; closed = closed }
      else if t.dial_fails
      then record { result = dial_failed; opened = opened; closed = closed }
      else after_hello (send_hello d extra t.answers) try_count (opened + 1) closed again

  -- `CreateWithHeaders`. Two turns are all that the loop takes.
  unfoldable pub create_with_headers : Created
  unfolding create_loop
  create_with_headers = create_loop 2 0 0 2 0 0
