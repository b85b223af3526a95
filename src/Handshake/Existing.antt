-- ===== src/Handshake/Existing.antt =====
-- existing_conn_dialer.go and existing_conn_listener.go: the hello exchange over a connection that is
-- there already. What the connection and the peer do is given as answers, for each turn of the loop and
-- the protocol version of that turn.
pub mod Agreement
use channel.Base.{
  ℕ, zero, suc, ◌+◌, ◌==◌, List, [], ◌∷◌, Bool, true, false, not, ◌||◌, Option, none, some, Result,
  ok, err, if◌then◌else◌, ltb,
}
use channel.Base.Bytes.{Bytes}
use channel.Base.Maps.{Map, lookup, insert, insert_all, nat_eq}
use channel.Message.{Headers, Message, is_replying_to, reply_to}
use channel.Message.Keys.{connection_id_header, content_type_result, hello_sequence}
use channel.Underlays.{header_bytes}
use channel.Wire.{WireError}
use channel.Wire.Hello.{get_retry_version}
use channel.Handshake.{new_hello, unmarshal_hello, new_result, unmarshal_result}
use channel.Handshake.Dialer.{PeerUnderlay}
use channel.Handshake.Listener.{PeerEffect, receive_hello}

-- A dialer or a listener of an existing connection: its identity's token and its headers.
pub record ExistingConn : Type 0 where
  pub token : Bytes
  pub headers : Headers

pub data ExistingError : Type 0 where
  not_in_time write_error out_of_sync : ExistingError
  read_error : WireError → ExistingError
  declined : Bytes → ExistingError

unfoldable pub existing_request : ExistingConn → Message
unfolding new_hello
existing_request d = record (new_hello d.token d.headers) { sequence = hello_sequence }

-- `sendHello`, from the response on. The underlay has the dialer's own identity.
unfoldable pub judge_existing : ExistingConn → Message → Result ExistingError PeerUnderlay
unfolding is_replying_to unmarshal_result header_bytes lookup
judge_existing d response =
    let result = unmarshal_result response in
    if not (is_replying_to response hello_sequence)
      || not (response.content_type == content_type_result)
    then err out_of_sync
    else if not result.success
    then err (declined result.message)
    else ok (record {
      id = d.token;
      connection_id = header_bytes (lookup connection_id_header response.headers);
      headers = response.headers;
    })

pub record ExistingAnswers : Type 0 where
  pub deadline_fails : Bool
  pub tx_fails : Bool
  pub rx : Result WireError Message

unfoldable pub judge_read :
    ExistingConn → Result WireError Message → Result ExistingError PeerUnderlay
unfolding judge_existing
judge_read d (err e) = err (read_error e)
judge_read d (ok response) = judge_existing d response

-- `sendHello`; where the write fails it closes the connection.
unfoldable pub send_existing : ExistingConn → ExistingAnswers → Result ExistingError PeerUnderlay
unfolding judge_read
send_existing d a = if a.tx_fails then err write_error else judge_read d a.rx

-- `GetRetryVersion`, of any error of `sendHello`.
unfoldable pub existing_retry_version : ExistingError → ℕ
unfolding get_retry_version
existing_retry_version (read_error e) = (get_retry_version e).0
existing_retry_version e = 2

unfoldable pub after_existing :
    Result ExistingError PeerUnderlay
    → ℕ
    → ℕ
    → (ℕ → Option (Result ExistingError PeerUnderlay))
    → Option (Result ExistingError PeerUnderlay)
unfolding existing_retry_version
after_existing (ok u) try_count version again = some (ok u)
after_existing (err e) try_count version again =
    if ltb 0 try_count
    then some (err e)
    else if existing_retry_version e == version
    then some (err e)
    else again (existing_retry_version e)

module _ (d : ExistingConn) (turns : ℕ → ℕ → ExistingAnswers) where
  -- The loop of `Create` of the dialer, at its turn `n`; none where the fuel runs out.
  unfoldable pub existing_loop : ℕ → ℕ → ℕ → ℕ → Option (Result ExistingError PeerUnderlay)
  unfolding after_existing send_existing
  existing_loop zero n try_count version = none
  existing_loop (suc fuel) n try_count version =
      let a = turns n version in
      let again : ℕ → Option (Result ExistingError PeerUnderlay) =
        λ v. existing_loop fuel (n + 1) (try_count + 1) v in
      if a.deadline_fails
      then some (err not_in_time)
      else after_existing (send_existing d a) try_count version again

  -- `Create` of the dialer. Two turns are all that the loop takes.
  unfoldable pub create_existing : Option (Result ExistingError PeerUnderlay)
  unfolding existing_loop
  create_existing = existing_loop 2 0 0 2

-- The message that `ackHello` of the listener sends.
unfoldable pub ack_existing : ExistingConn → Bytes → Message → Message
unfolding new_result insert_all insert reply_to
ack_existing l connection_id request =
    let response = new_result true [] in
    let configured = insert_all response.headers l.headers in
    reply_to
      (record response {
        headers = insert connection_id_header connection_id configured;
        sequence = hello_sequence;
      })
      request

-- What `Create` of the listener ends with: an underlay with the response that was sent, or an error
-- after some effects on the connection.
pub data ExistingAccept : Type 0 where
  existing_accepted : PeerUnderlay → Message → ExistingAccept
  not_accepted : List PeerEffect → ExistingAccept

unfoldable pub accept_hello :
    ExistingConn → Bytes → Bool → Result (List PeerEffect) Message → ExistingAccept
unfolding unmarshal_hello ack_existing
accept_hello l connection_id ack_fails (err effects) = not_accepted effects
accept_hello l connection_id ack_fails (ok request) =
    if ack_fails
    then not_accepted []
    else existing_accepted
        (record {
          id = (unmarshal_hello request).id_token;
          connection_id = connection_id;
          headers = (unmarshal_hello request).headers;
        })
        (ack_existing l connection_id request)

unfoldable pub accept_with_id :
    ExistingConn → Bool → Bool → Result WireError Message → Option Bytes → ExistingAccept
unfolding accept_hello receive_hello
accept_with_id l deadline_fails ack_fails rx none = not_accepted []
accept_with_id l deadline_fails ack_fails rx (some connection_id) =
    if deadline_fails
    then not_accepted []
    else accept_hello l connection_id ack_fails (receive_hello rx)
