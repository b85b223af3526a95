-- ===== src/Tests/Handshake.antt =====
-- classic_dialer.go and classic_listener.go on one grouped hello and on a listener that is busy.
use channel.Base.{ℕ, ◌==◌, ◌≡◌, refl, arith, List, [], ◌∷◌, true, false, none, some, ok, length}
use channel.Base.Maps.{lookup, insert, insert_all, nat_eq}
use channel.Message.Headers.{get_bool_header}
use channel.Message.{Headers, Message, new_message}
use channel.Message.Keys.{
  connection_id_header, type_header, is_grouped_header, group_secret_header, content_type_hello,
  hello_sequence,
}
use channel.Underlays.{header_bytes}
use channel.Wire.RoundTrip.{received}
use channel.Handshake.{
  RejectedError, class_busy, because, reject_response, new_hello, class_of, reason_text,
}
use channel.Handshake.Dialer.{
  ClassicDialer, PeerUnderlay, judge_response, hello_request, refused, Answers, Turn, hello_failed,
  create_with_headers, provide, finish_request,
}
use channel.Handshake.Listener.{
  Incoming, offered, accept_connection, ClassicListener, ack_hello, init_accepted,
}
use channel.Handshake.Agreement.{grouped_handshake_agrees}
use channel.Handshake.Existing.{
  ExistingConn, existing_accepted, existing_request, judge_existing, accept_with_id,
}
use channel.Handshake.Existing.Agreement.{existing_handshake_agrees}
use channel.Handshake.Attempts.{Balanced, create_with_headers-Balanced, refused_once}
use channel.Handshake.Listening.{
  ListenerAction, listens, closes, accepts, creates, gives_up, new_listener, run_listener,
}
use channel.Handshake.Listening.Accounts.{
  accounted, times_accepted, SignalOnce, underlays_accounted_for,
}

abbrev dialer : ClassicDialer
dialer = record { token = 7 ∷ []; headers = []; hello_header_provider = none }

-- The headers of a first grouped dial: the group, its id and the type.
abbrev extra : Headers
extra = (is_grouped_header, 1 ∷ []) ∷ (connection_id_header, 99 ∷ []) ∷ (type_header, 107 ∷ []) ∷ []

abbrev request : Message
request = record (new_message content_type_hello (7 ∷ [])) {
  headers = insert_all [] extra;
  sequence = hello_sequence;
}

requested : hello_request dialer extra ≡ some request
unfolding hello_request provide finish_request new_hello new_message insert_all
requested = refl

abbrev incoming : Incoming
incoming = record {
  deadline_fails = false;
  rx = ok (received request);
  handlers_agree = λ h. true;
  next_id = 55 ∷ [];
  new_secret = 42 ∷ 43 ∷ [];
}

abbrev listener : ClassicListener
listener = record { headers = (8, 1 ∷ []) ∷ []; headers_f = []; token = some (9 ∷ []) }

abbrev accepted_headers : Headers
accepted_headers = insert group_secret_header (42 ∷ 43 ∷ []) (received request).headers

abbrev accepted : PeerUnderlay
accepted = record { id = 7 ∷ []; connection_id = 99 ∷ []; headers = accepted_headers }

abbrev accepted_request : Message
accepted_request = record (received request) { headers = accepted_headers }

offered_underlay : accept_connection incoming ≡ offered accepted accepted_request
unfolding accept_connection init_accepted received new_message insert insert_all lookup
offered_underlay = refl

grouped_handshake_agrees_example :
    (v : PeerUnderlay) × (judge_response request none
        (received (ack_hello listener accepted accepted_request true []))
      ≡ ok v)
    × (v.connection_id ≡ 99 ∷ [])
    × (header_bytes (lookup type_header v.headers)
        ≡ header_bytes (lookup type_header accepted_headers))
    × (header_bytes (lookup group_secret_header v.headers)
        ≡ header_bytes (lookup group_secret_header accepted_headers))
    × ((length (header_bytes (lookup group_secret_header accepted_headers)) == 0) ≡ false)
unfolding new_message insert_all insert lookup get_bool_header
grouped_handshake_agrees_example =
    grouped_handshake_agrees dialer extra request none incoming listener accepted accepted_request
      requested refl refl refl refl refl offered_underlay

abbrev busy : RejectedError
busy = record { reject_class = class_busy; message = 110 ∷ 111 ∷ [] }

abbrev refusing : Answers
refusing = record {
  deadline_fails = false;
  tx_fails = false;
  rx = ok (received (reject_response (some (because busy))));
  common_name = none;
}

abbrev turns_refused : ℕ → ℕ → Turn
turns_refused n version = record { in_time = true; dial_fails = false; answers = refusing }

refused_once_example :
    create_with_headers dialer extra turns_refused
    ≡ record { result = hello_failed (refused busy); opened = 1; closed = 1 }
unfolding class_of because reason_text
refused_once_example =
    refused_once dialer extra turns_refused request (some (because busy)) (omega arith) refl refl
      refl refl requested refl

create_with_headers-Balanced_example : Balanced 2 (create_with_headers dialer extra turns_refused)
create_with_headers-Balanced_example = create_with_headers-Balanced dialer extra turns_refused

abbrev near : ExistingConn
near = record { token = 7 ∷ []; headers = (type_header, 107 ∷ []) ∷ [] }

abbrev far : ExistingConn
far = record { token = 9 ∷ []; headers = (8, 1 ∷ []) ∷ [] }

existing_handshake_agrees_example :
    (u v : PeerUnderlay) × (response : Message) × (accept_with_id far false false
        (ok (received (existing_request near)))
        (some (55 ∷ []))
      ≡ existing_accepted u response)
    × (judge_existing near (received response) ≡ ok v)
    × (u.id ≡ 7 ∷ [])
    × (u.connection_id ≡ 55 ∷ [])
    × (v.connection_id ≡ 55 ∷ [])
unfolding lookup
existing_handshake_agrees_example = existing_handshake_agrees near far (55 ∷ []) refl

abbrev listener_life : List ListenerAction
listener_life =
    gives_up 1
    ∷ listens (some 80)
    ∷ accepts true 1
    ∷ accepts true 2
    ∷ accepts false 3
    ∷ creates 2
    ∷ closes false
    ∷ closes true
    ∷ gives_up 1
    ∷ []

underlays_accounted_for_example :
    (accounted 1 (run_listener new_listener listener_life) ≡ times_accepted 1 listener_life)
    × SignalOnce (run_listener new_listener listener_life)
underlays_accounted_for_example = underlays_accounted_for listener_life 1
