-- ===== src/Handshake/Respond.antt =====
-- ws_listener.go: the result that a WebSocket listener answers a request with.
use channel.Base.{ℕ, ◌≡◌, refl, ◌∙◌, Bool, true, Option, ==_iff}
use channel.Base.Bytes.{Bytes}
use channel.Base.Maps.{nat_eq}
use channel.Message.{Message, new_message, reply_to, reply_for, cached_reply_for, is_replying_to}
use channel.Message.Headers.{put_bool_header}
use channel.Message.Keys.{content_type_result, result_success_header}
use channel.Wire.RoundTrip.{IsSendable, received, reply_for-received}
use channel.Transport.{StreamUnderlay, new_ws_impl, Sent, stream_tx}

-- `NewWSListener`
unfoldable pub new_ws_listener : StreamUnderlay
unfolding new_ws_impl
new_ws_listener = new_ws_impl 2

-- The response of `Respond`.
unfoldable pub ws_response : Message → Bool → Bytes → Message
unfolding new_message put_bool_header reply_to
ws_response request success body =
    let m = new_message content_type_result body in
    reply_to
      (record m {
        headers = put_bool_header result_success_header success m.headers;
        sequence = request.sequence;
      })
      request

-- `Respond`
unfoldable pub ws_respond : Option ℕ → Message → Bool → Bytes → StreamUnderlay → Message × Sent
unfolding ws_response stream_tx
ws_respond write_error request success body u =
    stream_tx write_error (ws_response request success body) u

-- What the peer receives answers its request.
pub ws_response-answers :
    (request : Message) (success : Bool) (body : Bytes)
    → IsSendable (ws_response request success body)
    → is_replying_to (received (ws_response request success body)) request.sequence ≡ true
unfolding is_replying_to
ws_response-answers request success body v =
    let same : reply_for (ws_response request success body) ≡ request.sequence =
      unfold ws_response reply_to reply_for cached_reply_for in refl in
    (==_iff _ request.sequence).1 (reply_for-received (ws_response request success body) v ∙ same)
