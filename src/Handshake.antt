-- ===== src/Handshake.antt =====
-- messages.go and hello_reject.go: the hello and the result that answers it, and how a listener
-- refuses a hello. An error of another kind is known by its text and by the `RejectedError` that it
-- wraps, if it does.
pub mod Dialer
pub mod Listener
pub mod Refusals
pub mod Responses
pub mod Agreement
pub mod Attempts
pub mod Existing
pub mod Listening
pub mod Respond
use channel.Base.{
  ℕ, ◌==◌, List, [], ◌∷◌, ◌++◌, Bool, true, false, Option, none, some, if◌then◌else◌, length,
}
use channel.Base.Bytes.{Bytes}
use channel.Base.Maps.{Map, insert_all, nat_eq}
use channel.Message.{Headers, Message, new_message}
use channel.Message.Headers.{put_bool_header, get_bool_header, put_uint32_header, get_uint32_header}
use channel.Message.Keys.{
  content_type_hello, content_type_result, result_success_header, hello_reject_class_header,
  hello_sequence,
}
use Prim.Native.Char.{code}
use Prim.Native.String.{String}

-- The bytes of an ASCII text.
abbrev pub codes : String → Bytes
codes String.[] = []
codes (String.◌∷◌ c s) = code c ∷ codes s

pub record HelloMessage : Type 0 where
  pub id_token : Bytes
  pub headers : Headers

unfoldable pub new_hello : Bytes → Headers → Message
unfolding new_message insert_all
new_hello id_token attributes =
    let m = new_message content_type_hello id_token in
    record m { headers = insert_all m.headers attributes }

unfoldable pub unmarshal_hello : Message → HelloMessage
unmarshal_hello m = record { id_token = m.body; headers = m.headers }

unfoldable pub new_result : Bool → Bytes → Message
unfolding new_message put_bool_header
new_result success message =
    let m = new_message content_type_result message in
    record m { headers = put_bool_header result_success_header success m.headers }

pub record ResultMessage : Type 0 where
  pub success : Bool
  pub message : Bytes

unfoldable pub unmarshal_result : Message → ResultMessage
unfolding get_bool_header
unmarshal_result m = record {
  success = (get_bool_header result_success_header m.headers).0;
  message = m.body;
}

-- A `RejectClass` is an int32, kept as its bit pattern.
abbrev pub class_unspecified : ℕ
class_unspecified = 0

abbrev pub class_busy : ℕ
class_busy = 1

abbrev pub class_not_permitted : ℕ
class_not_permitted = 2

-- `RejectClass.String`
unfoldable pub class_name : ℕ → Bytes
class_name c =
    if c == class_busy
    then codes "busy"
    else if c == class_not_permitted
    then codes "not-permitted"
    else codes "unspecified"

pub record RejectedError : Type 0 where
  pub reject_class : ℕ
  pub message : Bytes

-- `RejectedError.Error`
unfoldable pub error_text : RejectedError → Bytes
unfolding class_name
error_text e =
    if length e.message == 0
    then (if e.reject_class == class_unspecified
        then codes "hello rejected"
        else codes "hello rejected: " ++ class_name e.reject_class)
    else e.message

-- What an error says, and the `RejectedError` that `errors.As` finds in it.
pub record Reason : Type 0 where
  pub text : Bytes
  pub rejected : Option RejectedError

-- A `RejectedError` as the reason itself.
unfoldable pub because : RejectedError → Reason
unfolding error_text
because e = record { text = error_text e; rejected = some e }

unfoldable pub class_in : Option RejectedError → ℕ
class_in none = class_unspecified
class_in (some e) = e.reject_class

-- `GetRejectClass`, of an error or nil.
unfoldable pub class_of : Option Reason → ℕ
unfolding class_in
class_of none = class_unspecified
class_of (some reason) = class_in reason.rejected

unfoldable pub reason_text : Option Reason → Bytes
reason_text none = []
reason_text (some reason) = reason.text

unfoldable pub put_reject_class : ℕ → Headers → Headers
unfolding put_uint32_header
put_reject_class c h =
    if c == class_unspecified then h else put_uint32_header hello_reject_class_header c h

-- The message that `RejectHello` sends.
unfoldable pub reject_response : Option Reason → Message
unfolding new_result put_reject_class class_of reason_text
reject_response reason =
    let response = new_result false (reason_text reason) in
    record response {
      headers = put_reject_class (class_of reason) response.headers;
      sequence = hello_sequence;
      reply_for = some hello_sequence;
    }

-- What happens to an underlay.
pub data HelloEffect : Type 0 where
  transmitted : Message → HelloEffect
  closed : HelloEffect

-- `RejectHello`: the underlay is closed whether or not the message could be sent.
unfoldable pub reject_hello : Option Reason → List HelloEffect
unfolding reject_response
reject_hello reason = transmitted (reject_response reason) ∷ closed ∷ []

-- `getRejectClass`
unfoldable pub get_reject_class : Message → ℕ
unfolding get_uint32_header
get_reject_class response =
    let (c, found) = get_uint32_header hello_reject_class_header response.headers in
    if found then c else class_unspecified
