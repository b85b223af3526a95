-- ===== src/Envelope/Typed.antt =====
-- protobufs/protobufs.go: messages that are made of a typed protobuf message, and responses that are
-- read into one. The protobuf encoding is not under this repository and is a parameter.
use channel.Base.{ℕ, ◌==◌, ◌≡◌, refl, subst, not, Result, ok, err, ==_iff, if◌then◌else◌}
use channel.Base.Bytes.{Bytes}
use channel.Message.{Message, new_message}
use channel.Wire.Marshal.{stamped}
use channel.Wire.RoundTrip.{received}

-- A type of protobuf messages with its content type, and what `proto.Marshal` and `proto.Unmarshal` do
-- with it: what was marshalled is unmarshalled again.
pub record TypedMessage (A : Type 0) : Type 0 where
  pub content_type : ℕ
  pub marshal : A → Result ℕ Bytes
  pub unmarshal : Bytes → Result ℕ A
  pub unmarshal-marshal : (a : A) (bs : Bytes) → marshal a ≡ ok bs → unmarshal bs ≡ ok a

pub data TypedEnvelope : Type 0 where
  message_envelope : Message → TypedEnvelope
  error_envelope : ℕ → TypedEnvelope

pub data TypedError : Type 0 where
  request_failed unmarshal_failed : ℕ → TypedError
  unexpected_response_type : ℕ → TypedError

unfoldable pub marshal_proto : ℕ → Result ℕ Bytes → TypedEnvelope
unfolding new_message
marshal_proto content_type (ok bs) = message_envelope (new_message content_type bs)
marshal_proto content_type (err e) = error_envelope e

module _ {A : Type 0} (typed : TypedMessage A) where
  unfoldable pub marshal_typed : A → TypedEnvelope
  unfolding marshal_proto
  marshal_typed a = marshal_proto typed.content_type (typed.marshal a)

  abbrev lift_unmarshal : Result ℕ A → Result TypedError A
  lift_unmarshal (ok a) = ok a
  lift_unmarshal (err e) = err (unmarshal_failed e)

  -- `Unmarshall`, of a response or the error of the request.
  unfoldable pub unmarshall : Result ℕ Message → Result TypedError A
  unmarshall (err e) = err (request_failed e)
  unmarshall (ok response) =
      if not (response.content_type == typed.content_type)
      then err (unexpected_response_type response.content_type)
      else lift_unmarshal (typed.unmarshal response.body)

  -- A typed message that goes over the wire is read back by a receiver that expects its type.
  pub unmarshall-marshal_typed :
      (a : A) (m : Message)
      → marshal_typed a ≡ message_envelope m
      → unmarshall (ok (received m)) ≡ ok a
  unfolding marshal_typed marshal_proto unmarshall received stamped new_message
  unmarshall-marshal_typed a m e = sent (typed.marshal a) refl e
    where
      sent :
          (r : Result ℕ Bytes)
          → typed.marshal a ≡ r
          → marshal_proto typed.content_type r ≡ message_envelope m
          → unmarshall (ok (received m)) ≡ ok a
      sent (err x) made e = absurd (cc)
      sent (ok bs) made e =
          let same : new_message typed.content_type bs ≡ m = cc in
          let own = (==_iff typed.content_type typed.content_type).1 refl in
          subst (λ (m : Message). unmarshall (ok (received m)) ≡ ok a) same
            (rw (own, typed.unmarshal-marshal a bs made) refl)
