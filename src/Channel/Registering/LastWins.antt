-- ===== src/Channel/Registering/LastWins.antt =====
-- Which handler a message reaches, by the calls that a Binding was given.
use channel.Base.{ℕ, ◌≡◌, refl, ap, ◌∙◌, List, [], false, Option, none, some}
use channel.Base.Maps.{Map, lookup, nat_eq}
use channel.Message.{Message, is_reply}
use channel.Channel.Dispatch.{any_content_type, typed_handler, any_handler, to_receive_handlers, rx}
use channel.Channel.Registering.{
  ReceiveFunction, ReceiveCall, call_function, Registered, BindingCall, make_calls, called_for,
}
use channel.Channel.Registering.Functions.{
  IsNumbered, function_at, registered_for, first_some, last_stored, registered_for-calls,
}

-- What is called for the outcome of looking for a function.
abbrev pub call_of : Option ReceiveFunction → Option ReceiveCall
call_of none = none
call_of (some f) = some (call_function f)

called_for-handlers :
    (r : Registered) (typed any : Option ℕ)
    → called_for r (typed_handler typed any)
      ≡ call_of (first_some (function_at r typed) (function_at r any))
unfolding called_for typed_handler any_handler
called_for-handlers r (some n) any = refl
called_for-handlers r none none = refl
called_for-handlers r none (some n) = refl

first_some-none {ℓ} : {A : Type ℓ} (a : Option A) → first_some a none ≡ a
first_some-none none = refl
first_some-none (some a) = refl

nothing_found : (j : ℕ) (hs : Map ℕ ℕ) → hs ≡ [] → lookup j hs ≡ none
unfolding lookup
nothing_found j hs e = rw e refl

registered_for-bare :
    (k senders : ℕ) (cs : List BindingCall) (r : Registered)
    → r.channel.receive_handlers ≡ []
    → registered_for k (make_calls senders cs r) ≡ last_stored k senders cs
registered_for-bare k senders cs r bare =
    let numbered : IsNumbered r =
      λ j n found. absurd (cc (found, nothing_found j r.channel.receive_handlers bare)) in
    registered_for-calls k senders cs r numbered
    ∙ ap (λ o. first_some (last_stored k senders cs) (function_at r o))
        (nothing_found k r.channel.receive_handlers bare)
    ∙ first_some-none (last_stored k senders cs)

-- On a channel that had no receive handlers and that a binding's calls then set up, a message that is no
-- reply is handled by the function that the last of the calls for its content type stored, without one
-- by the last for any content type, or by none; calls that register other things do not matter.
pub last_registration_wins :
    (senders : ℕ) (cs : List BindingCall) (r : Registered) (now : ℕ) (m : Message)
    → r.channel.receive_handlers ≡ []
    → is_reply m ≡ false
    → called_for (make_calls senders cs r) (rx now m (make_calls senders cs r).channel).1
      ≡ call_of (
          first_some
            (last_stored m.content_type senders cs)
            (last_stored any_content_type senders cs))
unfolding rx to_receive_handlers
last_registration_wins senders cs r now m bare no_reply =
    let set_up = make_calls senders cs r in
    let hs = set_up.channel.receive_handlers in
    rw no_reply (
      called_for-handlers set_up (lookup m.content_type hs) (lookup any_content_type hs)
      ∙ ap (λ f. call_of (first_some f (registered_for any_content_type set_up)))
          (registered_for-bare m.content_type senders cs r bare)
      ∙ ap (λ f. call_of (first_some (last_stored m.content_type senders cs) f))
          (registered_for-bare any_content_type senders cs r bare))
