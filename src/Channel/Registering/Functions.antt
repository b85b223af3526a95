-- ===== src/Channel/Registering/Functions.antt =====
-- Which function a content type has after the calls of a Binding.
use channel.Base.{
  ℕ, ◌+◌, ◌==◌, ◌<◌, ◌≡◌, refl, ap, ◌∙◌, sym, arith, List, [], ◌∷◌, false, Option, none, some,
  if◌then◌else◌, Bool-cases, inl, inr, ==_iff,
}
use channel.Base.Maps.{lookup, lookup-insert, nat_eq}
use channel.Channel.Binding.{
  add_receive_handler, add_peek_handler, add_transform_handler, add_error_handler,
  add_close_handler,
}
use channel.Channel.Registering.{
  ReceiveFunction, receiver_function, message_only, with_senders, Registered, BindingCall,
  adds_receive_handler, adds_msg_receive_handler, adds_typed_receive_handler, adds_peek_handler,
  adds_transform_handler, adds_error_handler, adds_close_handler, sets_user_data, store_function,
  add_msg_receive_handler, add_typed_receive_handler, binding_call, make_calls,
}

-- The map holds only numbers that were given out.
abbrev pub IsNumbered : Registered → Type 0
IsNumbered r = (k n : ℕ) → lookup k r.channel.receive_handlers ≡ some n → n < r.made

abbrev pub function_at : Registered → Option ℕ → Option ReceiveFunction
function_at r none = none
function_at r (some n) = some (r.function_of n)

-- The function for a content type.
abbrev pub registered_for : ℕ → Registered → Option ReceiveFunction
registered_for k r = function_at r (lookup k r.channel.receive_handlers)

abbrev pub first_some {ℓ} : {A : Type ℓ} → Option A → Option A → Option A
first_some none b = b
first_some (some a) b = some a

-- What a call stores for a content type.
abbrev pub stored_by : ℕ → ℕ → BindingCall → Option ReceiveFunction
stored_by k senders (adds_receive_handler j h) = if j == k then some (receiver_function h) else none
stored_by k senders (adds_msg_receive_handler j h) = if j == k then some (message_only h) else none
stored_by k senders (adds_typed_receive_handler j h) =
    if j == k then some (with_senders h senders) else none
stored_by k senders (adds_peek_handler h) = none
stored_by k senders (adds_transform_handler h) = none
stored_by k senders (adds_error_handler h) = none
stored_by k senders (adds_close_handler h) = none
stored_by k senders (sets_user_data x) = none

-- The last that the calls store for it.
abbrev pub last_stored : ℕ → ℕ → List BindingCall → Option ReceiveFunction
last_stored k senders [] = none
last_stored k senders (c ∷ cs) = first_some (last_stored k senders cs) (stored_by k senders c)

function_at-store :
    (r : Registered) (f : ReceiveFunction) (j : ℕ) (o : Option ℕ)
    → ((n : ℕ) → o ≡ some n → n < r.made)
    → function_at (store_function j f r) o ≡ function_at r o
unfolding store_function
function_at-store r f j none old = refl
function_at-store r f j (some n) old =
    let small : n < r.made = old n refl in
    let other : (r.made == n) ≡ false = ground (arith, small) in rw other refl

lookup-store :
    (j k : ℕ) (f : ReceiveFunction) (r : Registered)
    → lookup k (store_function j f r).channel.receive_handlers
      ≡ (if j == k then some r.made else lookup k r.channel.receive_handlers)
unfolding store_function add_receive_handler
lookup-store j k f r = lookup-insert j k r.made r.channel.receive_handlers

function_at-made :
    (r : Registered) (j : ℕ) (f : ReceiveFunction) → (store_function j f r).function_of r.made ≡ f
unfolding store_function
function_at-made r j f = let own = (==_iff r.made r.made).1 refl in rw own refl

registered_for-store :
    (j k : ℕ) (f : ReceiveFunction) (r : Registered)
    → IsNumbered r
    → registered_for k (store_function j f r)
      ≡ first_some (if j == k then some f else none) (registered_for k r)
registered_for-store j k f r numbered = elim (Bool-cases (j == k)) [
  | inl same ↦
      ap (function_at (store_function j f r)) (lookup-store j k f r)
      ∙ (rw same (ap (λ (g : ReceiveFunction). some g) (function_at-made r j f)))
  | inr other ↦
      ap (function_at (store_function j f r)) (lookup-store j k f r)
      ∙ (rw other (function_at-store r f j (lookup k r.channel.receive_handlers) (numbered k)))
]

store-IsNumbered :
    (j : ℕ) (f : ReceiveFunction) (r : Registered)
    → IsNumbered r
    → IsNumbered (store_function j f r)
store-IsNumbered j f r numbered k n found = elim (Bool-cases (j == k)) [
  | inl same ↦
      let made : some r.made ≡ some n = sym (rw same at (lookup-store j k f r)) ∙ found in
      let one_more : (store_function j f r).made ≡ r.made + 1 = unfold store_function in refl in
      let named : r.made ≡ n = cc in omega (arith, named, one_more)
  | inr other ↦
      let old = numbered k n (sym (rw other at (lookup-store j k f r)) ∙ found) in
      let one_more : (store_function j f r).made ≡ r.made + 1 = unfold store_function in refl in
      omega (arith, old, one_more)
]

call-IsNumbered :
    (senders : ℕ) (c : BindingCall) (r : Registered)
    → IsNumbered r
    → IsNumbered (binding_call senders c r)
unfolding binding_call add_msg_receive_handler add_typed_receive_handler add_peek_handler
    add_transform_handler add_error_handler add_close_handler
call-IsNumbered senders (adds_receive_handler j h) r numbered =
    store-IsNumbered j (receiver_function h) r numbered
call-IsNumbered senders (adds_msg_receive_handler j h) r numbered =
    store-IsNumbered j (message_only h) r numbered
call-IsNumbered senders (adds_typed_receive_handler j h) r numbered =
    store-IsNumbered j (with_senders h senders) r numbered
call-IsNumbered senders (adds_peek_handler h) r numbered = numbered
call-IsNumbered senders (adds_transform_handler h) r numbered = numbered
call-IsNumbered senders (adds_error_handler h) r numbered = numbered
call-IsNumbered senders (adds_close_handler h) r numbered = numbered
call-IsNumbered senders (sets_user_data x) r numbered = numbered

registered_for-call :
    (k senders : ℕ) (c : BindingCall) (r : Registered)
    → IsNumbered r
    → registered_for k (binding_call senders c r)
      ≡ first_some (stored_by k senders c) (registered_for k r)
unfolding binding_call add_msg_receive_handler add_typed_receive_handler add_peek_handler
    add_transform_handler add_error_handler add_close_handler
registered_for-call k senders (adds_receive_handler j h) r numbered =
    registered_for-store j k (receiver_function h) r numbered
registered_for-call k senders (adds_msg_receive_handler j h) r numbered =
    registered_for-store j k (message_only h) r numbered
registered_for-call k senders (adds_typed_receive_handler j h) r numbered =
    registered_for-store j k (with_senders h senders) r numbered
registered_for-call k senders (adds_peek_handler h) r numbered = refl
registered_for-call k senders (adds_transform_handler h) r numbered = refl
registered_for-call k senders (adds_error_handler h) r numbered = refl
registered_for-call k senders (adds_close_handler h) r numbered = refl
registered_for-call k senders (sets_user_data x) r numbered = refl

first_some_assoc {ℓ} :
    {A : Type ℓ} (a b c : Option A) → first_some a (first_some b c) ≡ first_some (first_some a b) c
first_some_assoc none b c = refl
first_some_assoc (some a) b c = refl

pub registered_for-calls :
    (k senders : ℕ) (cs : List BindingCall) (r : Registered)
    → IsNumbered r
    → registered_for k (make_calls senders cs r)
      ≡ first_some (last_stored k senders cs) (registered_for k r)
unfolding make_calls
registered_for-calls k senders [] r numbered = refl
registered_for-calls k senders (c ∷ cs) r numbered =
    registered_for-calls k senders cs (binding_call senders c r)
      (call-IsNumbered senders c r numbered)
    ∙ ap (first_some (last_stored k senders cs)) (registered_for-call k senders c r numbered)
    ∙ first_some_assoc (last_stored k senders cs) (stored_by k senders c) (registered_for k r)
