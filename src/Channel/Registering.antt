-- ===== src/Channel/Registering.antt =====
-- bind.go and handler.go: what a Binding registers as receive handlers. The function that a registration
-- stores closes over its handler and, where it is a typed one, over the senders of the binding; the
-- channel's map holds its number here. Handlers, senders and user data are named by numbers.
pub mod Functions
pub mod LastWins
use channel.Base.{
  ℕ, ◌+◌, ◌==◌, List, [], ◌∷◌, ◌++◌, Bool, true, false, Option, none, some, if◌then◌else◌,
}
use channel.Senders.{update}
use channel.Channel.{ChannelImpl}
use channel.Channel.Dispatch.{Delivery, to_handler, to_receiver, dropped}
use channel.Channel.Binding.{
  add_receive_handler, add_peek_handler, add_transform_handler, add_error_handler,
  add_close_handler,
}

-- A ReceiveHandler: one that is called, or an AsyncFunctionReceiveAdapter.
pub data Receiver : Type 0 where
  direct async : ℕ → Receiver

pub data ReceiveFunction : Type 0 where
  receiver_function : Receiver → ReceiveFunction
  message_only : ℕ → ReceiveFunction
  with_senders : ℕ → ℕ → ReceiveFunction  -- the handler, and the senders it is given

-- The call of a handler: whether it gets the channel, which senders, and whether in a goroutine of its
-- own.
pub record ReceiveCall : Type 0 where
  pub handler : ℕ
  pub gets_channel : Bool
  pub senders : Option ℕ
  pub starts_goroutine : Bool

unfoldable pub receiver_call : Receiver → ReceiveCall
receiver_call (direct h) = record {
  handler = h;
  gets_channel = true;
  senders = none;
  starts_goroutine = false;
}
receiver_call (async h) = record {
  handler = h;
  gets_channel = true;
  senders = none;
  starts_goroutine = true;
}

unfoldable pub call_function : ReceiveFunction → ReceiveCall
unfolding receiver_call
call_function (receiver_function r) = receiver_call r
call_function (message_only h) = record {
  handler = h;
  gets_channel = false;
  senders = none;
  starts_goroutine = false;
}
call_function (with_senders h senders) = record {
  handler = h;
  gets_channel = true;
  senders = some senders;
  starts_goroutine = false;
}

-- The channel that is set up, with the functions that its map names.
pub record Registered : Type 0 where
  pub channel : ChannelImpl
  pub made : ℕ
  pub function_of : ℕ → ReceiveFunction
  pub user_data : Option ℕ

-- The calls of a Binding that register something.
pub data BindingCall : Type 0 where
  adds_receive_handler : ℕ → Receiver → BindingCall  -- also `AddReceiveHandlerF`
  adds_msg_receive_handler : ℕ → ℕ → BindingCall  -- also `AddMsgReceiveHandlerF`
  adds_typed_receive_handler : ℕ → ℕ → BindingCall  -- also `AddTypedReceiveHandlerF`
  adds_peek_handler adds_transform_handler adds_error_handler adds_close_handler : ℕ → BindingCall
  sets_user_data : ℕ → BindingCall

-- `self.ch.receiveHandlers[contentType] = f`
unfoldable pub store_function : ℕ → ReceiveFunction → Registered → Registered
unfolding add_receive_handler
store_function content_type f r = record r {
  channel = add_receive_handler content_type r.made r.channel;
  made = r.made + 1;
  function_of = update r.function_of r.made f;
}

unfoldable pub add_msg_receive_handler : ℕ → ℕ → Registered → Registered
unfolding store_function
add_msg_receive_handler content_type h r = store_function content_type (message_only h) r

unfoldable pub add_typed_receive_handler : ℕ → ℕ → ℕ → Registered → Registered
unfolding store_function
add_typed_receive_handler senders content_type h r =
    store_function content_type (with_senders h senders) r

-- A call of the binding that has the given senders.
unfoldable pub binding_call : ℕ → BindingCall → Registered → Registered
unfolding store_function add_msg_receive_handler add_typed_receive_handler add_peek_handler
    add_transform_handler add_error_handler add_close_handler
binding_call senders (adds_receive_handler content_type h) r =
    store_function content_type (receiver_function h) r
binding_call senders (adds_msg_receive_handler content_type h) r =
    add_msg_receive_handler content_type h r
binding_call senders (adds_typed_receive_handler content_type h) r =
    add_typed_receive_handler senders content_type h r
binding_call senders (adds_peek_handler h) r = record r { channel = add_peek_handler h r.channel }
binding_call senders (adds_transform_handler h) r = record r {
  channel = add_transform_handler h r.channel;
}
binding_call senders (adds_error_handler h) r = record r { channel = add_error_handler h r.channel }
binding_call senders (adds_close_handler h) r = record r { channel = add_close_handler h r.channel }
binding_call senders (sets_user_data x) r = record r { user_data = some x }

-- A TypedBindHandler: the calls it makes of its binding, and the error that it returns, in the run at
-- hand. A nil one makes none.
pub record TypedBindHandler : Type 0 where
  pub calls : List BindingCall
  pub result : Option ℕ

unfoldable pub make_calls : ℕ → List BindingCall → Registered → Registered
unfolding binding_call
make_calls senders [] r = r
make_calls senders (c ∷ cs) r = make_calls senders cs (binding_call senders c r)

unfoldable pub bind_typed_one : ℕ → Option TypedBindHandler → Registered → Registered × Option ℕ
unfolding make_calls
bind_typed_one senders none r = (r, none)
bind_typed_one senders (some h) r = (make_calls senders h.calls r, h.result)

abbrev pub and_typed :
    Registered × Option ℕ → (Registered → Registered × Option ℕ) → Registered × Option ℕ
and_typed (r, none) next = next r
and_typed (r, some e) next = (r, some e)

-- The binder that `MakeTypedBinder` makes of what `TypedBindHandlers` makes of the handlers: the senders
-- are those that it was given.
unfoldable pub bind_typed : ℕ → List (Option TypedBindHandler) → Registered → Registered × Option ℕ
unfolding bind_typed_one
bind_typed senders [] r = (r, none)
bind_typed senders (h ∷ hs) r = and_typed (bind_typed_one senders h r) (bind_typed senders hs)

-- What is called for a message that `rx` delivers.
unfoldable pub called_for : Registered → Delivery → Option ReceiveCall
unfolding call_function
called_for r (to_handler n) = some (call_function (r.function_of n))
called_for r (to_receiver n) = none
called_for r dropped = none
