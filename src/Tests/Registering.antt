-- ===== src/Tests/Registering.antt =====
-- bind.go on a binding that registers for one content type twice.
use channel.Base.{List, ◌≡◌, refl, [], ◌∷◌, none, some}
use channel.Channel.Setup.{prepare}
use channel.Channel.Dispatch.{rx}
use channel.Channel.Registering.{
  direct, message_only, with_senders, call_function, Registered, BindingCall, adds_receive_handler,
  adds_msg_receive_handler, adds_typed_receive_handler, adds_peek_handler, make_calls, called_for,
  bind_typed,
}
use channel.Channel.Registering.LastWins.{last_registration_wins}
use channel.Tests.Channel.{grouped, one_listener}
use channel.Message.{Message, is_reply}

abbrev bare : Registered
bare = record {
  channel = prepare one_listener (grouped 1);
  made = 0;
  function_of = λ n. message_only 0;
  user_data = none;
}

abbrev calls : List BindingCall
calls =
    adds_receive_handler 1000 (direct 1)
    ∷ adds_typed_receive_handler 1000 2
    ∷ adds_peek_handler 3
    ∷ adds_msg_receive_handler 1001 4
    ∷ []

abbrev request : Message
request = record { content_type = 1000; sequence = 5; reply_for = none; headers = []; body = [] }

last_registration_wins_example :
    called_for (make_calls 9 calls bare) (rx 0 request (make_calls 9 calls bare).channel).1
    ≡ some (call_function (with_senders 2 9))
unfolding prepare is_reply
last_registration_wins_example = last_registration_wins 9 calls bare 0 request refl refl

-- A handler that fails keeps those behind it from registering.
failing_stops :
    (bind_typed 9
      (some (record { calls = adds_peek_handler 3 ∷ []; result = some 8 })
        ∷ some (record { calls = calls; result = none })
        ∷ [])
      bare).1
    ≡ some 8
unfolding bind_typed
failing_stops = refl
