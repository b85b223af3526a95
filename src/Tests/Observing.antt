-- ===== src/Tests/Observing.antt =====
-- logging.go, decoder.go and trace_decode.go, and a latency probe and its responder.
use channel.Base.{ℕ, ◌≡◌, refl, List, [], ◌∷◌, ◌++◌, true, false, none, some}
use channel.Handshake.{codes}
use channel.Message.{Message, new_message}
use channel.Logging.{HandlerOp, SlogHandlers, attrs_op, group_op, with_attrs, with_group}
use channel.Base.Bytes.{Bytes}
use channel.Trace.Decoding.{text, truth, TraceMessageDecode, decode_trace_and_format}
use channel.Latency.Probe.{Responder, receives, takes, ticks, responder_step, run_responder}

-- Calls with nothing to add are not recorded.
calls_recorded :
    with_group (5 ∷ []) (with_attrs [] (with_attrs (1 ∷ []) []))
    ≡ attrs_op (1 ∷ []) ∷ group_op (5 ∷ []) ∷ []
unfolding with_group with_attrs
calls_recorded = refl

-- Handlers that are what was called of them, oldest first.
abbrev recording : SlogHandlers (List HandlerOp)
recording = record {
  attrs_of = record_attrs;
  group_of = record_group;
  no_attrs = λ h. refl;
  no_group = λ h. refl;
}
  where
    record_attrs : List ℕ → List HandlerOp → List HandlerOp
    record_attrs [] h = h
    record_attrs (a ∷ as') h = h ++ (attrs_op (a ∷ as') ∷ [])

    record_group : Bytes → List HandlerOp → List HandlerOp
    record_group [] h = h
    record_group (b ∷ bs) h = h ++ (group_op (b ∷ bs) ∷ [])

abbrev some_calls : List HandlerOp
some_calls = attrs_op (1 ∷ []) ∷ group_op [] ∷ group_op (5 ∷ []) ∷ []

abbrev fields : TraceMessageDecode
fields =
    (codes "b", truth true)
    ∷ (codes "__message__", text (codes "Ping"))
    ∷ (codes "a", text (codes "x"))
    ∷ (codes "__decoder__", text (codes "channel"))
    ∷ []

fields_in_order :
    decode_trace_and_format (λ n. []) (λ v. []) (λ v. []) (λ w t. t) (some fields)
    ≡ codes "channel Ping {a=[x] b=[true]}"
unfolding decode_trace_and_format
fields_in_order = refl

-- The second probe comes before the answer to the first was taken, and is dropped.
abbrev stamped_probe : ℕ → Message
stamped_probe t = record {
  content_type = 3;
  sequence = t;
  reply_for = none;
  headers = (128, t ∷ []) ∷ [];
  body = [];
}

abbrev at_rest : Responder
at_rest = record { response_channel = none; sent = []; is_running = true }

one_answer :
    (run_responder at_rest (
      receives (stamped_probe 1)
      ∷ receives (stamped_probe 2)
      ∷ takes false false
      ∷ takes false false
      ∷ ticks true
      ∷ []))
    ≡ (record {
      response_channel = none;
      sent = record (new_message 4 []) { headers = (128, 1 ∷ []) ∷ [] } ∷ [];
      is_running = false;
    })
unfolding run_responder responder_step
one_answer = refl
