-- ===== src/Latency/Responses.antt =====
-- `LatencyHandler`: one response is sent at a time.
use channel.Base.{◌+◌, ◌==◌, ◌≤◌, ◌≡◌, refl, arith, List, [], ◌∷◌, if-keeps, ltb}
use channel.Latency.{
  LatencyHandler, HandlerStep, receives, finishes, backs_off, handler_step, run_handler,
}

-- The counter counts those that send and those that have yet to back off.
pub record HandlerInv (h : LatencyHandler) : Type 0 where
  pub counted : h.responses ≡ h.sending + h.backing_off
  pub one_sends : h.sending ≤ 1

handler_step-HandlerInv :
    (h : LatencyHandler) (e : HandlerStep) → HandlerInv h → HandlerInv (handler_step h e)
unfolding handler_step
handler_step-HandlerInv h receives inv =
    if-keeps HandlerInv (ltb (h.responses + 1) 2)
      (λ few. record {
        counted = omega (arith, inv.counted);
        one_sends = ground (arith, few, inv.counted);
      })
      (λ many. record { counted = omega (arith, inv.counted); one_sends = inv.one_sends })
handler_step-HandlerInv h finishes inv =
    if-keeps HandlerInv (h.sending == 0) (λ _. inv)
      (λ some_send. record {
        counted = ground (arith, some_send, inv.counted);
        one_sends = omega (arith, inv.one_sends);
      })
handler_step-HandlerInv h backs_off inv =
    if-keeps HandlerInv (h.backing_off == 0) (λ _. inv)
      (λ some_back_off. record {
        counted = ground (arith, some_back_off, inv.counted);
        one_sends = inv.one_sends;
      })

run_handler-HandlerInv :
    (h : LatencyHandler) (steps : List HandlerStep)
    → HandlerInv h
    → HandlerInv (run_handler h steps)
unfolding run_handler
run_handler-HandlerInv h [] inv = inv
run_handler-HandlerInv h (e ∷ steps) inv =
    run_handler-HandlerInv (handler_step h e) steps (handler_step-HandlerInv h e inv)

-- However latency messages arrive and responses end, a `LatencyHandler` that starts at rest sends at most
-- one response at a time, and when nobody sends or backs off its counter is back at 0.
pub one_response_at_a_time :
    (steps : List HandlerStep)
    → ((run_handler (record { responses = 0; sending = 0; backing_off = 0 }) steps).sending ≤ 1)
      × ((run_handler (record { responses = 0; sending = 0; backing_off = 0 }) steps).responses
          ≡ (run_handler (record { responses = 0; sending = 0; backing_off = 0 }) steps).sending
            + (run_handler
                (record { responses = 0; sending = 0; backing_off = 0 })
                steps).backing_off)
one_response_at_a_time steps =
    let at_rest : LatencyHandler = record { responses = 0; sending = 0; backing_off = 0 } in
    let inv =
      run_handler-HandlerInv at_rest steps (record { counted = refl; one_sends = omega arith }) in
    (inv.one_sends, inv.counted)
