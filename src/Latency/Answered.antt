-- ===== src/Latency/Answered.antt =====
-- What a Responder sends, and what a probe writes.
use channel.Base.{
  ℕ, ◌≡◌, refl, sym, subst, arith, List, [], ◌∷◌, ◌++◌, Bool, true, false, Option, none, some,
  append_assoc, Option-cases, if-keeps, inl, inr,
}
use mathlib.Core.List.{Sublist, sublist-append_left}
use mathlib.Core.List.Sublist
use channel.Base.Maps.{lookup, insert, nat_eq}
use channel.Message.{Message, new_message}
use channel.Latency.{probe_time, probe_request, queue_response, respond_with, responder_receive}
use channel.Latency.Probe.{
  next_sendable, notify_before_write, round_trip_before_write, probe_msg, set_probe_sequence,
  Responder, ResponderStep, receives, takes, ticks, responder_step, run_responder, send_taken,
}

abbrev to_list {ℓ} : {A : Type ℓ} → Option A → List A
to_list none = []
to_list (some a) = a ∷ []

-- The response that a step asks for.
unfoldable pub response_to : ResponderStep → Option Message
unfolding responder_receive
response_to (receives m) = responder_receive m none
response_to (takes fails closed) = none
response_to (ticks closed) = none

-- The responses that the probes among the steps ask for, those without a time for none.
unfoldable pub responses : List ResponderStep → List Message
unfolding response_to
responses [] = []
responses (s ∷ steps) = to_list (response_to s) ++ responses steps

-- What was sent, waits, and is still to come.
abbrev all_of : Responder → List Message → List Message
all_of r later = r.sent ++ (to_list r.response_channel ++ later)

-- A response for which there is no room is dropped.
queued-Sublist :
    (response : Message) (pending : Option Message) (later : List Message)
    → Sublist
        (to_list (queue_response response pending) ++ later)
        (to_list pending ++ (response ∷ later))
unfolding queue_response
queued-Sublist response none later = Sublist.refl (response ∷ later)
queued-Sublist response (some waiting) later =
    Sublist.cons-cons waiting (Sublist.cons response (Sublist.refl later))

received-Sublist :
    (m : Message) (pending : Option Message) (later : List Message)
    → Sublist
        (to_list (responder_receive m pending) ++ later)
        (to_list pending ++ (to_list (responder_receive m none) ++ later))
unfolding responder_receive respond_with queue_response
received-Sublist m pending later = elim (Option-cases (lookup probe_time m.headers)) [
  | inl nothing ↦ rw nothing (Sublist.refl (to_list pending ++ later))
  | inr (sent_time, found) ↦
      let resp = new_message 4 [] in
      rw found (
        queued-Sublist (record resp { headers = insert probe_time sent_time resp.headers }) pending
          later)
]

taken-Sublist :
    (r : Responder) (o : Option Message) (fails closed : Bool) (later : List Message)
    → o ≡ r.response_channel
    → Sublist (all_of (send_taken o fails closed r) later) (all_of r later)
taken-Sublist r none fails closed later e = Sublist.refl (all_of r later)
taken-Sublist r (some m) fails closed later e = rw (sym e) (
    subst (λ (l : List Message). Sublist l (r.sent ++ (m ∷ later)))
      (sym (append_assoc r.sent (m ∷ []) later)) (Sublist.refl (r.sent ++ (m ∷ later))))

step-Sublist :
    (r : Responder) (s : ResponderStep) (later : List Message)
    → Sublist (all_of (responder_step r s) later) (all_of r (to_list (response_to s) ++ later))
unfolding responder_step response_to
step-Sublist r (receives m) later =
    Sublist.append (Sublist.refl r.sent) (received-Sublist m r.response_channel later)
step-Sublist r (takes fails closed) later =
    if-keeps (λ (x : Responder). Sublist (all_of x later) (all_of r later)) r.is_running
      (λ _. taken-Sublist r r.response_channel fails closed later refl)
      (λ _. Sublist.refl (all_of r later))
step-Sublist r (ticks closed) later =
    if-keeps (λ (x : Responder). Sublist (all_of x later) (all_of r later)) r.is_running
      (λ _.
        if-keeps (λ (x : Responder). Sublist (all_of x later) (all_of r later)) closed
          (λ _. Sublist.refl (all_of r later)) (λ _. Sublist.refl (all_of r later)))
      (λ _. Sublist.refl (all_of r later))

-- What the steps send comes, in order, from what was sent, waits and is asked for.
run-Sublist :
    (r : Responder) (steps : List ResponderStep)
    → Sublist (run_responder r steps).sent (all_of r (responses steps))
unfolding run_responder responses
run-Sublist r [] = sublist-append_left r.sent (to_list r.response_channel ++ [])
run-Sublist r (s ∷ steps) =
    Sublist.trans (run-Sublist (responder_step r s) steps) (step-Sublist r s (responses steps))

-- A responder sends, in the order of the probes and each once at most, only the responses that they ask for.
pub answers_in_order :
    (steps : List ResponderStep)
    → Sublist
        (run_responder
          (record { response_channel = none; sent = []; is_running = true })
          steps).sent
        (responses steps)
answers_in_order steps =
    run-Sublist (record { response_channel = none; sent = []; is_running = true }) steps

-- A message that a round-trip probe writes is the probe request of the time at which it is written, not
-- of the time at which it was queued, with the sequence it was given.
pub round_trip_written :
    (queued_at now seq : ℕ)
    → probe_msg (notify_before_write now (set_probe_sequence seq (next_sendable queued_at true))).0
      ≡ some (record (probe_request now) { sequence = seq })
unfolding probe_msg notify_before_write round_trip_before_write set_probe_sequence next_sendable
    probe_request new_message
round_trip_written queued_at now seq = refl

step-ended :
    (r : Responder) (s : ResponderStep)
    → r.is_running ≡ false
    → (responder_step r s).is_running ≡ false
unfolding responder_step
step-ended r (receives m) ended = ended
step-ended r (takes fails closed) ended = rw ended refl
step-ended r (ticks closed) ended = rw ended refl

run-ended :
    (r : Responder) (steps : List ResponderStep)
    → r.is_running ≡ false
    → (run_responder r steps).is_running ≡ false
unfolding run_responder
run-ended r [] ended = ended
run-ended r (s ∷ steps) ended = run-ended (responder_step r s) steps (step-ended r s ended)

-- The goroutine of a responder ends with the first tick at which the channel is closed.
pub closed_tick_ends :
    (r : Responder) (steps : List ResponderStep)
    → (run_responder r (ticks true ∷ steps)).is_running ≡ false
unfolding run_responder responder_step
closed_tick_ends r steps = run-ended (responder_step r (ticks true)) steps (ground arith)
