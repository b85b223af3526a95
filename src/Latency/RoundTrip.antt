-- ===== src/Latency/RoundTrip.antt =====
-- The time of a probe comes back over the wire, from both who answer probes.
use channel.Base.{ℕ, ◌-◌, ◌^◌, ◌<◌, ◌≤◌, ◌≡◌, refl, ap, arith, [], ◌∷◌, true, none, some}
use channel.Base.Bytes.{put_le, get_le-put_le, length-put_le}
use channel.Base.Maps.{lookup, insert, nat_eq}
use channel.Message.{Message, new_message, reply_to}
use channel.Message.Headers.{put_uint64_header, get_uint64_header, put_bool_header}
use channel.Wire.RoundTrip.{received}
use channel.Handshake.{new_result}
use channel.Latency.{
  probe_time, time_since, probe_request, latency_result, queue_response, respond_with,
  responder_receive, measure,
}

time_since-later : (now sent : ℕ) → sent ≤ now → now < 2 ^ 63 → time_since now sent ≡ now - sent
unfolding time_since
time_since-later now sent later small = omega (arith, later, small)

-- A message that carries a time gives the time since.
measure-carried :
    (now sent : ℕ) (m : Message)
    → get_uint64_header probe_time m.headers ≡ (sent, true)
    → sent ≤ now
    → now < 2 ^ 63
    → measure now m ≡ some (now - sent)
unfolding measure
measure-carried now sent m carried later small =
    rw carried (ap (λ (k : ℕ). some k) (time_since-later now sent later small))

-- A probe is answered, over the wire and back, by a `LatencyHandler` and by a `Responder` that has room,
-- so that the prober measures the nanoseconds from its sending to its answer.
pub latency_measured :
    (sent now : ℕ)
    → sent ≤ now
    → now < 2 ^ 63
    → (resp : Message) × (measure now (received (latency_result (received (probe_request sent))))
        ≡ some (now - sent))
      × (responder_receive (received (probe_request sent)) none ≡ some resp)
      × (measure now (received resp) ≡ some (now - sent))
unfolding received probe_request latency_result responder_receive new_message new_result reply_to
    put_uint64_header get_uint64_header put_bool_header respond_with queue_response insert lookup
latency_measured sent now later small =
    let back : get_uint64_header probe_time ((probe_time, put_le 8 sent) ∷ []) ≡ (sent, true) =
      rw (length-put_le 8 sent)
        (ap (λ (k : ℕ). (k, true)) (get_le-put_le 8 sent (omega (arith, later, small)))) in
    (
      record (new_message 4 []) { headers = (probe_time, put_le 8 sent) ∷ [] },
      measure-carried now sent (received (latency_result (received (probe_request sent)))) back
          later small,
      refl,
      measure-carried now sent
          (received (record (new_message 4 []) { headers = (probe_time, put_le 8 sent) ∷ [] })) back
          later small,
    )
