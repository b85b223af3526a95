-- ===== src/Tests/Latency.antt =====
-- latency/latency.go: a probe of 30 nanoseconds, and a probing loop that ends.
use channel.Base.{◌≡◌, refl, arith, List, [], ◌∷◌, true, false, none, some}
use channel.Message.{Message}
use channel.Wire.RoundTrip.{received}
use channel.Latency.{
  probe_request, latency_result, responder_receive, measure, ProbeTurn, unanswered, probe_latency,
  timeout_handled, exit_handled,
}
use channel.Latency.RoundTrip.{latency_measured}

latency_measured_example :
    (resp : Message) × (measure 130 (received (latency_result (received (probe_request 100))))
      ≡ some 30)
    × (responder_receive (received (probe_request 100)) none ≡ some resp)
    × (measure 130 (received resp) ≡ some 30)
latency_measured_example = latency_measured 100 130 (omega arith) (omega arith)

-- A timeout, and an error after which the channel has closed.
abbrev turns : List ProbeTurn
turns =
    record { closed_before = false; answer = unanswered true; closed_after = false }
    ∷ record { closed_before = false; answer = unanswered false; closed_after = true }
    ∷ []

probing_ends : probe_latency turns ≡ timeout_handled ∷ exit_handled ∷ []
unfolding probe_latency
probing_ends = refl
