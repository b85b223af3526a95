-- ===== src/Latency.antt =====
-- latency/latency.go: latency probes, those who answer them, and what the prober measures. Times are
-- nanoseconds; a difference is an int64, kept as its bit pattern.
pub mod RoundTrip
pub mod Responses
pub mod Frequency
pub mod Probe
pub mod Answered
use channel.Base.{
  ℕ, zero, suc, ◌+◌, ◌-◌, ◌%◌, ◌^◌, ◌==◌, List, [], ◌∷◌, ◌++◌, Bool, true, false, Option, none,
  some, if◌then◌else◌, ltb,
}
use channel.Base.Bytes.{Bytes}
use channel.Base.Maps.{Map, lookup, insert, nat_eq}
use channel.Message.{Headers, Message, new_message, reflected_header, reply_to}
use channel.Message.Headers.{put_uint64_header, get_uint64_header}
use channel.Message.Keys.{content_type_latency, content_type_latency_response}
use channel.Handshake.{new_result}

abbrev pub probe_time : ℕ
probe_time = reflected_header

-- `now - int64(sentTime)`
unfoldable pub time_since : ℕ → ℕ → ℕ
time_since now sent_time = ((now + 2 ^ 64) - sent_time) % 2 ^ 64

-- The request of `ProbeLatencyConfigurable`, and the message of a `RoundTripLatency` as it is written.
unfoldable pub probe_request : ℕ → Message
unfolding new_message put_uint64_header
probe_request now =
    let request = new_message content_type_latency [] in
    record request { headers = put_uint64_header probe_time now request.headers }

-- The response of a `LatencyHandler`.
unfoldable pub latency_result : Message → Message
unfolding new_result reply_to
latency_result msg = reply_to (new_result true []) msg

unfoldable pub queue_response : Message → Option Message → Option Message
queue_response resp none = some resp
queue_response resp (some waiting) = some waiting

unfoldable pub respond_with : Option Bytes → Option Message → Option Message
unfolding queue_response new_message insert
respond_with none response_channel = response_channel
respond_with (some sent_time) response_channel =
    let resp = new_message content_type_latency_response [] in
    queue_response (record resp { headers = insert probe_time sent_time resp.headers })
      response_channel

-- `Responder.HandleReceive`, on its channel of one place.
unfoldable pub responder_receive : Message → Option Message → Option Message
unfolding respond_with lookup
responder_receive msg response_channel =
    respond_with (lookup probe_time msg.headers) response_channel

-- What a prober measures by a response: none where it carries no time.
unfoldable pub measure : ℕ → Message → Option ℕ
unfolding get_uint64_header time_since
measure now response =
    let (sent_time, found) = get_uint64_header probe_time response.headers in
    if found then some (time_since now sent_time) else none

-- What a turn of `ProbeLatencyConfigurable` meets: the answer comes at a time, or an error that may be
-- a timeout, and the channel may have closed.
pub data ProbeAnswer : Type 0 where
  answered : Message → ℕ → ProbeAnswer
  unanswered : Bool → ProbeAnswer

pub record ProbeTurn : Type 0 where
  pub closed_before : Bool
  pub answer : ProbeAnswer
  pub closed_after : Bool

-- The calls of the handlers of a `ProbeConfig`; `probing` is that the loop goes on.
pub data ProbeCall : Type 0 where
  result_handled : ℕ → ProbeCall
  timeout_handled exit_handled probing : ProbeCall

unfoldable pub handle_result : Option ℕ → List ProbeCall
handle_result none = []
handle_result (some latency) = result_handled latency ∷ []

-- After the probe: what is called, and whether the loop goes on.
unfoldable pub after_probe : ProbeAnswer → Bool → List ProbeCall × Bool
unfolding handle_result measure
after_probe (answered response now) closed = (handle_result (measure now response), true)
after_probe (unanswered is_timeout) closed =
    if closed then ([], false) else if is_timeout then (timeout_handled ∷ [], true) else ([], true)

-- `ProbeLatencyConfigurable`, with all its handlers set.
unfoldable pub probe_latency : List ProbeTurn → List ProbeCall
unfolding after_probe
probe_latency [] = probing ∷ []
probe_latency (turn ∷ turns) =
    let (calls, goes_on) = after_probe turn.answer turn.closed_after in
    let rest = probe_latency turns in
    if turn.closed_before
    then exit_handled ∷ []
    else if goes_on
    then calls ++ rest
    else calls ++ (exit_handled ∷ [])

-- `LatencyHandler`: its counter, an int32 far from its bound, the goroutines that send a response, and
-- the receivers that have counted themselves but not yet uncounted.
pub record LatencyHandler : Type 0 where
  pub responses : ℕ
  pub sending : ℕ
  pub backing_off : ℕ

pub data HandlerStep : Type 0 where
  receives finishes backs_off : HandlerStep

unfoldable pub handler_step : LatencyHandler → HandlerStep → LatencyHandler
handler_step h receives =
    let count = h.responses + 1 in
    if ltb count 2
    then record h { responses = count; sending = h.sending + 1 }
    else record h { responses = count; backing_off = h.backing_off + 1 }
handler_step h finishes =
    if h.sending == 0 then h else record h { responses = h.responses - 1; sending = h.sending - 1 }
handler_step h backs_off =
    if h.backing_off == 0
    then h
    else record h { responses = h.responses - 1; backing_off = h.backing_off - 1 }

unfoldable pub run_handler : LatencyHandler → List HandlerStep → LatencyHandler
run_handler h [] = h
run_handler h (e ∷ es) = run_handler (handler_step h e) es

-- `latencyProbe.run` on an open channel: the next count, a uint8, and whether the probe is a
-- `RoundTripLatency`.
unfoldable pub run_probe : ℕ → ℕ → ℕ × Bool
run_probe round_trip_freq count =
    if count == round_trip_freq then (1, true) else ((count + 1) % 256, false)

-- The kinds of the next probes.
unfoldable pub probe_kinds : ℕ → ℕ → ℕ → List Bool
unfolding run_probe
probe_kinds round_trip_freq zero count = []
probe_kinds round_trip_freq (suc n) count =
    let r = run_probe round_trip_freq count in r.1 ∷ probe_kinds round_trip_freq n r.0
