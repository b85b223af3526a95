-- ===== src/Latency/Probe.antt =====
-- latency/latency.go: the sendables of a latency probe, its turns, and the goroutine of a Responder.
-- Handler calls are collected in order. `Duration(now - int64(sentTime))` is an int64's bit pattern.
use channel.Base.{ℕ, List, [], ◌∷◌, ◌++◌, Bool, true, false, Option, none, some, if◌then◌else◌}
use channel.Base.Maps.{nat_eq}
use channel.Message.{Message, new_message}
use channel.Message.Headers.{put_uint64_header}
use channel.Message.Keys.{content_type_latency, content_type_latency_response}
use channel.Channel.{ChannelImpl}
use channel.Channel.Binding.{add_receive_handler}
use channel.Latency.{probe_time, time_since, responder_receive, measure, run_probe}

pub data LatencyType : Type 0 where
  round_trip_type before_send_type : LatencyType

pub data HandlerCall : Type 0 where
  handle_latency : LatencyType → ℕ → HandlerCall

-- The sendables: `SendTimeTracker` with its start time and sequence, and `RoundTripLatency`.
pub data ProbeSendable : Type 0 where
  send_time_tracker : ℕ → ℕ → ProbeSendable
  round_trip_latency : Message → ProbeSendable

unfoldable pub set_probe_sequence : ℕ → ProbeSendable → ProbeSendable
set_probe_sequence seq (send_time_tracker start old) = send_time_tracker start seq
set_probe_sequence seq (round_trip_latency m) = round_trip_latency (record m { sequence = seq })

unfoldable pub probe_sequence : ProbeSendable → ℕ
probe_sequence (send_time_tracker start seq) = seq
probe_sequence (round_trip_latency m) = m.sequence

-- `Msg`: a tracker has none, that of its `BaseSendable`.
unfoldable pub probe_msg : ProbeSendable → Option Message
probe_msg (send_time_tracker start seq) = none
probe_msg (round_trip_latency m) = some m

-- `SendTimeTracker.NotifyBeforeWrite`: the call of its handler.
unfoldable pub tracker_before_write : ℕ → ℕ → HandlerCall
unfolding time_since
tracker_before_write now start = handle_latency before_send_type (time_since now start)

-- `RoundTripLatency.NotifyBeforeWrite`: the message is stamped.
unfoldable pub round_trip_before_write : ℕ → Message → Message
unfolding put_uint64_header
round_trip_before_write now m = record m { headers = put_uint64_header probe_time now m.headers }

-- `NotifyBeforeWrite` at the time `now`.
unfoldable pub notify_before_write : ℕ → ProbeSendable → ProbeSendable × List HandlerCall
unfolding tracker_before_write round_trip_before_write
notify_before_write now (send_time_tracker start seq) =
    (send_time_tracker start seq, tracker_before_write now start ∷ [])
notify_before_write now (round_trip_latency m) =
    (round_trip_latency (round_trip_before_write now m), [])

unfoldable pub handle_round_trip : Option ℕ → List HandlerCall
handle_round_trip none = []
handle_round_trip (some latency) = handle_latency round_trip_type latency ∷ []

-- `HandleReceive` of a probe: a response without a time is only logged.
unfoldable pub probe_receive : ℕ → Message → List HandlerCall
unfolding measure handle_round_trip
probe_receive now m = handle_round_trip (measure now m)

unfoldable pub next_sendable : ℕ → Bool → ProbeSendable
unfolding new_message
next_sendable now true = round_trip_latency (new_message content_type_latency [])
next_sendable now false = send_time_tracker now 0

pub record ProbeRun : Type 0 where
  pub count : ℕ
  pub sends : Option ProbeSendable
  pub runs_again : Bool

-- What a turn meets: the channel, the time, and an error of `Send`.
pub record RunAnswers : Type 0 where
  pub closed_before : Bool
  pub now : ℕ
  pub send_fails : Bool
  pub closed_after : Bool

-- `latencyProbe.run`: a turn on a closed channel, or one whose send fails as the channel closes, is the
-- last.
unfoldable pub run_turn : ℕ → RunAnswers → ℕ → ProbeRun
unfolding run_probe next_sendable
run_turn round_trip_freq a count =
    let (next, is_round_trip) = run_probe round_trip_freq count in
    let sent = some (next_sendable a.now is_round_trip) in
    let goes_on : ProbeRun = record { count = next; sends = sent; runs_again = true } in
    let stops : ProbeRun = record {
      count = if is_round_trip then 0 else count;
      sends = sent;
      runs_again = false;
    } in
    if a.closed_before
    then record { count = count; sends = none; runs_again = false }
    else if a.send_fails
    then (if a.closed_after then stops else goes_on)
    else goes_on

-- The registration of `AddLatencyProbe`, of handler `h`, and of `AddLatencyProbeResponder`.
unfoldable pub add_latency_probe : ℕ → ChannelImpl → ChannelImpl
unfolding add_receive_handler
add_latency_probe h c = add_receive_handler content_type_latency_response h c

unfoldable pub add_latency_probe_responder : ℕ → ChannelImpl → ChannelImpl
unfolding add_receive_handler
add_latency_probe_responder h c = add_receive_handler content_type_latency h c

-- A Responder: its channel of one place, what its goroutine has given to `Send`, in order, and whether
-- the goroutine still runs.
pub record Responder : Type 0 where
  pub response_channel : Option Message
  pub sent : List Message
  pub is_running : Bool

pub data ResponderStep : Type 0 where
  receives : Message → ResponderStep  -- `HandleReceive`
  takes : Bool → Bool → ResponderStep  -- the response; `Send` fails; the channel is closed
  ticks : Bool → ResponderStep  -- the channel is closed

-- What is left of the loop's turn once it has taken a response.
abbrev pub send_taken : Option Message → Bool → Bool → Responder → Responder
send_taken none fails closed r = r
send_taken (some m) fails closed r = record {
  response_channel = none;
  sent = r.sent ++ (m ∷ []);
  is_running = if fails then (if closed then false else true) else true;
}

-- A step of `HandleReceive` or of `responseSender`; a case that is not ready changes nothing.
unfoldable pub responder_step : Responder → ResponderStep → Responder
unfolding responder_receive
responder_step r (receives m) = record r {
  response_channel = responder_receive m r.response_channel;
}
responder_step r (takes fails closed) =
    if r.is_running then send_taken r.response_channel fails closed r else r
responder_step r (ticks closed) =
    if r.is_running then (if closed then record r { is_running = false } else r) else r

unfoldable pub run_responder : Responder → List ResponderStep → Responder
run_responder r [] = r
run_responder r (s ∷ ss) = run_responder (responder_step r s) ss
