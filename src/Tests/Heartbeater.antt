-- ===== src/Tests/Heartbeater.antt =====
-- heartbeater.go: a heartbeat sent at 100 with an interval of 10, and one that is overtaken.
use channel.Base.{ℕ, ◌≡◌, ◌≢◌, ◌≤◌, refl, arith, List, [], ◌∷◌, ◌++◌, true, length}
use channel.Base.Bytes.{put_le, get_le}
use channel.Message.{Message, new_message}
use channel.Message.Headers.{get_uint64_header}
use channel.Message.Keys.{heartbeat_header}
use channel.Heartbeater.{
  HeartbeatEvent, rx_event, resp_rx_event, heartbeat_rx, has_loaded, Heartbeater, event_capacity,
  is_heartbeat_due, advance, handle, tell, handle_next, queue_event, rx_heartbeat, HeartbeatStep,
  transforms, arrives, handles, tells, nanoseconds, has_passed, heartbeat_step, run_heartbeats,
  tx_steps, configure_heartbeat,
}
use channel.Heartbeater.RoundTrip.{heartbeat_comes_back}
use channel.Heartbeater.Invariant.{was_told, IsTaken}
use channel.Heartbeater.Races.{responses_answer_heartbeats}

abbrev plain : ℕ → Message
plain t = new_message 1000 []

abbrev side : Heartbeater
side = configure_heartbeat (nanoseconds 10) 5 plain

heartbeat_comes_back_example :
    (front : List HeartbeatEvent) × (get_uint64_header heartbeat_header
        ((run_heartbeats side (tx_steps 100 3)).messages 3).headers
      ≡ (100, true))
    × ((run_heartbeats side (
          arrives ((run_heartbeats side (tx_steps 100 3)).messages 3).headers
          ∷ handles
          ∷ tells
          ∷ [])).callbacks
        ≡ heartbeat_rx 100 ∷ [])
    × ((rx_heartbeat
          ((run_heartbeats side (
              arrives ((run_heartbeats side (tx_steps 100 3)).messages 3).headers
              ∷ handles
              ∷ tells
              ∷ tx_steps 104 8)).messages
            8).headers
          side).events
        ≡ front ++ (resp_rx_event 100 ∷ []))
unfolding configure_heartbeat new_message is_heartbeat_due
heartbeat_comes_back_example =
    heartbeat_comes_back side side side 3 8 100 104 refl refl refl refl refl refl refl (omega arith)
      (omega arith) (omega arith)

-- A heartbeat of 70 came and was loaded by goroutine 3, at 105.
abbrev before_load : List HeartbeatStep
before_load =
    arrives ((run_heartbeats side (tx_steps 70 9)).messages 9).headers
    ∷ handles
    ∷ tells
    ∷ transforms 105 3
    ∷ transforms 105 3
    ∷ transforms 105 3
    ∷ []

abbrev loaded_state : Heartbeater
loaded_state = run_heartbeats side before_load

loaded_stage : loaded_state.stage 3 ≡ has_loaded 105 70
unfolding run_heartbeats heartbeat_step rx_heartbeat advance handle_next queue_event
    is_heartbeat_due has_passed tx_steps configure_heartbeat new_message get_uint64_header put_le
    get_le handle tell
loaded_stage = refl

responses_answer_heartbeats_example :
    (◌≢◌ {A = ℕ} 70 0)
    × IsTaken 70 loaded_state.callbacks loaded_state.telling
    × (was_told 70 (heartbeat_step loaded_state tells).callbacks ≡ true)
    × (length loaded_state.events ≤ event_capacity)
responses_answer_heartbeats_example =
    responses_answer_heartbeats (nanoseconds 10) 5 plain before_load 3 105 70 loaded_stage

-- Another heartbeat is taken before goroutine 3 stores its 0.
abbrev overtaken : Heartbeater
overtaken = record loaded_state { events = rx_event 80 ∷ [] }
