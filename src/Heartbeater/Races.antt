-- ===== src/Heartbeater/Races.antt =====
-- Heartbeats in all interleavings: what a response answers, and the heartbeat that is lost between the
-- load and the store of `Tx`.
use channel.Base.{ℕ, ◌≤◌, ◌≡◌, ◌≢◌, List, true, length, refl}
use channel.Base.Maps.{nat_eq}
use channel.Message.{Message}
use channel.Heartbeater.{
  has_loaded, Heartbeater, event_capacity, Interval, HeartbeatStep, tells, heartbeat_step,
  run_heartbeats, configure_heartbeat,
}
use channel.Heartbeater.RoundTrip.{taken}
use channel.Heartbeater.Invariant.{
  was_told, IsTaken, tell_tells, run_heartbeats-HeartbeatInv, configure_heartbeat-HeartbeatInv,
}

-- However the goroutines interleave, when `Tx` is about to put a response into a message, it is that to
-- a heartbeat that is not 0 and that the pulse took from its events: the callback was told of it, or the
-- pulse stands between its store and its callback, and tells it with its next step. The queue of events
-- then holds no more than its four places.
pub responses_answer_heartbeats :
    (heartbeat_interval : Interval) (check_interval : ℕ) (messages : ℕ → Message)
    (steps : List HeartbeatStep) (t now v : ℕ)
    → (run_heartbeats (configure_heartbeat heartbeat_interval check_interval messages) steps).stage
        t
      ≡ has_loaded now v
    → (v ≢ 0)
      × IsTaken v
          (run_heartbeats
            (configure_heartbeat heartbeat_interval check_interval messages)
            steps).callbacks
          (run_heartbeats
            (configure_heartbeat heartbeat_interval check_interval messages)
            steps).telling
      × (was_told v
            (heartbeat_step
              (run_heartbeats
                (configure_heartbeat heartbeat_interval check_interval messages)
                steps)
              tells).callbacks
          ≡ true)
      × (length
            (run_heartbeats
              (configure_heartbeat heartbeat_interval check_interval messages)
              steps).events
          ≤ event_capacity)
unfolding heartbeat_step
responses_answer_heartbeats heartbeat_interval check_interval messages steps t now v e =
    let s = configure_heartbeat heartbeat_interval check_interval messages in
    let inv =
      run_heartbeats-HeartbeatInv s steps
        (configure_heartbeat-HeartbeatInv heartbeat_interval check_interval messages) in
    let r = run_heartbeats s steps in
    let (nonzero, taken) = inv.loaded t now v e in
    (nonzero, taken, tell_tells r.telling r v refl taken, inv.bounded)
