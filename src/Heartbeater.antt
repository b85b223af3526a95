-- ===== src/Heartbeater.antt =====
-- heartbeater.go: heartbeats, as the steps of the goroutines that share them. Goroutine `t` runs `Tx`
-- on the message `messages t`, and its steps are cut at the atomic loads and stores; the pulse goroutine
-- handles events and ticks, and stands still between the store of a heartbeat and its callback. Times are
-- nanoseconds, `uint64` values are bit patterns. The schedule has no step of the pulse once its loop has
-- seen the channel closed.
pub mod Transform
pub mod RoundTrip
pub mod Invariant
pub mod Races
use channel.Base.{
  ℕ, ◌+◌, ◌-◌, ◌==◌, List, [], ◌∷◌, ◌++◌, Bool, true, false, Option, none, some, if◌then◌else◌, ltb,
  length,
}
use channel.Base.Bytes.{Bytes}
use channel.Message.{Headers, Message}
use channel.Message.Headers.{put_uint64_header, get_uint64_header}
use channel.Message.Keys.{heartbeat_header, heartbeat_response_header, content_type_raw}
use channel.Senders.{update}

pub data HeartbeatEvent : Type 0 where
  tx_event rx_event resp_tx_event resp_rx_event : ℕ → HeartbeatEvent
  handle_unresponded : HeartbeatEvent

-- The calls of a `HeartbeatCallback`.
pub data Callback : Type 0 where
  heartbeat_tx heartbeat_rx heartbeat_resp_tx heartbeat_resp_rx : ℕ → Callback
  check_heart_beat : Callback

-- The messages of type heartbeat that are sent: `sendHeartbeat`, `sendHeartbeatIfQueueFree`.
pub data HeartbeatSend : Type 0 where
  heartbeat heartbeat_if_queue_free : HeartbeatSend

-- How far `Tx` is.
pub data TxStage : Type 0 where
  not_transformed : TxStage
  is_due : ℕ → TxStage  -- a heartbeat, at the time that was read
  is_stamped : ℕ → TxStage
  has_loaded : ℕ → ℕ → TxStage  -- the time, and the unresponded heartbeat
  transformed : TxStage

-- A send interval: an int64 of nanoseconds, which may be negative.
pub data Interval : Type 0 where
  nanoseconds : ℕ → Interval
  below_zero : ℕ → Interval

pub record Heartbeater : Type 0 where
  pub last_heartbeat_tx : ℕ
  pub heartbeat_interval_ns : Interval
  pub unresponded_heartbeat : ℕ  -- 0 for none
  pub events : List HeartbeatEvent  -- oldest first
  pub reconfig : Option ℕ
  pub check_interval : ℕ  -- of the ticker
  pub timers : ℕ  -- armed, not fired
  pub telling : Option ℕ  -- a heartbeat that is stored, before `HeartbeatRx`
  pub callbacks : List Callback
  pub sends : List HeartbeatSend
  pub messages : ℕ → Message
  pub stage : ℕ → TxStage

abbrev pub event_capacity : ℕ
event_capacity = 4

-- `queueEvent`: an event for which there is no room is dropped.
unfoldable pub queue_event : HeartbeatEvent → Heartbeater → Heartbeater
queue_event e s =
    if ltb (length s.events) event_capacity then record s { events = s.events ++ (e ∷ []) } else s

-- `now-last > interval`
unfoldable pub has_passed : Interval → ℕ → ℕ → Bool
has_passed (nanoseconds i) last now = ltb (last + i) now
has_passed (below_zero k) last now = ltb last (now + k)

unfoldable pub is_heartbeat_due : ℕ → Heartbeater → Bool
unfolding has_passed
is_heartbeat_due now s = has_passed s.heartbeat_interval_ns s.last_heartbeat_tx now

abbrev pub move : ℕ → TxStage → Heartbeater → Heartbeater
move t p s = record s { stage = update s.stage t p }

unfoldable pub put_header : ℕ → ℕ → ℕ → Heartbeater → Heartbeater
unfolding put_uint64_header
put_header t key value s =
    let m = s.messages t in
    record s {
      messages = update s.messages t (record m { headers = put_uint64_header key value m.headers });
    }

-- `Tx` up to the comparison.
unfoldable pub compare : ℕ → ℕ → Heartbeater → Heartbeater
unfolding is_heartbeat_due
compare now t s =
    if (s.messages t).content_type == content_type_raw
    then move t transformed s
    else if is_heartbeat_due now s
    then move t (is_due now) s
    else move t (is_stamped now) s

-- The body of the first if.
unfoldable pub stamp : ℕ → ℕ → Heartbeater → Heartbeater
unfolding queue_event put_header
stamp now t s =
    let stamped = put_header t heartbeat_header now s in
    queue_event (tx_event now)
      (record (move t (is_stamped now) stamped) { last_heartbeat_tx = now })

unfoldable pub load_unresponded : ℕ → ℕ → Heartbeater → Heartbeater
load_unresponded now t s =
    if s.unresponded_heartbeat == 0
    then move t transformed s
    else move t (has_loaded now s.unresponded_heartbeat) s

-- The body of the second if.
unfoldable pub respond : ℕ → ℕ → ℕ → Heartbeater → Heartbeater
unfolding queue_event put_header
respond now v t s =
    let answered = put_header t heartbeat_response_header v s in
    queue_event (resp_tx_event now)
      (record (move t transformed answered) { unresponded_heartbeat = 0 })

-- The next part of `Tx`, at the time that it reads if it reads it.
unfoldable pub advance : TxStage → ℕ → ℕ → Heartbeater → Heartbeater
unfolding compare stamp load_unresponded respond
advance not_transformed now t s = compare now t s
advance (is_due at_time) now t s = stamp at_time t s
advance (is_stamped at_time) now t s = load_unresponded at_time t s
advance (has_loaded at_time v) now t s = respond at_time v t s
advance transformed now t s = s

-- `handle` of an event; of a heartbeat that came, up to its store.
unfoldable pub handle : HeartbeatEvent → Heartbeater → Heartbeater
handle (tx_event v) s = record s { callbacks = s.callbacks ++ (heartbeat_tx v ∷ []) }
handle (rx_event v) s = record s { unresponded_heartbeat = v; telling = some v }
handle (resp_tx_event v) s = record s { callbacks = s.callbacks ++ (heartbeat_resp_tx v ∷ []) }
handle (resp_rx_event v) s = record s { callbacks = s.callbacks ++ (heartbeat_resp_rx v ∷ []) }
handle handle_unresponded s =
    if s.unresponded_heartbeat == 0
    then s
    else record s { sends = s.sends ++ (heartbeat_if_queue_free ∷ []) }

-- The rest of `handle` of a heartbeat that came: the callback, and the timer.
unfoldable pub tell : Option ℕ → Heartbeater → Heartbeater
tell none s = s
tell (some v) s = record s {
  telling = none;
  callbacks = s.callbacks ++ (heartbeat_rx v ∷ []);
  timers = s.timers + 1;
}

-- The pulse takes a case of its select only where it is not in the middle of `handle`.
abbrev pub when_idle : Option ℕ → Heartbeater → Heartbeater → Heartbeater
when_idle none next s = next
when_idle (some v) next s = s

unfoldable pub handle_next : List HeartbeatEvent → Heartbeater → Heartbeater
unfolding handle
handle_next [] s = s
handle_next (e ∷ rest) s = handle e (record s { events = rest })

-- The first case of the pulse.
unfoldable pub tick : ℕ → Heartbeater → Heartbeater
unfolding is_heartbeat_due
tick now s = record s {
  sends = if is_heartbeat_due now s then s.sends ++ (heartbeat ∷ []) else s.sends;
  callbacks = s.callbacks ++ (check_heart_beat ∷ []);
}

-- The last case of the pulse.
unfoldable pub reconfigure : Option ℕ → Heartbeater → Heartbeater
reconfigure none s = s
reconfigure (some interval) s = record s {
  reconfig = none;
  check_interval = if interval == 0 then s.check_interval else interval;
}

unfoldable pub fire_timer : Heartbeater → Heartbeater
unfolding queue_event
fire_timer s =
    if s.timers == 0 then s else queue_event handle_unresponded (record s { timers = s.timers - 1 })

unfoldable pub queue_if : Bool → HeartbeatEvent → Heartbeater → Heartbeater
unfolding queue_event
queue_if found e s = if found then queue_event e s else s

-- `Rx`
unfoldable pub rx_heartbeat : Headers → Heartbeater → Heartbeater
unfolding queue_if get_uint64_header
rx_heartbeat h s =
    let (val, found) = get_uint64_header heartbeat_header h in
    let (resp_val, resp_found) = get_uint64_header heartbeat_response_header h in
    queue_if resp_found (resp_rx_event resp_val) (queue_if found (rx_event val) s)

-- `UpdateIntervals`: the latest request replaces one that the pulse has not taken.
unfoldable pub update_intervals : Interval → ℕ → Heartbeater → Heartbeater
update_intervals send_interval check_interval s = record s {
  heartbeat_interval_ns = send_interval;
  reconfig = some check_interval;
}

pub data HeartbeatStep : Type 0 where
  transforms : ℕ → ℕ → HeartbeatStep  -- at a time, a goroutine
  arrives : Headers → HeartbeatStep
  handles tells fires retunes : HeartbeatStep
  ticks : ℕ → HeartbeatStep
  updates : Interval → ℕ → HeartbeatStep

unfoldable pub heartbeat_step : Heartbeater → HeartbeatStep → Heartbeater
unfolding advance rx_heartbeat handle_next tell fire_timer reconfigure tick update_intervals
heartbeat_step s (transforms now t) = advance (s.stage t) now t s
heartbeat_step s (arrives h) = rx_heartbeat h s
heartbeat_step s handles = when_idle s.telling (handle_next s.events s) s
heartbeat_step s tells = tell s.telling s
heartbeat_step s fires = fire_timer s
heartbeat_step s retunes = when_idle s.telling (reconfigure s.reconfig s) s
heartbeat_step s (ticks now) = when_idle s.telling (tick now s) s
heartbeat_step s (updates send_interval check_interval) =
    update_intervals send_interval check_interval s

unfoldable pub run_heartbeats : Heartbeater → List HeartbeatStep → Heartbeater
run_heartbeats s [] = s
run_heartbeats s (e ∷ es) = run_heartbeats (heartbeat_step s e) es

-- All of `Tx`, when nothing happens in between.
unfoldable pub tx_steps : ℕ → ℕ → List HeartbeatStep
tx_steps now t = transforms now t ∷ transforms now t ∷ transforms now t ∷ transforms now t ∷ []

-- `ConfigureHeartbeat`
unfoldable pub configure_heartbeat : Interval → ℕ → (ℕ → Message) → Heartbeater
configure_heartbeat heartbeat_interval check_interval messages = record {
  last_heartbeat_tx = 0;
  heartbeat_interval_ns = heartbeat_interval;
  unresponded_heartbeat = 0;
  events = [];
  reconfig = none;
  check_interval = check_interval;
  timers = 0;
  telling = none;
  callbacks = [];
  sends = [];
  messages = messages;
  stage = λ t. not_transformed;
}
