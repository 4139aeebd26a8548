-- ===== src/Heartbeat.antt =====
-- basic/message/client.go and basic/constant/heartbeat.go: the client's heartbeat.
pub mod Beating
pub mod Losing
use proto_q.Prelude.{
  ℕ, ◌+◌, ◌*◌, Bool, true, false, Option, none, some, List, [], ◌∷◌, leb, if◌then◌else◌,
}

-- The times are in nanoseconds.
abbrev pub heartbeat_interval : ℕ
heartbeat_interval = 30 * 1000000000

abbrev pub heartbeat_timeout : ℕ
heartbeat_timeout = 5 * 1000000000

abbrev pub heartbeat_max_missed : ℕ
heartbeat_max_missed = 3

-- `HeartbeatLoopConfig`; `on_lost` says whether there is a callback.
pub record HeartbeatLoopConfig : Type 0 where
  pub interval : ℕ
  pub timeout : ℕ
  pub max_missed : ℕ
  pub on_lost : Bool

unfoldable pub default_heartbeat_loop_config : HeartbeatLoopConfig
default_heartbeat_loop_config = record {
  interval = heartbeat_interval;
  timeout = heartbeat_timeout;
  max_missed = heartbeat_max_missed;
  on_lost = false;
}

-- A tick of `StartHeartbeat` with a request that succeeded or not: the misses, none once the
-- connection counts as lost.
unfoldable pub beat : ℕ → Bool → ℕ → Option ℕ
beat max_missed true missed = some 0
beat max_missed false missed = if leb max_missed (missed + 1) then none else some (missed + 1)

unfoldable pub beats : ℕ → List Bool → ℕ → Option ℕ
unfolding beat
beats max_missed [] missed = some missed
beats max_missed (ok ∷ oks) missed = elim (beat max_missed ok missed) [
  | none ↦ none
  | some missed' ↦ beats max_missed oks missed'
]

-- What the loop of `StartHeartbeat` sees: a tick of its ticker, with whether `SendRequest` of the
-- heartbeat succeeds; or the call of the function that `StartHeartbeat` returned, which sets a flag
-- and cancels the context, while `SendRequest` waits or while the loop does.
pub data HeartbeatEvent : Type 0 where
  tick : Bool → HeartbeatEvent
  tick_stopped : Bool → HeartbeatEvent
  stop_called : HeartbeatEvent

-- How the loop goes: it waits with so many misses, it was stopped, or the connection is lost, when
-- it calls the callback or, without one, closes the client.
pub data HeartbeatLoop : Type 0 where
  beating : ℕ → HeartbeatLoop
  stopped : HeartbeatLoop
  called_on_lost : HeartbeatLoop
  closed_client : HeartbeatLoop

abbrev pub lost : HeartbeatLoopConfig → HeartbeatLoop
lost cfg = if cfg.on_lost then called_on_lost else closed_client

abbrev pub after_beat : HeartbeatLoopConfig → Option ℕ → HeartbeatLoop
after_beat cfg none = lost cfg
after_beat cfg (some missed) = beating missed

-- The loop, unless it has ended, sees that the context is done.
abbrev pub then_stopped : HeartbeatLoop → HeartbeatLoop
then_stopped (beating missed) = stopped
then_stopped loop = loop

abbrev pub heartbeat_step : HeartbeatLoopConfig → HeartbeatEvent → HeartbeatLoop → HeartbeatLoop
heartbeat_step cfg (tick answered) (beating missed) =
    after_beat cfg (beat cfg.max_missed answered missed)
heartbeat_step cfg (tick_stopped answered) (beating missed) =
    then_stopped (after_beat cfg (beat cfg.max_missed answered missed))
heartbeat_step cfg stop_called (beating missed) = stopped
heartbeat_step cfg event loop = loop

-- No configuration is the default one.
abbrev pub config_of : Option HeartbeatLoopConfig → HeartbeatLoopConfig
config_of none = default_heartbeat_loop_config
config_of (some cfg) = cfg

unfoldable pub run_heartbeat :
    HeartbeatLoopConfig → List HeartbeatEvent → HeartbeatLoop → HeartbeatLoop
unfolding beat
run_heartbeat cfg [] loop = loop
run_heartbeat cfg (event ∷ events) loop = run_heartbeat cfg events (heartbeat_step cfg event loop)

unfoldable pub start_heartbeat : Option HeartbeatLoopConfig → List HeartbeatEvent → HeartbeatLoop
unfolding run_heartbeat default_heartbeat_loop_config
start_heartbeat cfg events = run_heartbeat (config_of cfg) events (beating 0)
