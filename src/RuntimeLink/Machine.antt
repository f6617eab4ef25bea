-- ===== src/RuntimeLink/Machine.antt =====
-- kei/runtime_link.py: the state of `Link`, its transitions, and the handlers of what the child says
-- and does. Each handler holds the lock, so it is one step. The sinks are called in tasks of their own,
-- and the fields of a lifecycle event that never change are left out: the id of the SDK and the declared
-- harness, taken to be valid, as `normalize_config` leaves it for an enabled link. `LinkEvent` raises for
-- others, such as an empty kind of harness, and so does then every transition.
pub mod Supervisor
pub mod Invariant
use agentware.Prelude.{
  ℕ, zero, suc, ◌-◌, String, Bool, true, false, not, ◌&&◌, ◌||◌, Option, none, some, List, [], ◌∷◌,
  ◌++◌, length, drop, ltb, leb, ◌==◌, if◌then◌else◌,
}
use agentware.RuntimeLink.{
  LinkState, disabled, starting, connected, degraded, reconnecting, terminal, stopped, FailureClass,
  config_invalid, runtime_unavailable, runtime_crashloop, runtime_unresponsive, contract_mismatch,
  catalog_unreachable, catalog_timeout, catalog_error, catalog_backpressure,
  installation_unauthorized, installation_stale, LifecycleEventName, link_started, link_connected,
  link_degraded, link_reconnecting, link_terminal, link_stopped, BeatOutcome, ok_beat, unreachable,
  timeout, error, backpressure, rejected, unauthorized, RuntimeIdentity, BeatEvent, TerminalEvent,
}

pub record LinkEvent : Type 0 where
  pub name : LifecycleEventName
  pub at : ℕ
  pub state : LinkState
  pub reason : Option FailureClass
  pub run_id : String
  pub seq : ℕ
  pub restarts : ℕ
  pub consecutive_fails : ℕ

pub record Link : Type 0 where
  pub state : LinkState
  pub reason : Option FailureClass
  pub last_beat : Option ℕ
  pub last_ok : Option ℕ
  pub fails : ℕ
  pub restarts : ℕ
  pub run_id : String
  pub identity : Option RuntimeIdentity
  pub crash_times : List ℕ
  pub events : List LinkEvent

abbrev pub event_buffer_size : ℕ
event_buffer_size = 64

abbrev pub crashloop_threshold : ℕ
crashloop_threshold = 5

abbrev pub crashloop_window : ℕ
crashloop_window = 900000

abbrev pub new_link : Link
new_link = record {
  state = disabled;
  reason = none;
  last_beat = none;
  last_ok = none;
  fails = 0;
  restarts = 0;
  run_id = "";
  identity = none;
  crash_times = [];
  events = [];
}

-- the event of a transition into a state
abbrev pub event_name : LinkState → Option LifecycleEventName
event_name disabled = none
event_name starting = some link_started
event_name connected = some link_connected
event_name degraded = some link_degraded
event_name reconnecting = some link_reconnecting
event_name terminal = some link_terminal
event_name stopped = some link_stopped

-- `put_nowait`, which drops the oldest event of a full queue
unfoldable pub put_event : LinkEvent → List LinkEvent → List LinkEvent
put_event e events =
    if ltb (length events) event_buffer_size then events ++ e ∷ [] else drop 1 events ++ e ∷ []

unfoldable pub emit_lifecycle_event : ℕ → LifecycleEventName → LinkState → Link → Link
unfolding put_event
emit_lifecycle_event now name state l = record l {
  events =
      put_event
        (record {
          name = name;
          at = now;
          state = state;
          reason = l.reason;
          run_id = l.run_id;
          seq = now;
          restarts = l.restarts;
          consecutive_fails = l.fails;
        })
        l.events;
}

abbrev pub emit_if : ℕ → Option LifecycleEventName → LinkState → Link → Link
emit_if now none state l = l
emit_if now (some name) state l = emit_lifecycle_event now name state l

unfoldable pub transition : ℕ → LinkState → Option FailureClass → Link → Link
unfolding emit_lifecycle_event
transition now state reason l =
    emit_if now (event_name state) state (record l { state = state; reason = reason })

abbrev pub is_starting : LinkState → Bool
is_starting starting = true
is_starting _ = false

abbrev pub is_connected : LinkState → Bool
is_connected connected = true
is_connected _ = false

-- a state that a beat leads back to `connected`
abbrev pub is_recovering : LinkState → Bool
is_recovering degraded = true
is_recovering reconnecting = true
is_recovering _ = false

abbrev pub is_terminal : LinkState → Bool
is_terminal terminal = true
is_terminal _ = false

unfoldable pub handle_identity : ℕ → RuntimeIdentity → (dropped_agents : ℕ) → Link → Link
unfolding transition
handle_identity now identity dropped l =
    transition now (if is_starting l.state then connected else degraded) none
      (record l { identity = some identity; run_id = identity.run_id; fails = dropped })

unfoldable pub classify_beat_outcome : BeatOutcome → FailureClass
classify_beat_outcome unreachable = catalog_unreachable
classify_beat_outcome timeout = catalog_timeout
classify_beat_outcome error = catalog_error
classify_beat_outcome backpressure = catalog_backpressure
classify_beat_outcome rejected = contract_mismatch
classify_beat_outcome _ = runtime_unavailable

abbrev pub beat_failed : ℕ → BeatOutcome → Link → Link
beat_failed now outcome l =
    let failing = record l { fails = suc l.fails } in
    if is_connected l.state
    then transition now degraded (some (classify_beat_outcome outcome)) failing
    else failing

abbrev pub beat_ok : ℕ → ℕ → Link → Link
beat_ok now seen_at l =
    let healthy = record l { last_ok = some seen_at; fails = 0 } in
    if is_recovering l.state then transition now connected none healthy else healthy

abbrev pub by_outcome : ℕ → ℕ → BeatOutcome → Link → Link
by_outcome now seen_at ok_beat l = beat_ok now seen_at l
by_outcome now seen_at unauthorized l = transition now terminal (some installation_unauthorized) l
by_outcome now seen_at outcome l = beat_failed now outcome l

-- The clock is read for the beat, and again for the event of a transition.
unfoldable pub handle_beat : ℕ → (seen_at : ℕ) → BeatEvent → Link → Link
unfolding transition classify_beat_outcome
handle_beat now seen_at beat l = by_outcome now seen_at beat.outcome (record l {
  last_beat = some seen_at;
  run_id = if beat.run_id == "" then l.run_id else beat.run_id;
})

abbrev pub terminal_class : String → FailureClass
terminal_class reason =
    if reason == "unauthorized"
    then installation_unauthorized
    else if reason == "contract"
    then contract_mismatch
    else if reason == "config"
    then config_invalid
    else if reason == "stale"
    then installation_stale
    else runtime_unavailable

unfoldable pub handle_terminal : ℕ → TerminalEvent → Link → Link
unfolding transition
handle_terminal now event l = transition now terminal (some (terminal_class event.reason)) l

-- A line that the parser refuses only counts.
abbrev pub drop_line : Link → Link
drop_line l = record l { fails = suc l.fails }

-- A negative code, of a child that was killed, is `none`.
abbrev pub exit_code_failure_class : Option ℕ → Option FailureClass × Bool
exit_code_failure_class none = (some runtime_unavailable, false)
exit_code_failure_class (some zero) = (none, false)
exit_code_failure_class (some (suc zero)) = (some runtime_unavailable, false)
exit_code_failure_class (some (suc (suc zero))) = (some contract_mismatch, true)
exit_code_failure_class (some (suc (suc (suc zero)))) = (some installation_unauthorized, true)
exit_code_failure_class (some (suc (suc (suc (suc n))))) = (some config_invalid, true)

-- `exit_code == 0`
abbrev pub is_clean : Option ℕ → Bool
is_clean (some zero) = true
is_clean _ = false

-- the link after the exit, and whether it is over
unfoldable pub handle_child_exit : ℕ → Option ℕ → Link → Bool × Link
unfolding transition
handle_child_exit now code l =
    let (failure, over) = exit_code_failure_class code in
    if over
    then (true, transition now terminal failure l)
    else if is_clean code
    then (false, l)
    else (false, record l { restarts = suc l.restarts })

abbrev pub last_of : ℕ → List ℕ → ℕ
last_of t [] = t
last_of t (u ∷ us) = last_of u us

abbrev pub within_window : List ℕ → Bool
within_window [] = false
within_window (t ∷ ts) = leb (last_of t ts - t) crashloop_window

unfoldable pub is_crashloop : List ℕ → Bool
is_crashloop times = not (ltb (length times) crashloop_threshold) && within_window times

-- `append`, and `pop(0)` where the list is too long
abbrev pub push_crash : ℕ → List ℕ → List ℕ
push_crash now times =
    let grown = times ++ now ∷ [] in
    if ltb crashloop_threshold (length grown) then drop 1 grown else grown

-- What the supervisor does with an error that is not terminal: the link, and whether it is over.
unfoldable pub transient_error : ℕ → Link → Bool × Link
unfolding transition is_crashloop
transient_error now l =
    let times = push_crash now l.crash_times in
    let failing = record l { restarts = suc l.restarts; crash_times = times } in
    if is_crashloop times
    then (true, transition now terminal (some runtime_crashloop) failing)
    else (false, transition now reconnecting none failing)

-- before the wait for the backoff
unfoldable pub begin_round : ℕ → Link → Link
unfolding transition
begin_round now l = if ltb 0 l.restarts then transition now reconnecting none l else l

unfoldable pub stop_link : ℕ → Link → Link
unfolding transition
stop_link now l = if is_terminal l.state then l else transition now stopped none l

abbrev pub with_reason : FailureClass → Link → Link
with_reason failure l = record l { reason = some failure }
