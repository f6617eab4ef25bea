-- ===== src/RuntimeLink/Machine/Supervisor.antt =====
-- kei/runtime_link.py: `start`, `stop` and `_supervise` as steps, which the child, the clock, the caller
-- and the reader of the events may put in any order.
use agentware.Prelude.{ℕ, Bool, true, false, Option, none, ◌≡◌, drop}
use agentware.RuntimeLink.{
  RuntimeIdentity, BeatEvent, TerminalEvent, starting, runtime_unavailable, runtime_unresponsive,
  link_started,
}
use agentware.RuntimeLink.Machine.{
  Link, new_link, transition, emit_lifecycle_event, handle_identity, handle_beat, handle_terminal,
  handle_child_exit, drop_line, transient_error, begin_round, stop_link, with_reason,
}

-- Where the supervisor stands: not started; started and disabled; at the top of its loop; while it
-- waits for the backoff; while the child is spawned; while it is watched; while a child that was killed
-- is waited for; returned; or stopped.
pub data Phase : Type 0 where
  idle passive round waiting spawning watching dying finished halted : Phase

abbrev pub Supervisor : Type 0
Supervisor = Phase × Link

abbrev pub after : Bool × Link → Supervisor
after (true, l) = (finished, l)
after (false, l) = (round, l)

-- A supervisor that was started and not stopped.
abbrev pub IsStarted : Phase → Type 0
IsStarted idle = ⊥
IsStarted halted = ⊥
IsStarted _ = Unit

-- `enabled` is that of the configuration.
pub data Step (enabled : Bool) : Supervisor → Supervisor → Type 0 where
  start : (l : Link) → enabled ≡ true → Step enabled (idle, l) (round, l)
  start_disabled : (l : Link) → enabled ≡ false → Step enabled (idle, l) (passive, l)
  back_off : (l : Link) (now : ℕ) → Step enabled (round, l) (waiting, begin_round now l)
  begin :
      (l : Link) (now : ℕ) → Step enabled (waiting, l) (spawning, transition now starting none l)
  spawn_failed :
      (l : Link) (now : ℕ)
      → Step enabled (spawning, l) (after (transient_error now (with_reason runtime_unavailable l)))
  spawned :
      (l : Link) (now : ℕ)
      → Step enabled (spawning, l) (watching, emit_lifecycle_event now link_started starting l)
  identified :
      (l : Link) (now : ℕ) (identity : RuntimeIdentity) (dropped : ℕ)
      → Step enabled (watching, l) (watching, handle_identity now identity dropped l)
  beaten :
      (l : Link) (now seen_at : ℕ) (beat : BeatEvent)
      → Step enabled (watching, l) (watching, handle_beat now seen_at beat l)
  ending :
      (l : Link) (now : ℕ) (event : TerminalEvent)
      → Step enabled (watching, l) (watching, handle_terminal now event l)
  refused : (l : Link) → Step enabled (watching, l) (watching, drop_line l)
  unresponsive : (l : Link) → Step enabled (watching, l) (dying, with_reason runtime_unresponsive l)
  killed : (l : Link) (now : ℕ) → Step enabled (dying, l) (after (handle_child_exit now none l))
  exited :
      (l : Link) (now : ℕ) (code : Option ℕ)
      → Step enabled (watching, l) (after (handle_child_exit now code l))
  watch_failed : (l : Link) (now : ℕ) → Step enabled (watching, l) (after (transient_error now l))
  taken : (p : Phase) (l : Link) → Step enabled (p, l) (p, record l { events = drop 1 l.events })
  stop :
      (p : Phase) (l : Link) (now : ℕ) → IsStarted p → Step enabled (p, l) (halted, stop_link now l)

-- the supervisors that a new link can become
pub data Reached (enabled : Bool) : Supervisor → Type 0 where
  new : Reached enabled (idle, new_link)
  more : (s t : Supervisor) → Reached enabled s → Step enabled s t → Reached enabled t
