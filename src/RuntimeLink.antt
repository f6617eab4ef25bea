-- ===== src/RuntimeLink.antt =====
-- python/src/haikeilabs/agentware/kei/runtime_link.py: the vocabulary of the supervisor of a runtime
-- child. Times and durations are whole numbers of milliseconds.
pub mod Config
pub mod Lines
pub mod Machine
use agentware.Prelude.{ℕ, String, Bool, true, false, Option, none, some, List}

pub data LinkState : Type 0 where
  disabled starting connected degraded reconnecting terminal stopped : LinkState

pub data FailureClass : Type 0 where
  config_invalid runtime_unavailable runtime_crashloop runtime_unresponsive : FailureClass
  contract_mismatch catalog_unreachable catalog_timeout catalog_error : FailureClass
  catalog_backpressure installation_unauthorized installation_stale : FailureClass
  installation_offline audit_backlog legacy_runtime_unverified : FailureClass

pub data LifecycleEventName : Type 0 where
  link_started link_connected link_degraded link_reconnecting : LifecycleEventName
  link_terminal link_stopped : LifecycleEventName

pub data BeatOutcome : Type 0 where
  ok_beat unreachable timeout error backpressure rejected unauthorized : BeatOutcome

pub record AssignedAgent : Type 0 where
  pub agent_id : String
  pub is_default : Bool

pub record RuntimeIdentity : Type 0 where
  pub run_id : String
  pub installation_id : String
  pub org_id : String
  pub workspace_id : String
  pub platform : String
  pub status : String
  pub binding_status : String
  pub runtime_version : String
  pub default_agent_id : Option String
  pub agents : List AssignedAgent

pub record BeatEvent : Type 0 where
  pub run_id : String
  pub seq : ℕ
  pub at : String
  pub outcome : BeatOutcome
  pub http_status : ℕ
  pub latency_ms : ℕ
  pub next_in_ms : ℕ

pub record TerminalEvent : Type 0 where
  pub run_id : String
  pub reason : String

pub data ChildEvent : Type 0 where
  identity : RuntimeIdentity → ChildEvent
  beat : BeatEvent → ChildEvent
  terminating : TerminalEvent → ChildEvent
  ignored : ChildEvent
