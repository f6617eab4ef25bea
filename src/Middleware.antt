-- ===== src/Middleware.antt =====
-- python/src/haikeilabs/agentware/middleware/middleware.py. The policy evaluator, the auditor and the
-- tool executor are given from outside: each may read and write a state `W` and may raise.
pub mod Journal
pub mod Enforcement
use agentware.Prelude.{
  ℕ, String, Bool, true, false, ◌&&◌, not, Option, none, some, Dict, merge, is_empty, ◌<+>◌,
  if◌then◌else◌,
}
use agentware.Prelude.Value.{Value, null}
use agentware.Prelude.Exec.{Exec, pure, ◌>>=◌, ◌>>◌}
use agentware.Types.{
  Action, allow, deny, filter, action_eq, Args, CallerContext, Decision, new_decision,
}
use agentware.Audit.{AuditRecord}

abbrev pub Evaluate {ℓ} : Type ℓ → Type ℓ
Evaluate W = String → Args → CallerContext → Exec W Decision

abbrev pub Record {ℓ} : Type ℓ → Type ℓ
Record W = AuditRecord → Exec W (Unit {0})

-- the value, whether the call succeeded, and the error text
abbrev pub ToolResult : Type 0
ToolResult = Value × Bool × String

abbrev pub ExecuteTool {ℓ} : Type ℓ → Type ℓ
ExecuteTool W = String → Args → Exec W ToolResult

pub record MiddlewareImpl {ℓ} (W : Type ℓ) : Type ℓ where
  pub executor : ExecuteTool W
  pub evaluator : Option (Evaluate W)
  pub auditor : Option (Record W)

module _ {ℓ} {W : Type ℓ} where
  unfoldable pub new_middleware : ExecuteTool W → MiddlewareImpl W
  new_middleware executor = record { executor = executor; evaluator = none; auditor = none }

  unfoldable pub with_policy : MiddlewareImpl W → Evaluate W → MiddlewareImpl W
  with_policy mw evaluator = record mw { evaluator = some evaluator }

  unfoldable pub with_auditor : MiddlewareImpl W → Record W → MiddlewareImpl W
  with_auditor mw auditor = record mw { auditor = some auditor }

  abbrev pub decide : Option (Evaluate W) → ℕ → String → Args → CallerContext → Exec W Decision
  decide none now tool args caller = pure (new_decision allow "" "no policy configured" now)
  decide (some evaluate) now tool args caller = evaluate tool args caller

  abbrev pub record_if : Option (Record W) → AuditRecord → Exec W (Unit {0})
  record_if none r = pure tt
  record_if (some auditor) r = auditor r

abbrev pub denial : Decision → String
denial d = "denied by policy: " <+> d.reason

-- `if decision.action == FILTER and decision.redacted_args: args = {**args, **redacted_args}`
unfoldable pub effective_args : Decision → Args → Args
effective_args d args =
    if action_eq d.action filter && not (is_empty d.redacted_args)
    then merge args d.redacted_args
    else args

abbrev pub audit_record : String → Args → CallerContext → String → Decision → ℕ → AuditRecord
audit_record tool args caller framework decision now = record {
  session_id = caller.session_id;
  tool_name = tool;
  args = args;
  decision = decision;
  timestamp = now;
  invoking_subject = caller.invoking_subject;
  parent_span = caller.parent_span;
  delegation_depth = caller.delegation_depth;
  framework = framework;
}

-- What `execute` is called with, and what the clock shows when it makes the default decision and
-- the audit record.
pub record Request : Type 0 where
  pub tool_name : String
  pub args : Args
  pub caller : CallerContext
  pub framework : String
  pub decided_at : ℕ
  pub recorded_at : ℕ

abbrev pub record_of : Request → Decision → AuditRecord
record_of q d = audit_record q.tool_name q.args q.caller q.framework d q.recorded_at

module _ {ℓ} {W : Type ℓ} where
  -- the part of `execute` behind the audit record
  abbrev pub enforce : MiddlewareImpl W → Request → Decision → Exec W ToolResult
  enforce mw q d =
      if action_eq d.action deny
      then pure (null, false, denial d)
      else mw.executor q.tool_name (effective_args d q.args)

  unfoldable pub execute : MiddlewareImpl W → Request → Exec W ToolResult
  execute mw q = do
    d ← decide mw.evaluator q.decided_at q.tool_name q.args q.caller
    record_if mw.auditor (record_of q d)
    enforce mw q d
