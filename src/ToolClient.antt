-- ===== src/ToolClient.antt =====
-- python/src/haikeilabs/agentware/middleware/tool_client.py: a tool function behind policy and audit.
-- A result that is awaitable is awaited, which the model leaves to the tool function: `Exec` covers
-- both.
pub mod Enforcement
use agentware.Prelude.{
  ℕ, String, Bool, true, false, Option, none, some, List, [], ◌∷◌, Dict, default, ◌==◌,
  if◌then◌else◌,
}
use agentware.Prelude.Value.{Value}
use agentware.Prelude.Exec.{
  Exec, Result, ok, raise, pure, throw, lift, type_error, permission_error, ◌>>=◌, ◌>>◌,
}
use agentware.Types.{Action, deny, action_eq, Args, CallerContext, Decision}
use agentware.Audit.{AuditRecord, AuditFilter, Auditor, query}
use agentware.Middleware.{Evaluate, Record, decide, denial, effective_args, audit_record}

-- A tool function is called with keyword arguments, a configured executor with the tool's name too.
abbrev pub ToolFunction {ℓ} : Type ℓ → Type ℓ
ToolFunction W = Args → Exec W Value

abbrev pub NamedExecutor {ℓ} : Type ℓ → Type ℓ
NamedExecutor W = String → Args → Exec W Value

pub record AuditedToolClient {ℓ} (W : Type ℓ) : Type ℓ where
  pub middleware_url : String
  pub source : String
  pub auditor : Record W
  pub evaluator : Option (Evaluate W)
  pub executor : Option (NamedExecutor W)

-- The arguments of `Execute`, the clock at the default decision and at the audit record, and the
-- value of `uuid4()`, should it be asked for.
pub record Call {ℓ} (W : Type ℓ) : Type ℓ where
  pub tool_name : String
  pub tool_args : Args
  pub user_id : String
  pub channel_id : String
  pub guild_id : Option String
  pub func : Option (ToolFunction W)
  pub caller : Option CallerContext
  pub decided_at : ℕ
  pub recorded_at : ℕ
  pub uuid : String

-- the context that is built where the call brings none
abbrev pub default_caller : String → String → String → Option String → CallerContext
default_caller source user_id channel_id guild_id = record {
  user_id = user_id;
  session_id = channel_id;
  role = "";
  source = source;
  trusted = false;
  metadata = ("channel_id", channel_id) ∷ ("guild_id", default "" guild_id) ∷ [];
  invoking_subject = user_id;
  parent_span = "";
  delegation_depth = 0;
  span_id = "";
  agent_version = "";
  framework = "";
  workspace_id = "";
}

abbrev pub with_span : String → CallerContext → CallerContext
with_span uuid c = if c.span_id == "" then record c { span_id = uuid } else c

module _ {ℓ} {W : Type ℓ} where
  unfoldable pub with_policy : AuditedToolClient W → Evaluate W → AuditedToolClient W
  with_policy client evaluator = record client { evaluator = some evaluator }

  unfoldable pub with_auditor : AuditedToolClient W → Record W → AuditedToolClient W
  with_auditor client auditor = record client { auditor = auditor }

  -- `func`, or the configured executor applied to the tool's name
  abbrev pub choose_func :
      Option (ToolFunction W) → Option (NamedExecutor W) → String → Result (ToolFunction W)
  choose_func (some func) executor tool = ok func
  choose_func none (some executor) tool = ok (executor tool)
  choose_func none none tool = raise (type_error "func is required when no executor is configured")

  abbrev pub effective_caller : AuditedToolClient W → Call W → CallerContext
  effective_caller client c =
      with_span c.uuid
        (default (default_caller client.source c.user_id c.channel_id c.guild_id) c.caller)

  abbrev pub call_record : AuditedToolClient W → Call W → Decision → AuditRecord
  call_record client c d =
      audit_record c.tool_name c.tool_args (effective_caller client c) client.source d c.recorded_at

  abbrev pub enforce : ToolFunction W → Call W → Decision → Exec W Value
  enforce func c d =
      if action_eq d.action deny
      then throw (permission_error (denial d))
      else func (effective_args d c.tool_args)

  unfoldable pub execute : AuditedToolClient W → Call W → Exec W Value
  execute client c = do
    func ← lift (choose_func c.func client.executor c.tool_name)
    d ← decide client.evaluator c.decided_at c.tool_name c.tool_args (effective_caller client c)
    client.auditor (call_record client c d)
    enforce func c d

-- `records`: an auditor with no `query` method shows no records
unfoldable pub records : Option Auditor → Option AuditFilter → List AuditRecord
records none f = []
records (some auditor) f =
    query
      (default
        (record {
          session_id = "";
          tool_name = "";
          action = none;
          since = none;
          limit = 0;
          parent_span = "";
          invoking_subject = "";
        })
        f)
      auditor
