-- ===== src/Types.antt =====
-- python/src/haikeilabs/agentware/middleware/types.py: the caller, the policy decision, and the
-- metadata of a message. A timestamp is a number of clock ticks, read by the caller of the code.
pub mod Delegation
use agentware.Prelude.{
  ℕ, suc, String, [], Bool, true, false, Option, none, some, Dict, default, ◌==◌, if◌then◌else◌,
}
use agentware.Prelude.Value.{Value}
use agentware.Prelude.Exec.{Result, ok, raise, type_error}

pub data MessageType : Type 0 where
  system_prompt user_input tool_call tool_result reasoning text_response : MessageType
  step_nudge prerequisite_nudge retry_nudge context_warning summary : MessageType

pub record MessageMeta : Type 0 where
  pub type : MessageType
  pub step_index : Option ℕ
  pub original_type : Option MessageType
  pub token_estimate : Option ℕ

pub data Action : Type 0 where
  allow deny filter : Action

abbrev pub action_eq : Action → Action → Bool
action_eq allow allow = true
action_eq deny deny = true
action_eq filter filter = true
action_eq _ _ = false

-- `**kwargs` of a tool call
abbrev pub Args : Type 0
Args = Dict Value

pub record CallerContext : Type 0 where
  pub user_id : String
  pub session_id : String
  pub role : String
  pub source : String
  pub trusted : Bool
  pub metadata : Dict String
  pub invoking_subject : String
  pub parent_span : String
  pub delegation_depth : ℕ
  pub span_id : String
  pub agent_version : String
  pub framework : String
  pub workspace_id : String

-- `s or t` on texts
abbrev pub or_text : String → String → String
or_text s t = if s == "" then t else s

-- The keyword arguments that a caller of `delegate` may pass beside `span`.
pub record Overrides : Type 0 where
  pub user_id : Option String
  pub session_id : Option String
  pub role : Option String
  pub source : Option String
  pub trusted : Option Bool
  pub metadata : Option (Dict String)
  pub invoking_subject : Option String
  pub parent_span : Option String
  pub delegation_depth : Option ℕ
  pub span_id : Option String
  pub agent_version : Option String
  pub framework : Option String
  pub workspace_id : Option String

-- `replace(self, parent_span=…, delegation_depth=…, span_id=…, **overrides)` raises where a keyword
-- is given twice.
abbrev pub repeats_keyword : Overrides → Bool
repeats_keyword o = elim o.parent_span [
  | some _ ↦ true
  | none ↦ elim o.delegation_depth [
    | some _ ↦ true
    | none ↦ elim o.span_id [ some _ ↦ true | none ↦ false ]
  ]
]

abbrev pub delegated : CallerContext → String → Overrides → CallerContext
delegated self span o = record {
  user_id = default self.user_id o.user_id;
  session_id = default self.session_id o.session_id;
  role = default self.role o.role;
  source = default self.source o.source;
  trusted = default self.trusted o.trusted;
  metadata = default self.metadata o.metadata;
  invoking_subject = self.invoking_subject;
  parent_span = or_text span (or_text self.span_id self.parent_span);
  delegation_depth = suc self.delegation_depth;
  span_id = "";
  agent_version = default self.agent_version o.agent_version;
  framework = default self.framework o.framework;
  workspace_id = default self.workspace_id o.workspace_id;
}

unfoldable pub delegate : CallerContext → String → Overrides → Result CallerContext
delegate self span o =
    if repeats_keyword o
    then raise (type_error "multiple values for keyword argument")
    else ok (delegated self span o)

pub record Decision : Type 0 where
  pub action : Action
  pub rule : String
  pub reason : String
  pub redacted_args : Args
  pub enrollment : Option (Dict Value)
  pub connect : Option (Dict Value)
  pub timestamp : ℕ
  pub reason_code : Option String
  pub hint : Option String

-- `Decision(action=…, rule=…, reason=…)`, with the other fields at their defaults
abbrev pub new_decision : Action → String → String → ℕ → Decision
new_decision action rule reason now = record {
  action = action;
  rule = rule;
  reason = reason;
  redacted_args = [];
  enrollment = none;
  connect = none;
  timestamp = now;
  reason_code = none;
  hint = none;
}
