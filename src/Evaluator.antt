-- ===== src/Evaluator.antt =====
-- python/src/haikeilabs/agentware/kei/evaluator.py: the evaluator that asks kei-proxy. The client is
-- given from outside: it returns a value, or raises. The digest of the arguments, which `hashlib`
-- computes, is an argument too. Only objects that are dictionaries are modelled as answers.
pub mod FailClosed
pub mod Resources
use Prim.Native.Char.{code}
use agentware.Prelude.{
  nat_eq, ℕ, String, Bool, true, false, not, ◌||◌, Option, none, some, List, [], ◌∷◌, ◌++◌, Dict,
  lookup, default, elem, strip, ◌<+>◌, ◌==◌, if◌then◌else◌,
}
use agentware.Prelude.Value.{Value, null, str, dict, fields, truthy}
use agentware.Prelude.Python.{Python}
use agentware.Prelude.Exec.{Error, Result, ok, raise, Exec, throw, type_error, authorize_error}
use agentware.Types.{Action, allow, deny, Args, CallerContext, or_text, Decision}

abbrev pub affirmative_decisions : List String
affirmative_decisions = "permit" ∷ "allow" ∷ []

pub record AuthorizationResponse : Type 0 where
  pub decision : String
  pub reason : Option String
  pub policy_id : Option String
  pub enrollment : Option (Dict Value)
  pub connect : Option (Dict Value)
  pub reason_code : Option String
  pub hint : Option String

abbrev pub empty_response : AuthorizationResponse
empty_response = record {
  decision = "";
  reason = none;
  policy_id = none;
  enrollment = none;
  connect = none;
  reason_code = none;
  hint = none;
}

-- `read(name)`: a missing key reads as `None`, and a result that has no such attribute too
abbrev pub read : Value → String → Value
read (dict fs) name = default null (lookup name (fields fs))
read _ name = null

-- an enrollment or connect object that is a dictionary
abbrev pub as_object : Value → Option (Dict Value)
as_object (dict fs) = some (fields fs)
as_object _ = none

-- `kei-proxy <class>[: <detail>]`
unfoldable pub reason : String → Option String → String
reason reason_class none = "kei-proxy " <+> reason_class
reason reason_class (some detail) =
    if detail == ""
    then "kei-proxy " <+> reason_class
    else "kei-proxy " <+> reason_class <+> ": " <+> detail

abbrev pub rule_name : String
rule_name = "kei-proxy"

unfoldable pub decision :
    Action
    → String
    → AuthorizationResponse
    → Option (Dict Value)
    → Option (Dict Value)
    → ℕ
    → Decision
decision action why r enrollment connect now = record {
  action = action;
  rule = or_text (default "" r.policy_id) rule_name;
  reason = why;
  redacted_args = [];
  enrollment = enrollment;
  connect = connect;
  timestamp = now;
  reason_code = r.reason_code;
  hint = r.hint;
}

module _ (py : Python) where
  -- `_as_optional_str`
  unfoldable pub as_optional_str : Value → Option String
  as_optional_str null = none
  as_optional_str v = let s = py.to_text v in if s == "" then none else some s

  abbrev text_or_empty : Value → String
  text_or_empty null = ""
  text_or_empty v = py.to_text v

  -- `policy_id`, or `policy` where that is missing
  abbrev first_value : Value → Value → Value
  first_value null w = w
  first_value v w = v

  unfoldable pub from_result : Value → AuthorizationResponse
  unfolding lookup as_optional_str
  from_result null = empty_response
  from_result v = record {
    decision = text_or_empty (read v "decision");
    reason = as_optional_str (read v "reason");
    policy_id = as_optional_str (first_value (read v "policy_id") (read v "policy"));
    enrollment = as_object (read v "enrollment");
    connect = as_object (read v "connect");
    reason_code = as_optional_str (read v "reason_code");
    hint = as_optional_str (read v "hint");
  }

  -- ` (reason)`, where there is one
  abbrev in_brackets : Option String → String
  in_brackets none = ""
  in_brackets (some why) = if why == "" then "" else " (" <+> why <+> ")"

  -- the branches behind the affirmative ones; `quoted` is `{decision!r}`
  abbrev denied : String → String → AuthorizationResponse → ℕ → Decision
  denied token quoted r now =
      if token == ""
      then decision deny (reason "no_decision" none) r none none now
      else if token == "deny"
      then decision deny (reason "deny" r.reason) r r.enrollment r.connect now
      else if token == "enrollment_required"
      then decision deny
          (reason "enrollment_required"
            (some (or_text (default "" r.reason) "enrollment is required before this call")))
          r r.enrollment r.connect now
      else decision deny (reason "unknown_decision" (some (quoted <+> in_brackets r.reason))) r none
          none now

  -- `quote` is `repr` on texts.
  unfoldable pub translate : (String → String) → AuthorizationResponse → ℕ → Decision
  unfolding decision reason
  translate quote r now =
      let token = py.lower (strip r.decision) in
      if elem token affirmative_decisions
      then decision allow (reason "allow" r.reason) r none none now
      else denied token (quote token) r now

  -- What the client returned or raised, and what reading it raised, become a decision. The message of
  -- an exception is `str(exc)`.
  unfoldable pub answer : (String → String) → (Error → String) → Result Value → ℕ → Decision
  unfolding from_result translate
  answer quote message (raise (authorize_error reason_class detail)) now =
      decision deny (reason reason_class (some detail)) empty_response none none now
  answer quote message (raise e) now =
      decision deny (reason "proxy_error" (some ("authorize failed: " <+> message e)))
        empty_response none none now
  answer quote message (ok raw) now = translate quote (from_result raw) now

  -- the part of a text before the first `sep`, as `split(sep, 1)[0]`
  unfoldable pub before : ℕ → String → String
  before sep String.[] = ""
  before sep (String.◌∷◌ c s) =
      let rest = before sep s in if nat_eq (code c) sep then "" else String.◌∷◌ c rest

  -- `add` of `resources_touched`
  unfoldable pub add_resource : String → String → Value → List String → List String
  unfolding strip
  add_resource type kind null touched = touched
  add_resource type kind v touched =
      let value = strip (py.to_text v) in
      let entry = type <+> ":" <+> kind <+> ":" <+> value in
      if value == "" then touched else if elem entry touched then touched else touched ++ entry ∷ []

  abbrev get_arg : Args → String → Value
  get_arg args key = default null (lookup key args)

  -- `a or b`
  abbrev or_value : Value → Value → Value
  or_value v w = if truthy v then v else w

  unfoldable pub resource_type : String → String
  unfolding before
  resource_type tool = py.lower (before b'_' (before b'.' tool))

  abbrev add_repo : String → Value → Value → List String
  add_repo type owner repo =
      if truthy repo
      then (if truthy owner
          then add_resource type "repo" (str (py.to_text owner <+> "/" <+> py.to_text repo)) []
          else add_resource type "repo" repo [])
      else []

  unfoldable pub resources_touched : String → Args → List String
  unfolding lookup resource_type add_resource
  resources_touched tool args =
      let type = resource_type tool in
      if type == ""
      then []
      else let repos =
          add_repo type (get_arg args "owner")
            (or_value (get_arg args "repo") (get_arg args "repository")) in
        let issues = add_resource type "issue" (get_arg args "issue_number") repos in
        let pulls =
          add_resource type "pull_request"
            (or_value (get_arg args "pull_number") (get_arg args "pr_number")) issues in
        let branches =
          add_resource type "branch" (or_value (get_arg args "branch") (get_arg args "ref"))
            pulls in
        add_resource type "file" (or_value (get_arg args "path") (get_arg args "file_path"))
          branches

-- The positional arguments of `AuthorizationClient.authorize`, and its keyword arguments.
pub record AuthorizeArgs : Type 0 where
  pub user_id : String
  pub tool : String
  pub action : String
  pub resource : String

pub record AuditContext : Type 0 where
  pub span_id : String
  pub invoking_subject : String
  pub parent_span : String
  pub delegation_depth : ℕ
  pub agent_version : String
  pub framework : String
  pub tool_args_digest : String
  pub resources : List String
  pub workspace_id : String

-- What `inspect.signature` and `bind` find: no signature, one that takes the keywords, one that
-- takes only the positional arguments, or neither.
pub data Shape : Type 0 where
  no_signature modern minimal unsupported : Shape

pub record AuthorizationClient {ℓ} (W : Type ℓ) : Type ℓ where
  pub shape : Shape
  pub authorize : AuthorizeArgs → Option AuditContext → Exec W Value

module _ {ℓ} {W : Type ℓ} where
  -- `_authorize`: one call, in the form that the signature takes
  unfoldable pub authorize : AuthorizationClient W → AuthorizeArgs → AuditContext → Exec W Value
  authorize client args context = elim client.shape [
    | no_signature ↦ client.authorize args (some context)
    | modern ↦ client.authorize args (some context)
    | minimal ↦ client.authorize args none
    | unsupported ↦ throw (type_error "missing a required argument")
  ]

-- What the evaluator takes from Python on texts and values.
pub record Printer : Type 0 where
  pub quote : String → String
  pub message : Error → String
  pub digest : Args → String

module _ (py : Python) (printer : Printer) where
  abbrev pub metadata_or : String → String → CallerContext → String
  metadata_or value key caller = or_text value (default "" (lookup key caller.metadata))

  abbrev pub authorize_args : String → String → Args → CallerContext → AuthorizeArgs
  authorize_args default_action tool args caller = record {
    user_id = or_text caller.invoking_subject caller.user_id;
    tool = tool;
    action = py.to_text (or_value py (get_arg py args "action") (str default_action));
    resource = elim (resources_touched py tool args) [ [] ↦ tool | r ∷ _ ↦ r ];
  }

  abbrev pub audit_context : String → Args → CallerContext → AuditContext
  audit_context tool args caller = record {
    span_id = caller.span_id;
    invoking_subject = or_text caller.invoking_subject caller.user_id;
    parent_span = caller.parent_span;
    delegation_depth = caller.delegation_depth;
    agent_version = metadata_or caller.agent_version "agent_version" caller;
    framework = or_text caller.framework caller.source;
    tool_args_digest = printer.digest args;
    resources = resources_touched py tool args;
    workspace_id = metadata_or caller.workspace_id "workspace_id" caller;
  }

  -- `KeiProxyEvaluator.evaluate`; its form is that of an evaluator of the middleware
  unfoldable pub evaluate {ℓ} :
      {W : Type ℓ}
      → AuthorizationClient W
      → String
      → ℕ
      → String
      → Args
      → CallerContext
      → Exec W Decision
  unfolding authorize answer
  evaluate client default_action now tool args caller w =
      let (raw, w') =
        authorize client (authorize_args default_action tool args caller)
          (audit_context tool args caller) w in
      (ok (answer py printer.quote printer.message raw now), w')
