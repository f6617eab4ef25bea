-- ===== src/Bundle.antt =====
-- python/src/haikeilabs/agentware/kei/policy_bundle.py: the rules of a policy bundle and how a tool
-- call is evaluated against them. Children: `Wire`, the JSON form; `Lifecycle`, fetch and refresh.
pub mod FirstMatch
pub mod Redaction
pub mod Wire
pub mod Lifecycle
use agentware.Prelude.{
  ℕ, String, Bool, true, false, not, ◌&&◌, ◌||◌, Option, none, some, List, [], ◌∷◌, Dict, lookup,
  any, all, is_empty, default, strip_prefix?, contains, leb, ◌<+>◌, ◌==◌, if◌then◌else◌,
}
use agentware.Prelude.Value.{Value, is_text}
use agentware.Prelude.Python.{Python}
use agentware.Types.{Action, allow, deny, Args, CallerContext, Decision, new_decision}

pub data Operator : Type 0 where
  eq not_eq contains_op not_contains matches not_matches exists not_exists : Operator

pub record Condition : Type 0 where
  pub field : String
  pub operator : Operator
  pub value : String

-- The window is in seconds.
pub record RateLimit : Type 0 where
  pub count : ℕ
  pub window : ℕ

-- A name, a tool or a field of the wire format need not be a text, and is kept as it came.
pub record Rule : Type 0 where
  pub name : Value
  pub tools : List Value
  pub action : Action
  pub conditions : List Condition
  pub max_rate : Option RateLimit
  pub redact_fields : List Value

pub record PolicyBundleData : Type 0 where
  pub rules : List Rule
  pub version : Value
  pub bundle_id : String
  pub default_deny : Bool
  pub expires_at : Option ℕ
  pub fetched_at : ℕ

abbrev caller_value : String → CallerContext → String
caller_value name caller =
    if name == "role"
    then caller.role
    else if name == "source"
    then caller.source
    else if name == "trusted"
    then (if caller.trusted then "true" else "false")
    else if name == "user_id"
    then caller.user_id
    else if name == "session_id"
    then caller.session_id
    else ""

unfoldable pub matches_tool : Rule → String → Bool
matches_tool r tool =
    if is_empty r.tools then true else any (is_text tool) r.tools || any (is_text "*") r.tools

unfoldable pub is_expired : PolicyBundleData → ℕ → Bool
is_expired b now = elim b.expires_at [ none ↦ false | some t ↦ leb t now ]

module _ (py : Python) where
  abbrev arg_value : Option Value → String
  arg_value none = ""
  arg_value (some v) = py.to_text v

  -- `Condition._get_value`; `field[7:]` and `field[5:]` are what is left behind the prefix
  unfoldable pub get_value : Condition → Args → CallerContext → String
  unfolding lookup
  get_value c args caller = elim (strip_prefix? "caller." c.field) [
    | some name ↦ caller_value name caller
    | none ↦ elim (strip_prefix? "args." c.field) [
      | some key ↦ arg_value (lookup key args)
      | none ↦ ""
    ]
  ]

  -- a match that `re.error` ends counts as none
  abbrev matched : String → String → Bool
  matched pattern value = default false (py.re_match pattern value)

  unfoldable pub compare_value : Operator → String → String → Bool
  compare_value eq wanted value = value == wanted
  compare_value not_eq wanted value = not (value == wanted)
  compare_value contains_op wanted value = contains wanted value
  compare_value not_contains wanted value = not (contains wanted value)
  compare_value matches wanted value = matched wanted value
  compare_value not_matches wanted value = not (matched wanted value)
  compare_value exists wanted value = not (value == "")
  compare_value not_exists wanted value = value == ""

  unfoldable pub evaluate_condition : Args → CallerContext → Condition → Bool
  unfolding get_value compare_value
  evaluate_condition args caller c = compare_value c.operator c.value (get_value c args caller)

  unfoldable pub evaluate_conditions : Rule → Args → CallerContext → Bool
  unfolding evaluate_condition
  evaluate_conditions r args caller =
      if is_empty r.conditions then true else all (evaluate_condition args caller) r.conditions

  abbrev pub matched_decision : Rule → ℕ → Decision
  matched_decision r now =
      new_decision r.action (py.to_text r.name) ("matched rule " <+> py.to_text r.name) now

  -- the `for` loop of `evaluate`
  unfoldable pub evaluate_rules : List Rule → String → Args → CallerContext → ℕ → Option Decision
  unfolding matches_tool evaluate_conditions
  evaluate_rules [] tool args caller now = none
  evaluate_rules (r ∷ rules) tool args caller now =
      let rest = evaluate_rules rules tool args caller now in
      if not (matches_tool r tool)
      then rest
      else if not (evaluate_conditions r args caller)
      then rest
      else some (matched_decision r now)

  abbrev pub default_decision : PolicyBundleData → ℕ → Decision
  default_decision b now =
      if b.default_deny
      then new_decision deny "default" "no matching rules and default deny is enabled" now
      else new_decision allow "default" "no matching rules and default allow is enabled" now

  unfoldable pub evaluate_bundle : PolicyBundleData → String → Args → CallerContext → ℕ → Decision
  unfolding evaluate_rules
  evaluate_bundle b tool args caller now =
      default (default_decision b now) (evaluate_rules b.rules tool args caller now)
