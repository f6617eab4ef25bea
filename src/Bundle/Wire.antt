-- ===== src/Bundle/Wire.antt =====
-- The JSON form of a policy bundle: `from_wire`, `_parse_rule`, `_parse_condition`, `to_dict` and
-- `_rule_to_dict` of kei/policy_bundle.py. A method that a value lacks raises `AttributeError`.
pub mod RoundTrip
use agentware.Prelude.{
  ltb, ℕ, String, Bool, true, false, not, Option, none, some, List, [], ◌∷◌, map, Dict, lookup,
  default, strip, ◌<+>◌, ◌==◌, if◌then◌else◌,
}
use agentware.Prelude.Value.{
  Value, ℤ, pos, negsuc, null, bool, int, float, str, list, dict, items, fields, truthy, array,
  object, is_positive,
}
use agentware.Prelude.Python.{Python}
use agentware.Prelude.Exec.{
  Result, ok, raise, attribute_error, type_error, bundle_parse_error, other,
}
use agentware.Types.{Action, allow, deny, filter}
use agentware.Bundle.{
  Operator, eq, not_eq, contains_op, not_contains, matches, not_matches, exists, not_exists,
  Condition, RateLimit, Rule, PolicyBundleData,
}

infixl 5 ◌>>=◌
abbrev pub ◌>>=◌ : {A B : Type 0} → Result A → (A → Result B) → Result B
ok a >>= f = f a
raise e >>= f = raise e

-- `raw.get(key, …)`: the fields of a dictionary
abbrev pub fields_of : Value → Result (Dict Value)
fields_of (dict fs) = ok (fields fs)
fields_of _ = raise (attribute_error "object has no attribute 'get'")

-- `for c in v`: a text yields its characters, and a dictionary its keys
abbrev chars : String → List Value
chars String.[] = []
chars (String.◌∷◌ c s) = str (String.◌∷◌ c String.[]) ∷ chars s

abbrev pub iterate : Value → Result (List Value)
iterate (list vs) = ok (items vs)
iterate (dict fs) = ok (map (λ e. str e.0) (fields fs))
iterate (str s) = ok (chars s)
iterate _ = raise (type_error "object is not iterable")

abbrev pub as_list : Value → Option (List Value)
as_list (list vs) = some (items vs)
as_list _ = none

abbrev pub action_text : Action → String
action_text allow = "allow"
action_text deny = "deny"
action_text filter = "filter"

-- `Action(raw)`, which raises `ValueError` for any other text
unfoldable pub action_of : String → Option Action
action_of s =
    if s == "allow"
    then some allow
    else if s == "deny"
    then some deny
    else if s == "filter"
    then some filter
    else none

abbrev pub operator_text : Operator → String
operator_text eq = "eq"
operator_text not_eq = "not_eq"
operator_text contains_op = "contains"
operator_text not_contains = "not_contains"
operator_text matches = "matches"
operator_text not_matches = "not_matches"
operator_text exists = "exists"
operator_text not_exists = "not_exists"

-- `_CONDITION_OPERATOR_MAP.get`
unfoldable pub operator_of : String → Option Operator
operator_of s =
    if s == "eq"
    then some eq
    else if s == "not_eq"
    then some not_eq
    else if s == "contains"
    then some contains_op
    else if s == "not_contains"
    then some not_contains
    else if s == "matches"
    then some matches
    else if s == "not_matches"
    then some not_matches
    else if s == "exists"
    then some exists
    else if s == "not_exists"
    then some not_exists
    else none

-- the value of a positive integer
abbrev pub magnitude : ℤ → ℕ
magnitude (pos n) = n
magnitude (negsuc n) = 0

-- the whole seconds of `timedelta.max`, beyond which `timedelta` raises `OverflowError`
abbrev pub max_window : ℕ
max_window = 86399999999999

abbrev pub or_fail {ℓ} : {A : Type ℓ} → String → Option A → Result A
or_fail message none = raise (bundle_parse_error message)
or_fail message (some a) = ok a

-- the loops that append one parsed value for each raw one
unfoldable pub parse_all {ℓ} : {A : Type ℓ} → (Value → Result A) → List Value → Result (List A)
parse_all parse [] = ok []
parse_all parse (v ∷ vs) = elim (parse v) [
  | raise e ↦ raise e
  | ok a ↦ elim (parse_all parse vs) [ raise e ↦ raise e | ok rest ↦ ok (a ∷ rest) ]
]

unfoldable pub condition_to_dict : Condition → Value
condition_to_dict c = object (
    ("field", str c.field)
    ∷ ("operator", str (operator_text c.operator))
    ∷ ("value", str c.value)
    ∷ [])

abbrev rate_to_dict : Option RateLimit → Value
rate_to_dict none = null
rate_to_dict (some r) =
    object (("count", int (pos r.count)) ∷ ("window_seconds", int (pos r.window)) ∷ [])

unfoldable pub rule_to_dict : Rule → Value
unfolding condition_to_dict
rule_to_dict r = object (
    ("name", r.name)
    ∷ ("tools", array r.tools)
    ∷ ("action", str (action_text r.action))
    ∷ ("conditions", array (map condition_to_dict r.conditions))
    ∷ ("max_rate", rate_to_dict r.max_rate)
    ∷ ("redact_fields", array r.redact_fields)
    ∷ [])

module _ (py : Python) where
  -- `str(raw.get(key, fallback)).strip().lower()`
  abbrev pub token : Dict Value → String → String → String
  token raw key fallback = py.lower (strip (py.to_text (default (str fallback) (lookup key raw))))

  abbrev condition_of : Dict Value → Result Condition
  condition_of raw =
      let field = py.to_text (default (str "") (lookup "field" raw)) in
      if field == ""
      then raise (bundle_parse_error "condition is missing 'field'")
      else or_fail "unknown condition operator" (operator_of (token raw "operator" "eq")) >>= λ op.
          ok (record {
            field = field;
            operator = op;
            value = py.to_text (default (str "") (lookup "value" raw));
          })

  -- The name of the rule is only part of the messages.
  unfoldable pub parse_condition : Value → Result Condition
  unfolding lookup operator_of
  parse_condition (dict fs) = condition_of (fields fs)
  parse_condition _ = raise (bundle_parse_error "condition must be a dict")

  abbrev rate_of : Dict Value → Result (Option RateLimit)
  rate_of raw = do
    count ← py.to_int (default (int (pos 0)) (lookup "count" raw))
    window ← py.to_int (default (int (pos 60)) (lookup "window_seconds" raw))
    if is_positive count
        then (if is_positive window
            then (if ltb max_window (magnitude window)
                then raise (other "OverflowError")
                else ok (some (record { count = magnitude count; window = magnitude window })))
            else ok none)
        else ok none

  -- an absent or null `max_rate` is no limit
  unfoldable pub parse_rate : Option Value → Result (Option RateLimit)
  unfolding lookup
  parse_rate none = ok none
  parse_rate (some null) = ok none
  parse_rate (some (dict fs)) = rate_of (fields fs)
  parse_rate (some _) = raise (attribute_error "object has no attribute 'get'")

  abbrev rule_of : Dict Value → Result Rule
  rule_of raw =
      let name = default (str "") (lookup "name" raw) in
      if not (truthy name) then raise (bundle_parse_error "rule is missing 'name'") else do
        tools ← or_fail "'tools' must be a list" (as_list (default (array []) (lookup "tools" raw)))
        action ← or_fail "unknown action" (action_of (token raw "action" "deny"))
        raw_conditions ← iterate (default (array []) (lookup "conditions" raw))
        conditions ← parse_all parse_condition raw_conditions
        max_rate ← parse_rate (lookup "max_rate" raw)
        ok (record {
          name = name;
          tools = tools;
          action = action;
          conditions = conditions;
          max_rate = max_rate;
          redact_fields = default [] (as_list (default (array []) (lookup "redact_fields" raw)));
        })

  unfoldable pub parse_rule : Value → Result Rule
  unfolding lookup action_of parse_all parse_condition parse_rate
  parse_rule raw = do fs ← fields_of raw; rule_of fs

  abbrev pub parse_expiry : Option Value → Result (Option ℕ)
  parse_expiry none = ok none
  parse_expiry (some v) =
      if truthy v
      then elim (py.from_iso (py.to_text v)) [
        | none ↦ raise (bundle_parse_error "unparseable expires_at")
        | some t ↦ ok (some t)
      ]
      else ok none

  -- `now` is the clock at the default of `fetched_at`.
  unfoldable pub from_wire : ℕ → Value → Result PolicyBundleData
  unfolding lookup parse_all parse_rule
  from_wire now raw = do
    fs ← fields_of raw
    let version = default (str "") (lookup "version" fs)
    if not (truthy version) then raise (bundle_parse_error "bundle is missing 'version'") else do
      expires_at ← parse_expiry (lookup "expires_at" fs)
      raw_rules ←
          or_fail "'rules' must be a list" (as_list (default (array []) (lookup "rules" fs)))
      rules ← parse_all parse_rule raw_rules
      ok (record {
        rules = rules;
        version = version;
        bundle_id = py.to_text (default (str "") (lookup "bundle_id" fs));
        default_deny = truthy (default (bool true) (lookup "default_deny" fs));
        expires_at = expires_at;
        fetched_at = now;
      })

  abbrev expiry_to_dict : Option ℕ → Value
  expiry_to_dict none = null
  expiry_to_dict (some t) = str (py.iso t)

  unfoldable pub to_dict : PolicyBundleData → Value
  unfolding rule_to_dict
  to_dict b = object (
      ("version", b.version)
      ∷ ("bundle_id", str b.bundle_id)
      ∷ ("default_deny", bool b.default_deny)
      ∷ ("expires_at", expiry_to_dict b.expires_at)
      ∷ ("fetched_at", str (py.iso b.fetched_at))
      ∷ ("rules", array (map rule_to_dict b.rules))
      ∷ [])
