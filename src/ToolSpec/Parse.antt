-- ===== src/ToolSpec/Parse.antt =====
-- `parse_manifest_v3` and its parts. A tool is a JSON object, whose keys differ.
use agentware.Prelude.{
  ℕ, String, Bool, true, false, not, ◌&&◌, ◌||◌, Option, none, some, List, [], ◌∷◌, Dict, lookup,
  elem, all, keys, is_some, ◌<+>◌, ◌==◌, if◌then◌else◌,
}
use agentware.Prelude.Value.{
  Value, Items, Fields, nil, cons, end, int, pos, bool, str, list, dict, items, fields,
}
use agentware.Prelude.Python.{Python}
use agentware.Prelude.Exec.{ok, raise, Error, manifest_error}
use agentware.ToolSpec.{ToolSpec, route_entry}
use agentware.Prelude.Checks.{Check, ◌>>◌, require}

abbrev pub fail : String → String → Error
fail code message = manifest_error code ("tool manifest: " <+> message)

abbrev pub nonempty_str : Value → Bool
nonempty_str (str s) = not (s == "")
nonempty_str _ = false

-- `_nonempty_str(raw.get(key))`
abbrev pub get_nonempty : String → Dict Value → Bool
get_nonempty key raw = elim (lookup key raw) [ none ↦ false | some v ↦ nonempty_str v ]

-- a loop that raises at the first element that fails a test
unfoldable pub check_all {ℓ} : {A : Type ℓ} → (A → Bool) → (A → Error) → List A → Check
check_all test error [] = ok tt
check_all test error (x ∷ xs) =
    let rest = check_all test error xs in if test x then rest else raise (error x)

abbrev pub Kind : Type 0
Kind = Value → Bool

abbrev pub is_str : Kind
is_str (str s) = true
is_str _ = false

abbrev pub is_dict : Kind
is_dict (dict fs) = true
is_dict _ = false

abbrev pub is_list : Kind
is_list (list vs) = true
is_list _ = false

abbrev pub is_bool : Kind
is_bool (bool b) = true
is_bool _ = false

abbrev pub tool_field_types : Dict Kind
tool_field_types =
    ("name", is_str)
    ∷ ("description", is_str)
    ∷ ("service", is_str)
    ∷ ("source", is_str)
    ∷ ("operation_class", is_str)
    ∷ ("route", is_dict)
    ∷ ("required_capabilities", is_list)
    ∷ ("resource_types", is_list)
    ∷ ("parameters", is_dict)
    ∷ ("enabled", is_bool)
    ∷ []

abbrev pub has_type : Dict Value → String × Kind → Bool
has_type tool (key, kind) = elim (lookup key tool) [ none ↦ true | some v ↦ kind v ]

-- `set(value) == names and all(_nonempty_str(value[name]) for name in names)` for two names
abbrev pub has_exactly : String → String → Fields → Bool
has_exactly a b fs =
    all (λ key. elem key (a ∷ b ∷ [])) (keys (fields fs))
    && get_nonempty a (fields fs)
    && get_nonempty b (fields fs)

-- `not isinstance(v, list) or not v or not all(...)`, negated
abbrev pub is_capabilities : Option Value → Bool
is_capabilities (some (list (cons v vs))) = all nonempty_str (v ∷ items vs)
is_capabilities _ = false

abbrev pub is_empty_list : Option Value → Bool
is_empty_list (some (list nil)) = true
is_empty_list _ = false

abbrev pub text_of : Option Value → String
text_of (some (str s)) = s
text_of _ = ""

abbrev pub fields_of : Option Value → Fields
fields_of (some (dict fs)) = fs
fields_of _ = end

abbrev pub list_of : Option Value → Option Items
list_of (some (list vs)) = some vs
list_of _ = none

abbrev pub true_unless : Option Value → Bool
true_unless (some (bool b)) = b
true_unless _ = true

-- The declaration of a tool that has passed the checks: its fields have their types.
abbrev pub spec_of : Dict Value → ToolSpec
spec_of tool = record {
  name = text_of (lookup "name" tool);
  description = text_of (lookup "description" tool);
  parameters = fields_of (lookup "parameters" tool);
  service = some (text_of (lookup "service" tool));
  source = some (text_of (lookup "source" tool));
  operation_class = some (text_of (lookup "operation_class" tool));
  route = some (fields_of (lookup "route" tool));
  required_capabilities = list_of (lookup "required_capabilities" tool);
  resource_types = list_of (lookup "resource_types" tool);
  enabled = true_unless (lookup "enabled" tool);
}

module _ (py : Python) where
  -- `f"tools[{index}]"`
  abbrev pub at : ℕ → String
  at index = "tools[" <+> py.to_text (int (pos index)) <+> "]"

  -- `tool` is read at two keys only: `required_capabilities` and `resource_types`.
  abbrev pub parse_harness : ℕ → Fields → (capabilities resource_types : Option Value) → Check
  parse_harness index fs capabilities resource_types =
      require (has_exactly "executor" "registration" fs) (
        fail "invalid_route"
          (at index <+> ".route.harness_executor needs non-empty executor and registration"))
      >> require (not (is_some capabilities)) (
          fail "invalid_route"
            (at index <+> ".required_capabilities must not be present on a harness route"))
      >> require (not (is_some resource_types)) (
          fail "invalid_route"
            (at index <+> ".resource_types must not be present on a harness route"))

  abbrev pub parse_connector : ℕ → Fields → (capabilities resource_types : Option Value) → Check
  parse_connector index fs capabilities resource_types =
      require (has_exactly "agent_id" "connector_id" fs) (
        fail "invalid_route"
          (at index <+> ".route.connector_binding needs non-empty agent_id and connector_id"))
      >> require (is_capabilities capabilities) (
          fail "invalid_route" (
            at index
            <+> " needs a non-empty required_capabilities array of strings on a connector route"))
      >> require (not (is_empty_list resource_types)) (
          fail "invalid_route"
            (at index <+> ".resource_types must not be empty on a connector route"))

  abbrev pub parse_kind : ℕ → String → Value → (capabilities resource_types : Option Value) → Check
  parse_kind index kind (dict fs) capabilities resource_types =
      if kind == "harness_executor"
      then parse_harness index fs capabilities resource_types
      else if kind == "connector_binding"
      then parse_connector index fs capabilities resource_types
      else raise (fail "unknown_field" (at index <+> ".route has an unknown route kind"))
  parse_kind index kind _ capabilities resource_types =
      if kind == "harness_executor" || kind == "connector_binding"
      then raise (fail "invalid_route" (at index <+> ".route." <+> kind <+> " must be an object"))
      else raise (fail "unknown_field" (at index <+> ".route has an unknown route kind"))

  abbrev pub parse_entry :
      ℕ → Option (String × Value) → (capabilities resource_types : Option Value) → Check
  parse_entry index none capabilities resource_types =
      raise (fail "invalid_route" (at index <+> ".route must hold exactly one route kind"))
  parse_entry index (some (kind, value)) capabilities resource_types =
      parse_kind index kind value capabilities resource_types

  unfoldable pub parse_route : ℕ → Dict Value → Check
  parse_route index tool =
      parse_entry index (route_entry (fields_of (lookup "route" tool)))
        (lookup "required_capabilities" tool) (lookup "resource_types" tool)
