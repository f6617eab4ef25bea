-- ===== src/ToolSpec.antt =====
-- python/src/haikeilabs/agentware/toolspec/__init__.py: declarations of tools, their manifest, and the
-- strict parser of a manifest. Reading a file, and its JSON text, is left out.
pub mod Parse
pub mod Manifest
pub mod Accepts
pub mod Writable
pub mod RoundTrip
use agentware.Prelude.{
  ℕ, String, Bool, true, false, not, ◌&&◌, ◌||◌, Option, none, some, List, [], ◌∷◌, ◌++◌, map, Dict,
  lookup, elem, nat_eq, ◌==◌, if◌then◌else◌,
}
use agentware.Prelude.Value.{
  Value, Items, Fields, null, end, field, bool, str, list, dict, fields, array, object, truthy,
}
use agentware.Prelude.Checks.{Check, ◌>>=◌, ◌>>◌, require}
use agentware.Prelude.Exec.{Result, ok, raise, Error, value_error, manifest_error}

-- Objects and arrays that are carried as they are have the type of a JSON object or array.
pub record ToolSpec : Type 0 where
  pub name : String
  pub description : String
  pub parameters : Fields
  pub service : Option String
  pub source : Option String
  pub operation_class : Option String
  pub route : Option Fields
  pub required_capabilities : Option Items
  pub resource_types : Option Items
  pub enabled : Bool

abbrev pub manifest_schema : String
manifest_schema = "kei.tool-manifest/v3"

abbrev pub has_text : Option String → Bool
has_text none = false
has_text (some s) = not (s == "")

-- `value.get(key)` is truthy
abbrev pub has_value : String → Fields → Bool
has_value key fs = elim (lookup key (fields fs)) [ none ↦ false | some v ↦ truthy v ]

-- the kind and the fields of a route that has one kind
abbrev pub route_entry : Fields → Option (String × Value)
route_entry (field kind value end) = some (kind, value)
route_entry _ = none

abbrev pub check_harness : Fields → Check
check_harness fs =
    require (has_value "executor" fs && has_value "registration" fs)
      (value_error "harness_executor route requires executor and registration")

abbrev pub check_connector : Fields → Check
check_connector fs =
    require (has_value "agent_id" fs && has_value "connector_id" fs)
      (value_error "connector_binding route requires agent_id and connector_id")

abbrev pub route_error : Error
route_error = value_error "route must contain exactly one route kind"

abbrev pub check_entry : Option (String × Value) → Check
check_entry (some (kind, dict fs)) =
    if kind == "harness_executor"
    then check_harness fs
    else if kind == "connector_binding"
    then check_connector fs
    else raise route_error
check_entry _ = raise route_error

abbrev pub has_route : Option Fields → Bool
has_route none = false
has_route (some route) = true

abbrev pub check_route : Option Fields → Check
check_route none = raise route_error
check_route (some route) = check_entry (route_entry route)

-- a field that is written where the declaration has it
abbrev pub text_value : Option String → Value
text_value none = null
text_value (some s) = str s

abbrev pub route_value : Option Fields → Value
route_value none = null
route_value (some route) = dict route

abbrev pub if_given : String → Option Items → Dict Value
if_given key none = []
if_given key (some vs) = (key, list vs) ∷ []

abbrev pub wire_fields : ToolSpec → Dict Value
wire_fields spec =
    ("name", str spec.name)
    ∷ ("service", text_value spec.service)
    ∷ ("source", text_value spec.source)
    ∷ ("operation_class", text_value spec.operation_class)
    ∷ ("route", route_value spec.route)
    ∷ (if_given "required_capabilities" spec.required_capabilities
        ++ (if_given "resource_types" spec.resource_types
            ++ ("description", str spec.description) ∷ ("enabled", bool spec.enabled) ∷ []))

abbrev pub is_operation_class : Option String → Bool
is_operation_class none = false
is_operation_class (some s) = s == "read" || s == "write"

unfoldable pub to_wire : ToolSpec → Result Value
to_wire spec =
    require (has_text spec.service) (value_error "service is required")
    >> require (has_text spec.source) (value_error "source is required")
    >> require (has_text spec.operation_class) (value_error "operation_class is required")
    >> require (has_route spec.route) (value_error "route is required")
    >> require (is_operation_class spec.operation_class)
        (value_error "operation_class must be read or write")
    >> check_route spec.route
    >> ok (object (wire_fields spec))

-- `[spec.to_wire() for spec in specs]`
unfoldable pub to_wires : List ToolSpec → Result (List Value)
unfolding to_wire
to_wires [] = ok []
to_wires (spec ∷ specs) = to_wire spec >>= λ wire. to_wires specs >>= λ wires. ok (wire ∷ wires)

abbrev pub manifest : List Value → Value
manifest wires = object (("schema", str manifest_schema) ∷ ("tools", array wires) ∷ [])

unfoldable pub serialize_tool_specs : List ToolSpec → Result Value
unfolding to_wires
serialize_tool_specs specs = to_wires specs >>= λ wires. ok (manifest wires)
