-- ===== src/ToolSpec/Writable.antt =====
-- A tool that parses can be written, and what is written parses.
use agentware.Prelude.{
  ℕ, String, ◌≡◌, refl, Bool, true, false, ◌||◌, ◌&&◌, Option, none, some, List, elem, Dict, lookup,
  arith, ◌==◌, if◌then◌else◌,
}
use agentware.Prelude.Value.{Value, Fields, end, dict, str, list, fields, object, truthy}
use agentware.Prelude.Python.{Python}
use agentware.Prelude.Exec.{ok, raise, Error}
use agentware.ToolSpec.{
  ToolSpec, route_entry, wire_fields, check_entry, check_harness, check_connector, to_wire,
  has_value,
}
use agentware.Prelude.Checks.{Check, ◌>>◌, require}
use agentware.ToolSpec.Parse.{
  spec_of, parse_entry, parse_route, has_type, tool_field_types, true_unless, parse_harness,
  parse_connector, nonempty_str, get_nonempty, text_of, list_of, fields_of, is_list, has_exactly,
}
use agentware.ToolSpec.Manifest.{
  text_fields, class_ok, parse_resource_types, parse_tool, check_fields, check_class,
  check_tool_route, check_unseen,
}
use agentware.ToolSpec.Accepts.{check_all-ok, listed, parts-of_parse_tool, parse_tool-wire_fields}
use agentware.Prelude.Checks.{then-ok, require-ok}

text-of_nonempty :
    (o : Option Value)
    → (elim o as (λ _. Bool) [ none ↦ false | some v ↦ nonempty_str v ]) ≡ true
    → (text_of o == "") ≡ false
text-of_nonempty (some (str s)) h = ground arith
text-of_nonempty none h = cc h
text-of_nonempty (some _) h = cc h

listed-of_typed :
    (o : Option Value)
    → (elim o as (λ _. Bool) [ none ↦ true | some v ↦ is_list v ]) ≡ true
    → listed (list_of o) ≡ o
listed-of_typed none h = refl
listed-of_typed (some (list vs)) h = refl
listed-of_typed (some _) h = cc h

has_value-of_nonempty :
    (key : String) (fs : Fields) → get_nonempty key (fields fs) ≡ true → has_value key fs ≡ true
has_value-of_nonempty key fs h = go (lookup key (fields fs)) h
  where
    go :
        (o : Option Value)
        → (elim o as (λ _. Bool) [ none ↦ false | some v ↦ nonempty_str v ]) ≡ true
        → (elim o as (λ _. Bool) [ none ↦ false | some v ↦ truthy v ]) ≡ true
    go (some (str s)) h = ground arith
    go none h = cc h
    go (some _) h = cc h

exactly-has_values :
    (a b : String) (fs : Fields)
    → has_exactly a b fs ≡ true
    → (has_value a fs && has_value b fs) ≡ true
exactly-has_values a b fs h = ground (arith, has_value-of_nonempty a fs, has_value-of_nonempty b fs)

-- the first of three checks
first-ok :
    (test : Bool) (error : Error) (a b : Check)
    → (require test error >> a >> b) ≡ ok tt
    → test ≡ true
first-ok test error a b h =
    require-ok test error
      (then-ok (require test error) a tt (then-ok (require test error >> a) b tt h).0).0

module _ (py : Python) (index : ℕ) (capabilities resources : Option Value) where
  kind-ok :
      (harness connector : Bool) (fs : Fields) (e e' : Error)
      → (if harness
          then parse_harness py index fs capabilities resources
          else if connector
          then parse_connector py index fs capabilities resources
          else raise e)
        ≡ ok tt
      → (if harness then check_harness fs else if connector then check_connector fs else raise e')
        ≡ ok tt
  kind-ok true connector fs e e' h =
      rw (exactly-has_values "executor" "registration" fs (first-ok _ _ _ _ h)) refl
  kind-ok false true fs e e' h =
      rw (exactly-has_values "agent_id" "connector_id" fs (first-ok _ _ _ _ h)) refl
  kind-ok false false fs e e' h = cc h

  not_object-ok :
      (known : Bool) (e e' : Error) (P : Type 0)
      → (if known then raise e else raise e') ≡ ok (tt {0})
      → P
  not_object-ok true e e' P h = absurd (cc h)
  not_object-ok false e e' P h = absurd (cc h)

  -- A route that the parser accepts can be written.
  entry-ok :
      (entry : Option (String × Value))
      → parse_entry py index entry capabilities resources ≡ ok tt
      → check_entry entry ≡ ok tt
  entry-ok none h = cc h
  entry-ok (some (kind, dict fs)) h =
      kind-ok (kind == "harness_executor") (kind == "connector_binding") fs _ _ h
  entry-ok (some (kind, _)) h =
      not_object-ok (kind == "harness_executor" || kind == "connector_binding") _ _ _ h

-- what the manifest keeps of a declaration
abbrev pub bare : ToolSpec → ToolSpec
bare spec = record spec { parameters = end }

to_wire-routed :
    (spec : ToolSpec) (service source operation_class : String) (route : Fields)
    → spec.service ≡ some service
    → spec.source ≡ some source
    → spec.operation_class ≡ some operation_class
    → spec.route ≡ some route
    → (service == "") ≡ false
    → (source == "") ≡ false
    → (operation_class == "") ≡ false
    → (operation_class == "read" || operation_class == "write") ≡ true
    → check_entry (route_entry route) ≡ ok tt
    → to_wire spec ≡ ok (object (wire_fields spec))
unfolding to_wire
to_wire-routed spec service source operation_class route a b c d e f g h k =
    simp (a, b, c, d, e, f, g, h, k)

module _ (py : Python) (index : ℕ) (tool : Dict Value) (seen : List String) where
  typed-of_fields :
      check_fields py index tool ≡ ok tt
      → (get_nonempty "name" tool ≡ true)
        × (get_nonempty "description" tool ≡ true)
        × (get_nonempty "service" tool ≡ true)
        × (get_nonempty "source" tool ≡ true)
        × (has_type tool ("required_capabilities", is_list) ≡ true)
        × (has_type tool ("resource_types", is_list) ≡ true)
  unfolding check_fields
  typed-of_fields h =
      let (before, texts) = then-ok _ _ tt h in
      let (_, types) = then-ok _ _ tt before in
      let typed = check_all-ok (has_type tool) _ tool_field_types types in
      let nonempty = check_all-ok (λ key. get_nonempty key tool) _ text_fields texts in
      (
        nonempty.0, nonempty.1.0, nonempty.1.1.0, nonempty.1.1.1.0, typed.1.1.1.1.1.1.0,
        typed.1.1.1.1.1.1.1.0,
      )

  classed-of_class :
      check_class py index tool ≡ ok tt
      → (get_nonempty "operation_class" tool ≡ true) × (class_ok tool ≡ true)
  unfolding check_class
  classed-of_class h =
      let (nonempty, known) = then-ok _ _ tt h in (require-ok _ _ nonempty, require-ok _ _ known)

  entry-of_route :
      check_tool_route py index tool ≡ ok tt
      → parse_entry py index
          (route_entry (fields_of (lookup "route" tool)))
          (lookup "required_capabilities" tool)
          (lookup "resource_types" tool)
        ≡ ok tt
  unfolding check_tool_route parse_route
  entry-of_route h = (then-ok _ _ tt h).1

  unseen-of_check :
      check_unseen py index tool seen ≡ ok tt → elem (text_of (lookup "name" tool)) seen ≡ false
  unfolding check_unseen
  unseen-of_check h = let b = require-ok _ _ h in ground arith

  -- A tool that parses can be written, and what is written parses in the same place.
  pub reparsed :
      parse_tool py index tool seen ≡ ok (spec_of tool)
      → (to_wire (spec_of tool) ≡ ok (object (wire_fields (spec_of tool))))
        × (parse_tool py index (wire_fields (spec_of tool)) seen ≡ ok (bare (spec_of tool)))
  unfolding parse_resource_types
  reparsed h =
      let (fields, class, route, resources, new, _) =
        parts-of_parse_tool py index tool seen (spec_of tool) h in
      let (n, d, s, o, capability_list, resource_list) = typed-of_fields fields in
      let (c, known) = classed-of_class class in
      let entry = entry-of_route route in
      let service = text-of_nonempty (lookup "service" tool) s in
      let source = text-of_nonempty (lookup "source" tool) o in
      let class_text = text-of_nonempty (lookup "operation_class" tool) c in
      (
        to_wire-routed (spec_of tool) _ _ _ _ refl refl refl refl service source class_text known (
            entry-ok py index (lookup "required_capabilities" tool) (lookup "resource_types" tool)
              (route_entry (fields_of (lookup "route" tool))) entry),
        parse_tool-wire_fields py index seen (text_of (lookup "name" tool))
            (text_of (lookup "description" tool)) (text_of (lookup "service" tool))
            (text_of (lookup "source" tool)) (text_of (lookup "operation_class" tool))
            (fields_of (lookup "route" tool)) (text-of_nonempty (lookup "name" tool) n)
            (text-of_nonempty (lookup "description" tool) d) service source class_text known
            (unseen-of_check new) (list_of (lookup "required_capabilities" tool))
            (list_of (lookup "resource_types" tool)) (true_unless (lookup "enabled" tool))
            (rw
              (
                listed-of_typed (lookup "required_capabilities" tool) capability_list,
                listed-of_typed (lookup "resource_types" tool) resource_list,
              )
              entry)
            resources,
      )
