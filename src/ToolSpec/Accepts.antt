-- ===== src/ToolSpec/Accepts.antt =====
-- What a check that passes says, and what the parser makes of a written tool.
use agentware.Prelude.{
  ℕ, String, ◌≡◌, inl, inr, refl, Bool, true, false, ◌||◌, Option, none, some, List, [], ◌∷◌, All,
  elem, Dict, lookup, arith, Bool-cases, ◌==◌,
}
use agentware.Prelude.Value.{Value, Items, Fields, end, list}
use agentware.Prelude.Python.{Python}
use agentware.Prelude.Exec.{ok, raise, Error}
use agentware.ToolSpec.{ToolSpec, route_entry, wire_fields}
use agentware.Prelude.Checks.{Check, ◌>>◌}
use agentware.ToolSpec.Parse.{spec_of, check_all, parse_entry, parse_route}
use agentware.ToolSpec.Manifest.{
  check_resources, parse_resource_types, resources_of, parse_tool, check_fields, check_class,
  check_tool_route, check_unseen,
}

pub check_all-ok {ℓ} :
    {A : Type ℓ} (test : A → Bool) (error : A → Error) (xs : List A)
    → check_all test error xs ≡ ok tt
    → All (λ x. test x ≡ true) xs
unfolding check_all
check_all-ok test error [] h = tt
check_all-ok test error (x ∷ xs) h = elim (Bool-cases (test x)) [
  | inl e ↦ (e, check_all-ok test error xs (ground arith))
  | inr e ↦ ground arith
]

-- a declaration that can be written
abbrev pub routed :
    (name description service source operation_class : String)
    → Fields
    → (required_capabilities resource_types : Option Items) → Bool
    → ToolSpec
routed name description service source operation_class route capabilities resources enabled =
    record {
      name = name;
      description = description;
      parameters = end;
      service = some service;
      source = some source;
      operation_class = some operation_class;
      route = some route;
      required_capabilities = capabilities;
      resource_types = resources;
      enabled = enabled;
    }

abbrev pub listed : Option Items → Option Value
listed none = none
listed (some vs) = some (list vs)

module _ (py : Python) (index : ℕ) (seen : List String)
    (name description service source operation_class : String) (route : Fields)
    (name_ok : (name == "") ≡ false) (description_ok : (description == "") ≡ false)
    (service_ok : (service == "") ≡ false) (source_ok : (source == "") ≡ false)
    (class_text : (operation_class == "") ≡ false)
    (class_ok : (operation_class == "read" || operation_class == "write") ≡ true)
    (unseen : elem name seen ≡ false) where
  pub parse_tool-wire_fields :
      (capabilities resources : Option Items) (enabled : Bool)
      → parse_entry py index (route_entry route) (listed capabilities) (listed resources) ≡ ok tt
      → check_resources py index 0 (resources_of resources) ≡ ok tt
      → parse_tool py index
          (wire_fields (
            routed name description service source operation_class route capabilities resources
              enabled))
          seen
        ≡ ok (
            routed name description service source operation_class route capabilities resources
              enabled)
  unfolding parse_tool check_fields check_class check_tool_route check_unseen lookup check_all
      parse_route parse_resource_types
  parse_tool-wire_fields none none enabled h k =
      rw (name_ok, description_ok, service_ok, source_ok, class_text, class_ok, h, k, unseen) refl
  parse_tool-wire_fields none (some rs) enabled h k =
      rw (name_ok, description_ok, service_ok, source_ok, class_text, class_ok, h, k, unseen) refl
  parse_tool-wire_fields (some vs) none enabled h k =
      rw (name_ok, description_ok, service_ok, source_ok, class_text, class_ok, h, k, unseen) refl
  parse_tool-wire_fields (some vs) (some rs) enabled h k =
      rw (name_ok, description_ok, service_ok, source_ok, class_text, class_ok, h, k, unseen) refl

module _ (py : Python) (index : ℕ) (tool : Dict Value) (seen : List String) (spec : ToolSpec) where
  pub parts-of_parse_tool :
      parse_tool py index tool seen ≡ ok spec
      → (check_fields py index tool ≡ ok tt)
        × (check_class py index tool ≡ ok tt)
        × (check_tool_route py index tool ≡ ok tt)
        × (parse_resource_types py index tool ≡ ok tt)
        × (check_unseen py index tool seen ≡ ok tt)
        × (spec ≡ spec_of tool)
  unfolding parse_tool
  parts-of_parse_tool h =
      go (check_fields py index tool) (check_class py index tool) (check_tool_route py index tool)
        (parse_resource_types py index tool) (check_unseen py index tool seen) h
    where
      go :
          (a b c d e : Check)
          → (a >> b >> c >> d >> e >> ok (spec_of tool)) ≡ ok spec
          → (a ≡ ok tt)
            × (b ≡ ok tt)
            × (c ≡ ok tt)
            × (d ≡ ok tt)
            × (e ≡ ok tt)
            × (spec ≡ spec_of tool)
      go (ok _) (ok _) (ok _) (ok _) (ok _) h = (refl, refl, refl, refl, refl, cc h)
      go (raise x) b c d e h = cc h
      go (ok _) (raise x) c d e h = cc h
      go (ok _) (ok _) (raise x) d e h = cc h
      go (ok _) (ok _) (ok _) (raise x) e h = cc h
      go (ok _) (ok _) (ok _) (ok _) (raise x) h = cc h
