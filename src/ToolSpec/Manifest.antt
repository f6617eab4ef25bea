-- ===== src/ToolSpec/Manifest.antt =====
-- `_parse_resource_types`, `_parse_tool` and `parse_manifest_v3`. The set of names is a list.
use agentware.Prelude.{
  ℕ, suc, String, Bool, true, not, ◌||◌, Option, none, some, List, [], ◌∷◌, Dict, lookup, elem,
  keys, is_some, default, ◌<+>◌, ◌==◌,
}
use agentware.Prelude.Value.{Value, Items, null, int, pos, list, dict, items, fields, is_text}
use agentware.Prelude.Python.{Python}
use agentware.Prelude.Exec.{Result, ok, raise}
use agentware.ToolSpec.{ToolSpec, manifest_schema}
use agentware.Prelude.Checks.{Check, ◌>>=◌, ◌>>◌, require}
use agentware.ToolSpec.Parse.{
  fail, get_nonempty, check_all, is_str, tool_field_types, has_type, text_of, list_of, spec_of, at,
  parse_route,
}

-- `"parent_type" in entry and not isinstance(entry["parent_type"], str)`, negated
abbrev pub parent_ok : Option Value → Bool
parent_ok none = true
parent_ok (some v) = is_str v

abbrev pub text_fields : List String
text_fields = "name" ∷ "description" ∷ "service" ∷ "source" ∷ []

abbrev pub class_ok : Dict Value → Bool
class_ok tool =
    let operation_class = text_of (lookup "operation_class" tool) in
    operation_class == "read" || operation_class == "write"

-- `tool.get("resource_types") or []`
abbrev pub resources_of : Option Items → List Value
resources_of none = []
resources_of (some vs) = items vs

module _ (py : Python) where
  abbrev pub in_resources : ℕ → ℕ → String
  in_resources index position =
      at py index <+> ".resource_types[" <+> py.to_text (int (pos position)) <+> "]"

  abbrev pub check_resource : ℕ → ℕ → Value → Check
  check_resource index position (dict fs) =
      require (get_nonempty "type" (fields fs))
        (fail "missing_field" (in_resources index position <+> ".type is missing or empty"))
      >> require (parent_ok (lookup "parent_type" (fields fs)))
          (fail "invalid_type" (in_resources index position <+> ".parent_type must be a string"))
  check_resource index position _ =
      raise (fail "invalid_type" (in_resources index position <+> " must be an object"))

  unfoldable pub check_resources : ℕ → ℕ → List Value → Check
  check_resources index position [] = ok tt
  check_resources index position (v ∷ vs) =
      check_resource index position v >> check_resources index (suc position) vs

  unfoldable pub parse_resource_types : ℕ → Dict Value → Check
  parse_resource_types index tool =
      check_resources index 0 (resources_of (list_of (lookup "resource_types" tool)))

  -- known fields of the right types, and the texts that may not be empty
  unfoldable pub check_fields : ℕ → Dict Value → Check
  check_fields index tool =
      check_all (λ key. elem key (keys tool_field_types))
        (λ _. fail "unknown_field" (at py index <+> " has an unknown field")) (keys tool)
      >> check_all (has_type tool)
          (λ e. fail "invalid_type" (at py index <+> "." <+> e.0 <+> " has the wrong type"))
          tool_field_types
      >> check_all (λ key. get_nonempty key tool)
          (λ key. fail "missing_field" (at py index <+> "." <+> key <+> " is missing or empty"))
          text_fields

  unfoldable pub check_class : ℕ → Dict Value → Check
  check_class index tool =
      require (get_nonempty "operation_class" tool)
        (fail "missing_field" (at py index <+> ".operation_class is missing or empty"))
      >> require (class_ok tool) (
          fail "invalid_operation_class" (at py index <+> ".operation_class must be read or write"))

  unfoldable pub check_tool_route : ℕ → Dict Value → Check
  check_tool_route index tool =
      require (is_some (lookup "route" tool))
        (fail "missing_field" (at py index <+> ".route is missing"))
      >> parse_route py index tool

  unfoldable pub check_unseen : ℕ → Dict Value → List String → Check
  check_unseen index tool seen_names =
      require (not (elem (text_of (lookup "name" tool)) seen_names))
        (fail "duplicate_tool_name" (at py index <+> " repeats a tool name"))

  unfoldable pub parse_tool : ℕ → Dict Value → List String → Result ToolSpec
  parse_tool index tool seen_names =
      check_fields index tool
      >> check_class index tool
      >> check_tool_route index tool
      >> parse_resource_types index tool
      >> check_unseen index tool seen_names
      >> ok (spec_of tool)

  -- the loop over the tools, which adds each name to those that were seen
  unfoldable pub parse_tools : ℕ → List Value → List String → Result (List ToolSpec)
  parse_tools index [] seen = ok []
  parse_tools index (dict tool ∷ vs) seen = parse_tool index (fields tool) seen >>= λ spec.
      parse_tools (suc index) vs (spec.name ∷ seen) >>= λ specs. ok (spec ∷ specs)
  parse_tools index (_ ∷ vs) seen =
      raise (fail "invalid_type" (at py index <+> " must be an object"))

  abbrev pub parse_list : Option Value → Result (List ToolSpec)
  parse_list none = raise (fail "missing_field" "the manifest is missing tools")
  parse_list (some (list vs)) = parse_tools 0 (items vs) []
  parse_list (some _) = raise (fail "invalid_type" "tools must be an array")

  abbrev pub parse_object : Dict Value → Result (List ToolSpec)
  parse_object document =
      require (is_text manifest_schema (default null (lookup "schema" document)))
        (fail "unsupported_schema" ("the manifest schema is not " <+> manifest_schema))
      >> check_all (λ key. elem key ("schema" ∷ "tools" ∷ []))
          (λ _. fail "unknown_field" "the manifest has an unknown field") (keys document)
      >> parse_list (lookup "tools" document)

  -- `none` is a text that is not valid JSON.
  unfoldable pub parse_manifest_v3 : Option Value → Result (List ToolSpec)
  parse_manifest_v3 none = raise (fail "invalid_json" "the manifest is not valid JSON")
  parse_manifest_v3 (some (dict document)) = parse_object (fields document)
  parse_manifest_v3 (some _) = raise (fail "invalid_type" "the manifest must be a JSON object")
