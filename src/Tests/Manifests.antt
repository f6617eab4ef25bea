-- ===== src/Tests/Manifests.antt =====
-- A manifest with one tool.
use agentware.Prelude.{lookup, ◌≡◌, refl, none, some, [], ◌∷◌, false, map}
use agentware.Prelude.Value.{Value, field, end, bool, str, object}
use agentware.Prelude.Exec.{ok}
use agentware.ToolSpec.{ToolSpec, manifest, serialize_tool_specs}
use agentware.ToolSpec.Parse.{check_all, parse_route}
use agentware.ToolSpec.Manifest.{
  parse_manifest_v3, parse_tools, parse_tool, check_fields, check_class, check_tool_route,
  check_unseen, parse_resource_types, check_resources,
}
use agentware.ToolSpec.Accepts.{routed}
use agentware.ToolSpec.Writable.{bare}
use agentware.ToolSpec.RoundTrip.{parse-serialize_tool_specs}
use agentware.Tests.Fixtures.{plain_python}

abbrev route : Value
route = object (
    ("harness_executor", object (("executor", str "local") ∷ ("registration", str "r1") ∷ [])) ∷ [])

abbrev tool : Value
tool = object (
    ("name", str "cat")
    ∷ ("description", str "Shows a file.")
    ∷ ("service", str "files")
    ∷ ("source", str "harness")
    ∷ ("operation_class", str "read")
    ∷ ("route", route)
    ∷ ("parameters", object (("type", str "object") ∷ []))
    ∷ ("enabled", bool false)
    ∷ [])

abbrev document : Value
document = manifest (tool ∷ [])

abbrev spec : ToolSpec
spec =
    record (routed "cat" "Shows a file." "files" "harness" "read"
      (field "harness_executor"
        (object (("executor", str "local") ∷ ("registration", str "r1") ∷ [])) end)
      none none false) { parameters = field "type" (str "object") end }

parse_manifest_v3-document : parse_manifest_v3 plain_python (some document) ≡ ok (spec ∷ [])
unfolding parse_manifest_v3 check_all parse_tools parse_tool check_fields check_class
    check_tool_route check_unseen parse_resource_types check_resources parse_route lookup
parse_manifest_v3-document = refl

parse-serialize_tool_specs_example :
    (wire : Value) × (serialize_tool_specs (spec ∷ []) ≡ ok wire)
    × (parse_manifest_v3 plain_python (some wire) ≡ ok (map bare (spec ∷ [])))
parse-serialize_tool_specs_example =
    parse-serialize_tool_specs plain_python (some document) (spec ∷ []) parse_manifest_v3-document
