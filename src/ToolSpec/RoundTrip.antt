-- ===== src/ToolSpec/RoundTrip.antt =====
-- A manifest that was parsed can be written, and what was written parses again.
use agentware.Prelude.{
  subst, ℕ, suc, String, ◌≡◌, refl, sym, Option, none, some, List, [], ◌∷◌, map, Dict, lookup,
}
use agentware.Prelude.Value.{
  Value, dict, list, fields, object, fields-to_fields, items, items-to_items,
}
use agentware.Prelude.Python.{Python}
use agentware.Prelude.Exec.{Result, ok, raise}
use agentware.ToolSpec.{ToolSpec, wire_fields, to_wire, to_wires, manifest, serialize_tool_specs}
use agentware.Prelude.Checks.{◌>>=◌}
use agentware.ToolSpec.Parse.{spec_of, check_all}
use agentware.ToolSpec.Manifest.{parse_tool, parse_tools, parse_manifest_v3, parse_list}
use agentware.ToolSpec.Accepts.{parts-of_parse_tool}
use agentware.Prelude.Checks.{then-ok}
use agentware.ToolSpec.Writable.{bare, reparsed}

-- The parser only returns declarations that it read from an object.
spec-of_parse_tool :
    (py : Python) (index : ℕ) (tool : Dict Value) (seen : List String) (spec : ToolSpec)
    → parse_tool py index tool seen ≡ ok spec
    → spec ≡ spec_of tool
spec-of_parse_tool py index tool seen spec h =
    let (_, _, _, _, _, e) = parts-of_parse_tool py index tool seen spec h in e

-- What holds of a declaration that was parsed in a place.
abbrev CanRepeat : Python → ℕ → List String → ToolSpec → Type 0
CanRepeat py index seen spec =
    (to_wire spec ≡ ok (object (wire_fields spec)))
    × (parse_tool py index (wire_fields spec) seen ≡ ok (bare spec))

parsed-CanRepeat :
    (py : Python) (index : ℕ) (tool : Dict Value) (seen : List String) (spec : ToolSpec)
    → parse_tool py index tool seen ≡ ok spec
    → CanRepeat py index seen spec
parsed-CanRepeat py index tool seen spec h =
    subst (λ s. parse_tool py index tool seen ≡ ok s → CanRepeat py index seen s)
      (sym (spec-of_parse_tool py index tool seen spec h)) (reparsed py index tool seen) h

-- What holds of declarations that were parsed in a row.
abbrev AllRepeat : Python → ℕ → List String → List ToolSpec → Type 0
AllRepeat py index seen specs =
    (wires : List Value) × (to_wires specs ≡ ok wires)
    × (parse_tools py index wires seen ≡ ok (map bare specs))

cons-AllRepeat :
    (py : Python) (index : ℕ) (seen : List String) (spec : ToolSpec) (specs : List ToolSpec)
    → CanRepeat py index seen spec
    → AllRepeat py (suc index) (spec.name ∷ seen) specs
    → AllRepeat py index seen (spec ∷ specs)
unfolding parse_tools to_wires
cons-AllRepeat py index seen spec specs (wire, again) (wires, e, k) = (
  object (wire_fields spec) ∷ wires,
  rw (wire, e) refl,
  rw (fields-to_fields (wire_fields spec), again, k) refl,
)

parsed-AllRepeat :
    (py : Python) (index : ℕ) (vs : List Value) (seen : List String) (specs : List ToolSpec)
    → parse_tools py index vs seen ≡ ok specs
    → AllRepeat py index seen specs
unfolding parse_tools to_wires
parsed-AllRepeat py index [] seen [] h = ([], refl, refl)
parsed-AllRepeat py index [] seen (s ∷ ss) h = cc h
parsed-AllRepeat py index (dict tool ∷ vs) seen specs h =
    one (parse_tool py index (fields tool) seen) refl
      (λ spec rest. parsed-AllRepeat py (suc index) vs (spec.name ∷ seen) rest) h
  where
    more :
        (spec : ToolSpec) (r : Result (List ToolSpec))
        → CanRepeat py index seen spec
        → ((rest : List ToolSpec) → r ≡ ok rest → AllRepeat py (suc index) (spec.name ∷ seen) rest)
        → (r >>= λ rest. ok (spec ∷ rest)) ≡ ok specs
        → AllRepeat py index seen specs
    more spec (raise e) repeat again h = cc h
    more spec (ok rest) repeat again h =
        let e : spec ∷ rest ≡ specs = cc h in
        subst (AllRepeat py index seen) e
          (cons-AllRepeat py index seen spec rest repeat (again rest refl))

    one :
        (r : Result ToolSpec)
        → parse_tool py index (fields tool) seen ≡ r
        → ((spec : ToolSpec) (rest : List ToolSpec)
            → parse_tools py (suc index) vs (spec.name ∷ seen) ≡ ok rest
            → AllRepeat py (suc index) (spec.name ∷ seen) rest)
        → (r >>= λ spec.
            parse_tools py (suc index) vs (spec.name ∷ seen) >>= λ rest. ok (spec ∷ rest))
          ≡ ok specs
        → AllRepeat py index seen specs
    one (raise e) k again h = cc h
    one (ok spec) k again h =
        more spec (parse_tools py (suc index) vs (spec.name ∷ seen))
          (parsed-CanRepeat py index (fields tool) seen spec k) (again spec) h
parsed-AllRepeat py index (_ ∷ vs) seen specs h = cc h

-- What a manifest was parsed into can be serialized, and the result parses into the same
-- declarations, in the same order, less their parameters, which the manifest does not carry.
pub parse-serialize_tool_specs :
    (py : Python) (document : Option Value) (specs : List ToolSpec)
    → parse_manifest_v3 py document ≡ ok specs
    → (wire : Value) × (serialize_tool_specs specs ≡ ok wire)
      × (parse_manifest_v3 py (some wire) ≡ ok (map bare specs))
unfolding parse_manifest_v3 serialize_tool_specs lookup check_all
parse-serialize_tool_specs py none specs h = cc h
parse-serialize_tool_specs py (some (dict document)) specs h =
    go (lookup "tools" (fields document)) (then-ok _ _ specs h).1
  where
    go :
        (tools : Option Value)
        → parse_list py tools ≡ ok specs
        → (wire : Value) × (serialize_tool_specs specs ≡ ok wire)
          × (parse_manifest_v3 py (some wire) ≡ ok (map bare specs))
    go none h = cc h
    go (some (list vs)) h =
        let (wires, e, k) = parsed-AllRepeat py 0 (items vs) [] specs h in
        (
          manifest wires,
          rw (e, serialize_tool_specs) refl,
          rw (items-to_items wires, k, parse_manifest_v3) refl,
        )
    go (some _) h = cc h
parse-serialize_tool_specs py (some _) specs h = cc h
