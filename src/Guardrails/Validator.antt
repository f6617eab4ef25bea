-- ===== src/Guardrails/Validator.antt =====
-- guardrails/response_validator.py. Regular expressions and `json.loads` are given from outside; the
-- text is a list of code points where the code walks it. A set of names is the list of its members.
pub mod Calls
pub mod Scanner
use Prim.Native.Char.{Char, code}
use agentware.Prelude.{
  ℕ, zero, suc, ◌+◌, ◌-◌, String, Bool, true, false, not, ◌&&◌, Option, none, some, List, [], ◌∷◌,
  ◌++◌, length, is_empty, keep, elem, Dict, lookup, insert, default, nat_eq, ◌==◌, if◌then◌else◌,
}
use agentware.Prelude.Value.{Value, null, bool, int, float, str, list, dict, object, truthy}
use agentware.Prelude.Exec.{Result, ok, raise, type_error}
use agentware.Guardrails.Nudge.{Nudge, unknown_tool_nudge}

pub record ToolCall : Type 0 where
  pub tool : String
  pub args : Value

pub record ValidationResult : Type 0 where
  pub tool_calls : List ToolCall
  pub nudge : Option Nudge
  pub needs_retry : Bool

-- What the compiled patterns and the JSON parser do. `loads` answers for a text that begins with a
-- brace, so its value is an object, and `none` stands for `JSONDecodeError`; `loads_any` answers for
-- any text.
pub record Patterns : Type 0 where
  -- both `sub` calls and `strip` of `_rescue_tool_call`
  pub clean : String → String
  -- the `sub` call and `strip` of `_extract_json_tool_calls`
  pub unfence : String → List Char
  pub loads : List Char → Option (Dict Value)
  pub loads_any : String → Option Value
  pub rehearsals : String → List (String × String)
  pub qwen_functions : String → List (String × String)
  pub qwen_parameters : String → List (String × String)

pub record ResponseValidator : Type 0 where
  pub tool_names : List String
  pub rescue_enabled : Bool
  pub retry_nudge_fn : String → List String → Nudge

abbrev pub unknown_names : List String → List ToolCall → List String
unknown_names names [] = []
unknown_names names (c ∷ cs) =
    let rest = unknown_names names cs in if elem c.tool names then rest else c.tool ∷ rest

abbrev pub valid_calls : List String → List ToolCall → List ToolCall
valid_calls names cs = keep (λ c. elem c.tool names) cs

unfoldable pub validate_tool_calls : ResponseValidator → List ToolCall → ValidationResult
validate_tool_calls v calls = elim (unknown_names v.tool_names calls) [
  | [] ↦ record { tool_calls = valid_calls v.tool_names calls; nudge = none; needs_retry = false }
  | name ∷ _ ↦ record {
    tool_calls = [];
    nudge = some (unknown_tool_nudge name v.tool_names);
    needs_retry = true;
  }
]

-- `a or b` on the values of a dictionary
abbrev pub get_or_get : Dict Value → String → String → Value
get_or_get found first second =
    let v = default null (lookup first found) in
    if truthy v then v else default null (lookup second found)

-- `tool_name not in self.tool_names`: a list or a dictionary cannot be looked up in a set
abbrev pub known_name : List String → Value → Result (Option String)
known_name names (str s) = ok (if elem s names then some s else none)
known_name names (list _) = raise (type_error "unhashable type: 'list'")
known_name names (dict _) = raise (type_error "unhashable type: 'dict'")
known_name names _ = ok none

abbrev pub call_with : Dict Value → Option String → Option ToolCall
call_with found none = none
call_with found (some name) =
    let args = get_or_get found "args" "arguments" in
    some (record { tool = name; args = if truthy args then args else object [] })

abbrev then_call : Dict Value → Result (Option String) → Result (Option ToolCall)
then_call found (ok name) = ok (call_with found name)
then_call found (raise e) = raise e

unfoldable pub try_parse_tool_call : Patterns → List String → List Char → Result (Option ToolCall)
unfolding lookup
try_parse_tool_call p names candidate = elim (p.loads candidate) [
  | none ↦ ok none
  | some found ↦
      let name = get_or_get found "tool" "name" in
      if truthy name then then_call found (known_name names name) else ok none
]

abbrev pub is_open : Char → Bool
is_open c = nat_eq (code c) b'{'

abbrev pub is_close : Char → Bool
is_close c = nat_eq (code c) b'}'

abbrev pub with_char : Char → Option (List Char × List Char) → Option (List Char × List Char)
with_char c none = none
with_char c (some (candidate, rest)) = some (c ∷ candidate, rest)

-- The inner loop, from `j` on at a depth: the rest of the candidate, up to the brace that closes it,
-- and what follows; `none` where the text ends first.
unfoldable pub close : ℕ → List Char → Option (List Char × List Char)
close depth [] = none
close depth (c ∷ s) =
    let deeper = with_char c (close (suc depth) s) in
    let shallower = with_char c (close (depth - 1) s) in
    let same = with_char c (close depth s) in
    if is_open c
    then deeper
    else if is_close c
    then (if nat_eq depth 1 then some (c ∷ [], s) else shallower)
    else same

-- The outer loop: the candidates in order. Each round shortens the text, so its length is fuel
-- enough.
unfoldable pub candidates : ℕ → List Char → List (List Char)
candidates zero s = []
candidates (suc fuel) [] = []
candidates (suc fuel) (c ∷ s) =
    let next = candidates fuel s in
    let closed : List (List Char) = elim (close 0 (c ∷ s)) [
      | none ↦ candidates fuel s
      | some (candidate, rest) ↦ candidate ∷ candidates fuel rest
    ] in
    if is_open c then closed else next

-- The calls of the candidates that parse to a known tool; an exception of one ends the loop.
abbrev pub add_call : Option ToolCall → List ToolCall → List ToolCall
add_call none calls = calls
add_call (some c) calls = c ∷ calls

unfoldable pub parse_candidates : Patterns → List String → List (List Char) → Result (List ToolCall)
parse_candidates p names [] = ok []
parse_candidates p names (s ∷ ss) = elim (try_parse_tool_call p names s) [
  | raise e ↦ raise e
  | ok call ↦ elim (parse_candidates p names ss) [
    | raise e ↦ raise e
    | ok calls ↦ ok (add_call call calls)
  ]
]

unfoldable pub extract_json_tool_calls : Patterns → List String → String → Result (List ToolCall)
unfolding candidates parse_candidates
extract_json_tool_calls p names text =
    let cleaned = p.unfence text in parse_candidates p names (candidates (length cleaned) cleaned)

-- only an object counts as arguments
abbrev rehearsed : String → Option Value → List ToolCall → List ToolCall
rehearsed name (some (dict fs)) rest = record { tool = name; args = dict fs } ∷ rest
rehearsed name _ rest = rest

unfoldable pub extract_rehearsal_tool_calls :
    Patterns → List String → List (String × String) → List ToolCall
extract_rehearsal_tool_calls p names [] = []
extract_rehearsal_tool_calls p names ((name, args) ∷ matches) =
    let rest = extract_rehearsal_tool_calls p names matches in
    if elem name names then rehearsed name (p.loads_any args) rest else rest

-- `removeprefix("\n")` and `removesuffix("\n")`
abbrev drop_first_newline : String → String
drop_first_newline String.[] = ""
drop_first_newline (String.◌∷◌ c s) = if nat_eq (code c) 10 then s else String.◌∷◌ c s

abbrev drop_last_newline : String → String
drop_last_newline String.[] = ""
drop_last_newline (String.◌∷◌ c String.[]) =
    if nat_eq (code c) 10 then "" else String.◌∷◌ c String.[]
drop_last_newline (String.◌∷◌ c (String.◌∷◌ d s)) =
    String.◌∷◌ c (drop_last_newline (String.◌∷◌ d s))

unfoldable pub qwen_args : Dict Value → List (String × String) → Dict Value
unfolding insert
qwen_args args [] = args
qwen_args args ((key, raw) ∷ matches) =
    qwen_args (insert key (str (drop_last_newline (drop_first_newline raw))) args) matches

unfoldable pub extract_qwen_xml_tool_calls :
    Patterns → List String → List (String × String) → List ToolCall
unfolding qwen_args
extract_qwen_xml_tool_calls p names [] = []
extract_qwen_xml_tool_calls p names ((name, body) ∷ matches) =
    let rest = extract_qwen_xml_tool_calls p names matches in
    if elem name names
    then record { tool = name; args = object (qwen_args [] (p.qwen_parameters body)) } ∷ rest
    else rest

unfoldable pub rescue_tool_call : Patterns → List String → String → Result (List ToolCall)
rescue_tool_call p names response =
    let cleaned = p.clean response in
    if cleaned == "" then ok [] else elim (extract_json_tool_calls p names cleaned) [
      | raise e ↦ raise e
      | ok (c ∷ cs) ↦ ok (c ∷ cs)
      | ok [] ↦ elim (extract_rehearsal_tool_calls p names (p.rehearsals cleaned)) [
        | c ∷ cs ↦ ok (c ∷ cs)
        | [] ↦ ok (extract_qwen_xml_tool_calls p names (p.qwen_functions cleaned))
      ]
    ]

abbrev pub retry_result : ResponseValidator → String → ValidationResult
retry_result v response = record {
  tool_calls = [];
  nudge = some (v.retry_nudge_fn response v.tool_names);
  needs_retry = true;
}

unfoldable pub validate_text_response :
    Patterns → ResponseValidator → String → Result ValidationResult
validate_text_response p v response =
    if v.rescue_enabled
    then elim (rescue_tool_call p v.tool_names response) [
      | raise e ↦ raise e
      | ok [] ↦ ok (retry_result v response)
      | ok (c ∷ cs) ↦ ok (record { tool_calls = c ∷ cs; nudge = none; needs_retry = false })
    ]
    else ok (retry_result v response)
