-- ===== src/Guardrails/Validator/Calls.antt =====
-- Every call that the validator lets through names a known tool.
use agentware.Prelude.{
  String, ◌≡◌, ◌≢◌, ◌↔◌, inl, inr, refl, ap, true, false, Option, none, some, List, [], ◌∷◌, All,
  elem, length, subst, arith, Bool-cases, if_ind, ◌==◌,
}
use agentware.Prelude.Value.{Value, dict}
use agentware.Prelude.Exec.{Result, ok, raise}
use Prim.Native.Char.{Char}
use agentware.Guardrails.Validator.{
  ToolCall, ValidationResult, Patterns, ResponseValidator, unknown_names, valid_calls,
  validate_tool_calls, try_parse_tool_call, add_call, parse_candidates, candidates,
  extract_json_tool_calls, extract_rehearsal_tool_calls, extract_qwen_xml_tool_calls,
  rescue_tool_call, rehearsed, retry_result, validate_text_response,
}

-- A call of a known tool.
abbrev pub IsKnown : List String → ToolCall → Type 0
IsKnown names c = elem c.tool names ≡ true

unknown_names-nil :
    (names : List String) (cs : List ToolCall)
    → All (IsKnown names) cs
    → (unknown_names names cs ≡ []) × (valid_calls names cs ≡ cs)
unknown_names-nil names [] h = (refl, refl)
unknown_names-nil names (c ∷ cs) (k, h) =
    let (u, v) = unknown_names-nil names cs h in rw (k) (u, ap (◌∷◌ c) v)

IsKnown-of_nil :
    (names : List String) (cs : List ToolCall)
    → unknown_names names cs ≡ []
    → All (IsKnown names) cs
IsKnown-of_nil names [] h = tt
IsKnown-of_nil names (c ∷ cs) h = elim (Bool-cases (elem c.tool names)) [
  | inl e ↦ (e, IsKnown-of_nil names cs (ground arith))
  | inr e ↦ ground arith
]

-- A list of tool calls passes exactly if every one of them names a known tool, and then as it is.
-- Otherwise no call passes, and the retry comes with a nudge.
pub validate_tool_calls_iff :
    (v : ResponseValidator) (cs : List ToolCall)
    → (((validate_tool_calls v cs).needs_retry ≡ false) ↔ All (IsKnown v.tool_names) cs)
      × ((validate_tool_calls v cs).needs_retry ≡ false
          → (validate_tool_calls v cs).tool_calls ≡ cs)
      × ((validate_tool_calls v cs).needs_retry ≡ true
          → ((validate_tool_calls v cs).tool_calls ≡ [])
            × ((validate_tool_calls v cs).nudge ≢ none))
unfolding validate_tool_calls
validate_tool_calls_iff v cs = go (unknown_names v.tool_names cs) refl
  where
    go :
        (us : List String)
        → unknown_names v.tool_names cs ≡ us
        → (((validate_tool_calls v cs).needs_retry ≡ false) ↔ All (IsKnown v.tool_names) cs)
          × ((validate_tool_calls v cs).needs_retry ≡ false
              → (validate_tool_calls v cs).tool_calls ≡ cs)
          × ((validate_tool_calls v cs).needs_retry ≡ true
              → ((validate_tool_calls v cs).tool_calls ≡ [])
                × ((validate_tool_calls v cs).nudge ≢ none))
    go [] e =
        let known = IsKnown-of_nil v.tool_names cs e in
        rw (e, validate_tool_calls)
          ((λ _. known, λ _. refl), λ _. (unknown_names-nil v.tool_names cs known).1, λ h. cc h)
    go (u ∷ us) e =
        rw (e, validate_tool_calls)
          (
            (λ h. cc h, λ h. let empty = (unknown_names-nil v.tool_names cs h).0 in cc (e, empty)),
            λ h. cc h,
            λ _. (refl, λ h. cc h),
          )

-- A call that is parsed from a candidate names a known tool.
parsed-IsKnown :
    (p : Patterns) (names : List String) (candidate : List Char) (c : ToolCall)
    → try_parse_tool_call p names candidate ≡ ok (some c)
    → IsKnown names c
unfolding try_parse_tool_call
parsed-IsKnown p names candidate c h = ground arith

add_call-All :
    (names : List String) (o : Option ToolCall) (cs : List ToolCall)
    → ((c : ToolCall) → o ≡ some c → IsKnown names c)
    → All (IsKnown names) cs
    → All (IsKnown names) (add_call o cs)
add_call-All names none cs k h = h
add_call-All names (some c) cs k h = (k c refl, h)

-- A result whose calls, if it has any, are all of known tools.
abbrev AllKnown : List String → Result (List ToolCall) → Type 0
AllKnown names (ok cs) = All (IsKnown names) cs
AllKnown names (raise e) = Unit

parse_candidates-All :
    (p : Patterns) (names : List String) (ss : List (List Char))
    → AllKnown names (parse_candidates p names ss)
unfolding parse_candidates
parse_candidates-All p names [] = tt
parse_candidates-All p names (s ∷ ss) =
    go (try_parse_tool_call p names s) (parsed-IsKnown p names s) (parse_candidates p names ss)
      (parse_candidates-All p names ss)
  where
    go :
        (r : Result (Option ToolCall))
        → ((c : ToolCall) → r ≡ ok (some c) → IsKnown names c)
        → (rest : Result (List ToolCall)) → AllKnown names rest
        → AllKnown names (elim r as (λ _. Result (List ToolCall)) [
          | raise e ↦ raise e
          | ok call ↦ elim rest as (λ _. Result (List ToolCall)) [
            | raise e ↦ raise e
            | ok calls ↦ ok (add_call call calls)
          ]
        ])
    go (raise e) k rest h = tt
    go (ok call) k (raise e) h = tt
    go (ok call) k (ok calls) h = add_call-All names call calls (λ c e. k c (ap ok e)) h

rehearsal-All :
    (p : Patterns) (names : List String) (ms : List (String × String))
    → All (IsKnown names) (extract_rehearsal_tool_calls p names ms)
unfolding extract_rehearsal_tool_calls
rehearsal-All p names [] = tt
rehearsal-All p names ((name, args) ∷ ms) =
    if_ind (All (IsKnown names)) (elem name names)
      (λ e. known (p.loads_any args) e (rehearsal-All p names ms)) (λ _. rehearsal-All p names ms)
  where
    known :
        (o : Option Value)
        → elem name names ≡ true
        → All (IsKnown names) (extract_rehearsal_tool_calls p names ms)
        → All (IsKnown names) (rehearsed name o (extract_rehearsal_tool_calls p names ms))
    known (some (dict fs)) e h = (e, h)
    known none e h = h
    known (some _) e h = h

qwen-All :
    (p : Patterns) (names : List String) (ms : List (String × String))
    → All (IsKnown names) (extract_qwen_xml_tool_calls p names ms)
unfolding extract_qwen_xml_tool_calls
qwen-All p names [] = tt
qwen-All p names ((name, body) ∷ ms) =
    if_ind (All (IsKnown names)) (elem name names) (λ e. (e, qwen-All p names ms))
      (λ _. qwen-All p names ms)

rescue-All :
    (p : Patterns) (names : List String) (response : String)
    → AllKnown names (rescue_tool_call p names response)
unfolding rescue_tool_call extract_json_tool_calls
rescue-All p names response =
    if_ind (AllKnown names) (cleaned == "") (λ _. tt)
      (λ _. from_json (parse_candidates p names found) (parse_candidates-All p names found))
  where
    cleaned : String
    cleaned = p.clean response

    found : List (List Char)
    found = candidates (length (p.unfence cleaned)) (p.unfence cleaned)

    from_text :
        (cs : List ToolCall)
        → All (IsKnown names) cs
        → AllKnown names (elim cs as (λ _. Result (List ToolCall)) [
          | c ∷ cs ↦ ok (c ∷ cs)
          | [] ↦ ok (extract_qwen_xml_tool_calls p names (p.qwen_functions cleaned))
        ])
    from_text [] h = qwen-All p names (p.qwen_functions cleaned)
    from_text (c ∷ cs) h = h

    from_json :
        (r : Result (List ToolCall))
        → AllKnown names r
        → AllKnown names (elim r as (λ _. Result (List ToolCall)) [
          | raise e ↦ raise e
          | ok (c ∷ cs) ↦ ok (c ∷ cs)
          | ok [] ↦
              elim (extract_rehearsal_tool_calls p names (p.rehearsals cleaned))
                as (λ _. Result (List ToolCall)) [
                  | c ∷ cs ↦ ok (c ∷ cs)
                  | [] ↦ ok (extract_qwen_xml_tool_calls p names (p.qwen_functions cleaned))
                ]
        ])
    from_json (raise e) h = tt
    from_json (ok (c ∷ cs)) h = h
    from_json (ok []) h =
        from_text (extract_rehearsal_tool_calls p names (p.rehearsals cleaned))
          (rehearsal-All p names (p.rehearsals cleaned))

abbrev IsVerdict : ResponseValidator → ValidationResult → Type 0
IsVerdict v r =
    All (IsKnown v.tool_names) r.tool_calls
    × ((r.needs_retry ≡ true) ↔ (r.tool_calls ≡ []))
    × ((r.needs_retry ≡ false) ↔ (r.nudge ≡ none))
    × (v.rescue_enabled ≡ false → r.needs_retry ≡ true)

abbrev ReturnsVerdict : ResponseValidator → Result ValidationResult → Type 0
ReturnsVerdict v (ok r) = IsVerdict v r
ReturnsVerdict v (raise e) = Unit

retry-IsVerdict :
    (v : ResponseValidator) (response : String) → IsVerdict v (retry_result v response)
retry-IsVerdict v response = (tt, (λ _. refl, λ _. refl), (λ h. cc h, λ h. cc h), λ _. refl)

returns-verdict :
    (p : Patterns) (v : ResponseValidator) (response : String)
    → ReturnsVerdict v (validate_text_response p v response)
unfolding validate_text_response
returns-verdict p v response =
    if_ind (ReturnsVerdict v) v.rescue_enabled
      (λ enabled.
        go enabled (rescue_tool_call p v.tool_names response) (rescue-All p v.tool_names response))
      (λ _. retry-IsVerdict v response)
  where
    go :
        v.rescue_enabled ≡ true
        → (rescued : Result (List ToolCall)) → AllKnown v.tool_names rescued
        → ReturnsVerdict v (elim rescued as (λ _. Result ValidationResult) [
          | raise e ↦ raise e
          | ok [] ↦ ok (retry_result v response)
          | ok (c ∷ cs) ↦ ok (record { tool_calls = c ∷ cs; nudge = none; needs_retry = false })
        ])
    go enabled (raise e) k = tt
    go enabled (ok []) k = retry-IsVerdict v response
    go enabled (ok (c ∷ cs)) k =
        (k, (λ h. cc h, λ h. cc h), (λ _. refl, λ _. refl), λ h. cc (enabled, h))

-- Where validation returns, a text response that is accepted yields at least one call, all of them
-- of known tools and with no nudge; one that is not yields no call and a nudge. With rescue
-- disabled every text is a retry.
pub validate_text_response-IsKnown :
    (p : Patterns) (v : ResponseValidator) (response : String) (r : ValidationResult)
    → validate_text_response p v response ≡ ok r
    → All (IsKnown v.tool_names) r.tool_calls
      × ((r.needs_retry ≡ true) ↔ (r.tool_calls ≡ []))
      × ((r.needs_retry ≡ false) ↔ (r.nudge ≡ none))
      × (v.rescue_enabled ≡ false → r.needs_retry ≡ true)
validate_text_response-IsKnown p v response r h =
    subst (ReturnsVerdict v) h (returns-verdict p v response)
