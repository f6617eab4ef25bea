-- ===== src/Inference/Judging.antt =====
-- A response that passes the guardrails calls known tools only.
use agentware.Prelude.{
  String, ◌≡◌, refl, true, false, Option, none, some, List, [], ◌∷◌, All, elem, is_empty, not, ◌&&◌,
  if_ind, ◌==◌,
}
use agentware.Prelude.Exec.{Result, ok, raise}
use agentware.Prelude.Triple.{Outcome}
use agentware.Llm.{Response, ToolCall}
use agentware.Guardrails.Validator
use agentware.Guardrails.Validator.{
  ValidationResult, Patterns, ResponseValidator, validate_text_response,
}
use agentware.Guardrails.Validator.Calls.{
  IsKnown, validate_tool_calls_iff, validate_text_response-IsKnown,
}
use agentware.Inference.{
  ReasoningAdapter, Judged, judge, normalize, validate, guardrails_calls, rescued_calls,
  check_calls, check_text, with_rescued, text_checked, failed, after_validation,
}

-- Without a validator, every call is known.
abbrev pub CallsKnown : Option ResponseValidator → List ToolCall → Type 0
CallsKnown none calls = Unit
CallsKnown (some v) calls = All (λ c. elem c.name v.tool_names ≡ true) calls

known-of_guardrails :
    (names : List String) (calls : List ToolCall)
    → All (IsKnown names) (guardrails_calls calls)
    → All (λ c. elem c.name names ≡ true) calls
known-of_guardrails names [] h = tt
known-of_guardrails names (c ∷ cs) (k, h) = (k, known-of_guardrails names cs h)

known-rescued_calls :
    (names : List String) (calls : List Validator.ToolCall)
    → All (IsKnown names) calls
    → All (λ c. elem c.name names ≡ true) (rescued_calls calls)
known-rescued_calls names [] h = tt
known-rescued_calls names (c ∷ cs) (k, h) = (k, known-rescued_calls names cs h)

check_calls-CallsKnown :
    (validator : Option ResponseValidator) (calls : List ToolCall)
    → (check_calls validator (guardrails_calls calls)).needs_retry ≡ false
    → CallsKnown validator calls
check_calls-CallsKnown none calls h = tt
check_calls-CallsKnown (some v) calls h =
    known-of_guardrails v.tool_names calls
      ((validate_tool_calls_iff v (guardrails_calls calls)).0.0 h)

-- What the rest of a round needs of a validated response.
abbrev Fits : Option ResponseValidator → ValidationResult × Response → Type 0
Fits validator (result, resp) = result.needs_retry ≡ false → CallsKnown validator resp.tool_calls

no_calls : (validator : Option ResponseValidator) → CallsKnown validator []
no_calls none = tt
no_calls (some v) = tt

with_rescued-CallsKnown :
    (v : ResponseValidator) (resp : Response) (result : ValidationResult)
    → resp.tool_calls ≡ []
    → All (IsKnown v.tool_names) result.tool_calls
    → CallsKnown (some v) (with_rescued resp result).tool_calls
with_rescued-CallsKnown v resp result e h =
    if_ind (λ (r : Response). CallsKnown (some v) r.tool_calls)
      (not result.needs_retry && not (is_empty result.tool_calls))
      (λ _. known-rescued_calls v.tool_names result.tool_calls h) (λ _. rw e (no_calls (some v)))

text_checked-Fits :
    (p : Patterns) (validator : Option ResponseValidator) (resp : Response) (clean : String)
    → resp.tool_calls ≡ []
    → Outcome (Fits validator) (Unit {0}) (text_checked resp clean (check_text p validator clean))
text_checked-Fits p none resp clean e = λ _. tt
text_checked-Fits p (some v) resp clean e = go (validate_text_response p v clean) refl
  where
    go :
        (r : Result ValidationResult)
        → validate_text_response p v clean ≡ r
        → Outcome (Fits (some v)) (Unit {0}) (text_checked resp clean r)
    go (raise error) h = tt
    go (ok result) h =
        let known = (validate_text_response-IsKnown p v clean result h).0 in
        λ _.
          if_ind (λ (r : Response). CallsKnown (some v) r.tool_calls) (clean == "")
            (λ _. rw e (no_calls (some v))) (λ _. with_rescued-CallsKnown v resp result e known)

validate-Fits :
    (p : Patterns) (validator : Option ResponseValidator) (resp : Response) (clean : String)
    → Outcome (Fits validator) (Unit {0}) (validate p validator resp clean)
unfolding validate
validate-Fits p validator resp clean = go resp.tool_calls refl
  where
    go :
        (calls : List ToolCall)
        → resp.tool_calls ≡ calls
        → Outcome
            (Fits validator)
            (Unit {0})
            (elim calls as (λ _. Result (ValidationResult × Response)) [
              | tc ∷ tcs ↦ ok (check_calls validator (guardrails_calls (tc ∷ tcs)), resp)
              | [] ↦ text_checked resp clean (check_text p validator clean)
            ])
    go [] e = text_checked-Fits p validator resp clean e
    go (tc ∷ tcs) e = λ h. rw e (check_calls-CallsKnown validator (tc ∷ tcs) h)

-- A judged response that is not to be retried calls known tools only.
abbrev pub IsSound : {T : Type 0} → Option ResponseValidator → Judged T → Type 0
IsSound validator j = j.validation.needs_retry ≡ false → CallsKnown validator j.response.tool_calls

after_validation-IsSound :
    {T : Type 0} (validator : Option ResponseValidator) (tree : Option T) (clean : String)
    (r : Result (ValidationResult × Response))
    → Outcome (Fits validator) (Unit {0}) r
    → Outcome (IsSound validator) (Unit {0}) (after_validation tree clean r)
after_validation-IsSound validator tree clean (raise e) h = tt
after_validation-IsSound validator tree clean (ok (result, resp)) h = h

pub judge-IsSound :
    {T : Type 0} (p : Patterns) (validator : Option ResponseValidator)
    (reasoning : ReasoningAdapter T) (resp : Response)
    → Outcome (IsSound validator) (Unit {0}) (judge p validator reasoning resp)
unfolding judge
judge-IsSound {T = T} p validator reasoning resp = go (normalize reasoning resp)
  where
    go :
        (o : Option (Option T × String))
        → Outcome (IsSound validator) (Unit {0}) (elim o as (λ _. Result (Judged T)) [
          | none ↦ after_validation none "" (ok (failed, resp))
          | some (tree, clean) ↦ after_validation tree clean (validate p validator resp clean)
        ])
    go none = λ h. cc h
    go (some (tree, clean)) =
        after_validation-IsSound validator tree clean (validate p validator resp clean)
          (validate-Fits p validator resp clean)
