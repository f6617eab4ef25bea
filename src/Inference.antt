-- ===== src/Inference.antt =====
-- python/src/haikeilabs/agentware/middleware/inference.py: `run_inference`, which asks the backend until
-- a response passes the guardrails. The backend is given from outside, and so is the extraction of
-- reasoning. The serialized tool specifications are built and never read.
pub mod Loop
pub mod Attempts
pub mod Judging
use agentware.Prelude.{
  ℕ, zero, suc, String, Bool, true, false, not, ◌&&◌, ◌||◌, Option, none, some, List, [], ◌∷◌, ◌++◌,
  map, length, is_empty, nat_eq, ltb, leb, ◌<+>◌, ◌==◌, if◌then◌else◌,
}
use agentware.Prelude.Value.{int, pos}
use agentware.Prelude.Python.{Python}
use agentware.Prelude.Exec.{
  Exec, Result, Error, ok, raise, retries_exhausted, throw, lift, pure, ◌>>=◌,
}
use agentware.Types.{MessageType, context_warning, step_nudge, retry_nudge, text_response}
use agentware.Llm.{Role, user, assistant, Message, new_message, Response, Backend, ToolCall}
use agentware.Context.Window
use agentware.Context.Window.{
  Ratios, ContextWindowManager, should_compact, compact, check_thresholds, update_token_count,
}
use agentware.Guardrails.Nudge
use agentware.Guardrails.StepEnforcer.{StepEnforcer, can_execute}
use agentware.Guardrails.ErrorTracker.{ErrorTracker, unknown, record_error, reset_session}
use agentware.Guardrails.Validator
use agentware.Guardrails.Validator.{
  ValidationResult, Patterns, ResponseValidator, validate_tool_calls, validate_text_response,
}

-- `extract` and `strip` of a content and a native reasoning: the tree and the content without
-- reasoning, or `none` for `ReasoningError`.
abbrev pub ReasoningAdapter : Type 0 → Type 0
ReasoningAdapter T = String → String → Option (T × String)

-- What the configuration holds and the loop only reads. The clock is read twice for an error, whose
-- text is that of `str`.
pub record InferenceConfig {ℓ} (T : Type 0) (W : Type ℓ) : Type ℓ where
  pub client : Backend W
  pub validator : Option ResponseValidator
  pub step_enforcer : Option StepEnforcer
  pub max_attempts : ℕ
  pub reasoning : ReasoningAdapter T
  pub clock : W → ℕ × ℕ
  pub error_text : Error → String

-- the objects of the configuration that the loop changes, and the state of the backend
pub record Session {ℓ} (R : Type 0) (W : Type ℓ) : Type ℓ where
  pub context_manager : Option (ContextWindowManager R)
  pub error_tracker : Option ErrorTracker
  pub world : W

pub record InferenceResult (T : Type 0) : Type 0 where
  pub response : Response
  pub new_messages : List Message
  pub tool_call_counter : ℕ
  pub attempts : ℕ
  pub reasoning_tree : Option T

-- a response after reasoning and validation
pub record Judged (T : Type 0) : Type 0 where
  pub response : Response
  pub validation : ValidationResult
  pub clean_content : String
  pub reasoning_tree : Option T

-- `if cfg.max_attempts <= 0: cfg.max_attempts = 3`
abbrev pub attempts_of : ℕ → ℕ
attempts_of max_attempts = if nat_eq max_attempts 0 then 3 else max_attempts

abbrev pub passed : List Validator.ToolCall → ValidationResult
passed calls = record { tool_calls = calls; nudge = none; needs_retry = false }

abbrev pub failed : ValidationResult
failed = record { tool_calls = []; nudge = none; needs_retry = true }

abbrev pub guardrails_calls : List ToolCall → List Validator.ToolCall
guardrails_calls calls = map (λ c. record { tool = c.name; args = c.arguments }) calls

abbrev pub rescued_calls : List Validator.ToolCall → List ToolCall
rescued_calls calls = map (λ c. record { id = ""; name = c.tool; arguments = c.args }) calls

abbrev pub check_calls : Option ResponseValidator → List Validator.ToolCall → ValidationResult
check_calls none calls = passed calls
check_calls (some v) calls = validate_tool_calls v calls

abbrev pub check_text : Patterns → Option ResponseValidator → String → Result ValidationResult
check_text p none content = ok (if content == "" then failed else passed [])
check_text p (some v) content = validate_text_response p v content

-- Calls that were rescued from the text become those of the response.
abbrev pub with_rescued : Response → ValidationResult → Response
with_rescued resp result =
    if not result.needs_retry && not (is_empty result.tool_calls)
    then record resp { tool_calls = rescued_calls result.tool_calls }
    else resp

-- how the response comes out of the check of its text, if that does not raise; without content, the
-- response stays as it is
abbrev pub text_checked :
    Response → String → Result ValidationResult → Result (ValidationResult × Response)
text_checked resp clean (raise e) = raise e
text_checked resp clean (ok result) =
    ok (result, if clean == "" then resp else with_rescued resp result)

unfoldable pub validate :
    Patterns → Option ResponseValidator → Response → String → Result (ValidationResult × Response)
validate p validator resp clean = elim resp.tool_calls [
  | tc ∷ tcs ↦ ok (check_calls validator (guardrails_calls (tc ∷ tcs)), resp)
  | [] ↦ text_checked resp clean (check_text p validator clean)
]

-- the tree and the clean content, or `none` where the extraction fails
unfoldable pub normalize : {T : Type 0} → ReasoningAdapter T → Response → Option (Option T × String)
normalize reasoning resp =
    if (resp.content == "") && (resp.reasoning == "")
    then some (none, resp.content)
    else elim (reasoning resp.content resp.reasoning) [
      | none ↦ none
      | some (tree, clean) ↦ some (some tree, clean)
    ]

abbrev pub after_validation :
    {T : Type 0} → Option T → String → Result (ValidationResult × Response) → Result (Judged T)
after_validation tree clean (raise e) = raise e
after_validation tree clean (ok (result, resp)) =
    ok (record {
      response = resp;
      validation = result;
      clean_content = clean;
      reasoning_tree = tree;
    })

-- Where the extraction of reasoning fails, nothing of the content is kept.
unfoldable pub judge :
    {T : Type 0}
    → Patterns
    → Option ResponseValidator
    → ReasoningAdapter T
    → Response
    → Result (Judged T)
judge p validator reasoning resp = elim (normalize reasoning resp) [
  | none ↦ after_validation none "" (ok (failed, resp))
  | some (tree, clean) ↦ after_validation tree clean (validate p validator resp clean)
]
