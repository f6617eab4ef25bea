-- ===== src/Tests/Guards.antt =====
-- Guardrails: required steps, failing tools, and the calls in a response.
use Prim.Native.Char.{Char}
use agentware.Prelude.{
  String, ◌≡◌, ◌≢◌, ◌↔◌, refl, arith, none, some, List, [], ◌∷◌, ◌++◌, true, false, keep, length,
  lookup, All,
}
use agentware.Prelude.Value.{str, object}
use agentware.Guardrails.Nudge.{retry_nudge}
use agentware.Guardrails.StepEnforcer.{
  StepEnforcer, new_step_enforcer, add_step, mark_step_complete,
}
use agentware.Guardrails.ErrorTracker.{
  ErrorTracker, timeout, session_errors, is_recent, new_error, record_error, get_recent_errors,
  should_block_tool,
}
use agentware.Guardrails.ErrorTracker.Window.{
  Failure, record_all, burst_blocks, recent-record_error,
}
use agentware.Guardrails.Validator.{
  ToolCall, ValidationResult, Patterns, ResponseValidator, validate_tool_calls,
  validate_text_response, candidates, rescue_tool_call, extract_json_tool_calls, parse_candidates,
  try_parse_tool_call, close,
}
use agentware.Guardrails.Validator.Calls.{
  IsKnown, validate_tool_calls_iff, validate_text_response-IsKnown,
}
use agentware.Guardrails.Validator.Scanner.{
  nothing, plain, braces, Block, texts, page_text, candidates_complete,
}

abbrev steps : StepEnforcer
steps =
    mark_step_complete (add_step new_step_enforcer "deploy" (some ("build" ∷ "test" ∷ []))) "s1"
      "build"

abbrev tracker : ErrorTracker
tracker = record { errors = []; max_errors_per_tool = 2; window_duration = 100 }

abbrev failures : List Failure
failures =
    record { now = 10; cutoff = 10; message = "timeout" }
    ∷ record { now = 20; cutoff = 21; message = "timeout" }
    ∷ []

burst_blocks_example :
    should_block_tool (record_all "s1" "web" [] timeout tracker failures) "s1" "web" ≡ true
burst_blocks_example =
    burst_blocks "s1" "web" [] timeout tracker 30 failures
      ((omega arith, omega arith), ((omega arith, omega arith), tt)) (omega arith)

recent-record_error_example :
    (keep
        (is_recent 21 100)
        (session_errors (record_error tracker 20 21 "s1" "web" [] "timeout" timeout) "s1")
      ≡ keep (is_recent 21 100) (
          session_errors tracker "s1" ++ new_error tracker 20 "s1" "web" [] "timeout" timeout ∷ []))
    × ((other : String)
        → "s1" ≢ other
        → session_errors (record_error tracker 20 21 "s1" "web" [] "timeout" timeout) other
          ≡ session_errors tracker other)
    × (keep (is_recent 21 100) (get_recent_errors tracker 21 "s1").0
        ≡ keep (is_recent 21 100) (session_errors tracker "s1"))
recent-record_error_example = recent-record_error tracker 20 21 "s1" "web" "timeout" [] timeout

abbrev validator : ResponseValidator
validator = record {
  tool_names = "cat" ∷ "ls" ∷ [];
  rescue_enabled = true;
  retry_nudge_fn = retry_nudge;
}

abbrev calls : List ToolCall
calls = record { tool = "cat"; args = object [] } ∷ record { tool = "rm"; args = object [] } ∷ []

validate_tool_calls_iff_example :
    (((validate_tool_calls validator calls).needs_retry ≡ false)
      ↔ All (IsKnown validator.tool_names) calls)
    × ((validate_tool_calls validator calls).needs_retry ≡ false
        → (validate_tool_calls validator calls).tool_calls ≡ calls)
    × ((validate_tool_calls validator calls).needs_retry ≡ true
        → ((validate_tool_calls validator calls).tool_calls ≡ [])
          × ((validate_tool_calls validator calls).nudge ≢ none))
validate_tool_calls_iff_example = validate_tool_calls_iff validator calls

-- a text that is the call of `cat` in braces, and the parser that reads it
abbrev call_text : List Char
call_text = "{" ∷ "c" ∷ "}" ∷ []

abbrev patterns : Patterns
patterns = record {
  clean = λ s. s;
  unfence = λ s. call_text;
  loads = λ s. some (("tool", str "cat") ∷ []);
  loads_any = λ s. none;
  rehearsals = λ s. [];
  qwen_functions = λ s. [];
  qwen_parameters = λ s. [];
}

abbrev accepted : ValidationResult
accepted = record {
  tool_calls = record { tool = "cat"; args = object [] } ∷ [];
  nudge = none;
  needs_retry = false;
}

validate_text_response-IsKnown_example :
    All (IsKnown validator.tool_names) accepted.tool_calls
    × ((accepted.needs_retry ≡ true) ↔ (accepted.tool_calls ≡ []))
    × ((accepted.needs_retry ≡ false) ↔ (accepted.nudge ≡ none))
    × (validator.rescue_enabled ≡ false → accepted.needs_retry ≡ true)
unfolding validate_text_response rescue_tool_call extract_json_tool_calls parse_candidates
    try_parse_tool_call candidates close lookup
validate_text_response-IsKnown_example =
    validate_text_response-IsKnown patterns validator "{c}" accepted refl

-- "a{{}c}b": one block with a block inside, between two gaps
abbrev block : Block
block = record {
  opening = "{";
  body = "{" ∷ "}" ∷ "c" ∷ [];
  closing = "}";
  opens = refl;
  not_open = refl;
  closes = refl;
  balanced = braces "{" "}" [] ("c" ∷ []) refl refl refl nothing (plain "c" refl refl nothing) refl;
}

candidates_complete_example :
    candidates
      (length (page_text (("a" ∷ [], block) ∷ []) ("b" ∷ [])))
      (page_text (("a" ∷ [], block) ∷ []) ("b" ∷ []))
    ≡ texts (("a" ∷ [], block) ∷ [])
candidates_complete_example =
    candidates_complete (("a" ∷ [], block) ∷ []) ("b" ∷ []) ((refl, tt), tt) (refl, tt)
