-- ===== src/Tests/Inferences.antt =====
-- A backend that calls an unknown tool first and a known one then.
use agentware.Prelude.{ℕ, zero, suc, String, ◌≡◌, refl, none, some, List, [], ◌∷◌, true, false}
use agentware.Prelude.Value.{object}
use agentware.Prelude.Exec.{ok}
use agentware.Llm.{Message, Response, Backend, new_message, user}
use agentware.Types.{user_input}
use agentware.Context.Window.{Ratios}
use agentware.Guardrails.Nudge.{retry_nudge}
use agentware.Guardrails.StepEnforcer.{new_step_enforcer}
use agentware.Guardrails.Validator.{ResponseValidator, Patterns, validate_tool_calls}
use agentware.Inference.{InferenceConfig, Session, judge, normalize, validate}
use agentware.Inference.Loop.{run_inference, attempt, decide, prepare}
use agentware.Inference.Attempts.{counted, IsBoundedRun, run_inference-IsBoundedRun}
use agentware.Tests.Fixtures.{plain_python}

abbrev response : String → Response
response name = record {
  content = "";
  reasoning = "";
  tool_calls = record { id = "1"; name = name; arguments = object [] } ∷ [];
  finish_reason = "tool_calls";
  usage_tokens = record { prompt_tokens = 0; completion_tokens = 0; total_tokens = 0 };
}

-- The state tells whether it was asked before.
abbrev learns : Backend ℕ
learns messages zero = (ok (response "dance"), 1)
learns messages (suc n) = (ok (response "cat"), suc n)

abbrev no_patterns : Patterns
no_patterns = record {
  clean = λ s. s;
  unfence = λ s. [];
  loads = λ s. none;
  loads_any = λ s. none;
  rehearsals = λ s. [];
  qwen_functions = λ s. [];
  qwen_parameters = λ s. [];
}

abbrev validator : ResponseValidator
validator = record {
  tool_names = "cat" ∷ "ls" ∷ [];
  rescue_enabled = true;
  retry_nudge_fn = retry_nudge;
}

abbrev ratios : Ratios ℕ
ratios = record { scale = λ n r. n; reached = λ a b r. false; same = λ a b. true }

abbrev config : InferenceConfig ℕ (ℕ × ℕ)
config = record {
  client = λ messages s. (ok (response "cat"), s);
  validator = some validator;
  step_enforcer = some new_step_enforcer;
  max_attempts = 0;
  reasoning = λ content native. some (0, content);
  clock = λ s. (1, 2);
  error_text = λ e. "error";
}

abbrev session : Session ℕ (ℕ × ℕ)
session = record {
  context_manager = none;
  error_tracker = some (record { errors = []; max_errors_per_tool = 3; window_duration = 10 });
  world = (0, 0);
}

abbrev question : List Message
question = new_message user "Show a.txt." user_input ∷ []

run_inference-IsBoundedRun_example :
    IsBoundedRun plain_python ratios no_patterns learns config "s1" (
      run_inference plain_python ratios no_patterns
        (counted plain_python ratios no_patterns learns config "s1")
        "s1"
        question
        session)
run_inference-IsBoundedRun_example =
    run_inference-IsBoundedRun plain_python ratios no_patterns learns config "s1" question session
      refl

-- The second attempt is accepted.
two_attempts :
    (run_inference plain_python ratios no_patterns
      (counted plain_python ratios no_patterns learns config "s1")
      "s1"
      question
      session).1.world
    ≡ (1, 2)
unfolding run_inference attempt decide prepare judge normalize validate validate_tool_calls
two_attempts = refl
