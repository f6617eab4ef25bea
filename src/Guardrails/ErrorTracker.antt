-- ===== src/Guardrails/ErrorTracker.antt =====
-- guardrails/error_tracker.py. `err` is given by its text. Clocks are arguments: a call that records
-- reads the clock for the entry and again for the cutoff.
pub mod Window
use agentware.Prelude.{
  ℕ, ◌+◌, String, Bool, true, false, Option, none, some, List, [], ◌∷◌, ◌++◌, length, keep, Dict,
  lookup, insert, remove, default, ltb, leb, ◌==◌, if◌then◌else◌,
}
use agentware.Types.{Args}

pub data ErrorCategory : Type 0 where
  timeout not_found invalid_args permission rate_limit unknown : ErrorCategory

abbrev pub category_eq : ErrorCategory → ErrorCategory → Bool
category_eq timeout timeout = true
category_eq not_found not_found = true
category_eq invalid_args invalid_args = true
category_eq permission permission = true
category_eq rate_limit rate_limit = true
category_eq unknown unknown = true
category_eq _ _ = false

pub record ToolError : Type 0 where
  pub timestamp : ℕ
  pub tool : String
  pub args : Args
  pub category : ErrorCategory
  pub message : String
  pub session_id : String
  pub retry_count : ℕ

pub record ErrorTracker : Type 0 where
  pub errors : Dict (List ToolError)
  pub max_errors_per_tool : ℕ
  pub window_duration : ℕ

unfoldable pub set_thresholds : ErrorTracker → ℕ → ℕ → ErrorTracker
set_thresholds t max_errors window = record t {
  max_errors_per_tool = max_errors;
  window_duration = window;
}

-- `self._errors.get(session_id, [])`
abbrev pub session_errors : ErrorTracker → String → List ToolError
session_errors t session = default [] (lookup session t.errors)

abbrev pub is_of_tool : String → ToolError → Bool
is_of_tool tool e = e.tool == tool

unfoldable pub get_error_count : ErrorTracker → String → String → ℕ
get_error_count t session tool = length (keep (is_of_tool tool) (session_errors t session))

-- newer than the cutoff: `e.timestamp > now - window`
abbrev pub is_recent : ℕ → ℕ → ToolError → Bool
is_recent now window e = ltb now (e.timestamp + window)

abbrev pub pruned : ErrorTracker → ℕ → List ToolError → List ToolError
pruned t now errors =
    if leb (length errors) t.max_errors_per_tool
    then errors
    else keep (is_recent now t.window_duration) errors

-- A session without errors has no entry, and gets none.
unfoldable pub prune_old_errors : ErrorTracker → ℕ → String → ErrorTracker
prune_old_errors t now session = elim (lookup session t.errors) [
  | none ↦ t
  | some errors ↦ record t { errors = insert session (pruned t now errors) t.errors }
]

abbrev pub new_error :
    ErrorTracker → ℕ → String → String → Args → String → ErrorCategory → ToolError
new_error t now session tool args message category = record {
  timestamp = now;
  tool = tool;
  args = args;
  category = category;
  message = message;
  session_id = session;
  retry_count = get_error_count t session tool;
}

unfoldable pub record_error :
    ErrorTracker
    → (now cutoff_now : ℕ) → String
    → String
    → Args
    → String
    → ErrorCategory
    → ErrorTracker
record_error t now cutoff_now session tool args message category =
    let entry = new_error t now session tool args message category in
    let appended = insert session (session_errors t session ++ entry ∷ []) t.errors in
    prune_old_errors (record t { errors = appended }) cutoff_now session

unfoldable pub get_recent_errors : ErrorTracker → ℕ → String → List ToolError × ErrorTracker
get_recent_errors t now session =
    let t' = prune_old_errors t now session in (session_errors t' session, t')

unfoldable pub get_errors_by_category : ErrorTracker → String → ErrorCategory → List ToolError
get_errors_by_category t session category =
    keep (λ e. category_eq e.category category) (session_errors t session)

unfoldable pub is_error_rate_exceeded : ErrorTracker → String → String → Bool
unfolding get_error_count
is_error_rate_exceeded t session tool = leb t.max_errors_per_tool (get_error_count t session tool)

unfoldable pub reset_session : ErrorTracker → String → ErrorTracker
reset_session t session = record t { errors = remove session t.errors }

unfoldable pub should_block_tool : ErrorTracker → String → String → Bool
unfolding is_error_rate_exceeded
should_block_tool t session tool = is_error_rate_exceeded t session tool
