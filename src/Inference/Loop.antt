-- ===== src/Inference/Loop.antt =====
-- python/src/haikeilabs/agentware/middleware/inference.py: the rounds of `run_inference`.
use agentware.Prelude.{
  ℕ, zero, suc, String, true, false, Option, none, some, List, [], ◌∷◌, ◌++◌, length, ltb, leb,
  ◌<+>◌, ◌==◌, if◌then◌else◌,
}
use agentware.Prelude.Value.{int, pos}
use agentware.Prelude.Python.{Python}
use agentware.Prelude.Exec.{Exec, Result, ok, raise, retries_exhausted, throw, lift, ◌>>=◌}
use agentware.Types.{context_warning, step_nudge, retry_nudge, text_response}
use agentware.Llm.{user, assistant, Message, new_message, Response, ToolCall}
use agentware.Context.Window
use agentware.Context.Window.{
  Ratios, ContextWindowManager, should_compact, check_thresholds, update_token_count,
}
use agentware.Guardrails.Nudge
use agentware.Guardrails.Nudge.{Nudge}
use agentware.Guardrails.StepEnforcer.{StepEnforcer, can_execute}
use agentware.Guardrails.ErrorTracker.{ErrorTracker, unknown, record_error, reset_session}
use agentware.Guardrails.Validator.{Patterns}
use agentware.Inference.{InferenceConfig, InferenceResult, Session, Judged, judge, attempts_of}

-- A warning that is the empty text is none.
abbrev pub warned : Option String → List Message → List Message
warned none messages = messages
warned (some warning) messages =
    if warning == "" then messages else messages ++ new_message user warning context_warning ∷ []

-- the nudges for the calls that the step enforcer refuses
unfoldable pub step_nudges : StepEnforcer → String → List ToolCall → List Message
unfolding can_execute
step_nudges enforcer session [] = []
step_nudges enforcer session (tc ∷ tcs) =
    let rest = step_nudges enforcer session tcs in
    let (allowed, missing) = can_execute enforcer session tc.name in
    if allowed
    then rest
    else new_message user (Nudge.step_nudge tc.name missing 1).content step_nudge ∷ rest

abbrev pub nudges_of : Option StepEnforcer → String → List ToolCall → List Message
nudges_of none session calls = []
nudges_of (some enforcer) session calls = step_nudges enforcer session calls

abbrev pub nudge_message : Option Nudge → List Message
nudge_message none = []
nudge_message (some nudge) = new_message user nudge.content retry_nudge ∷ []

-- what a response that is not accepted adds to the conversation
abbrev pub failed_messages : {T : Type 0} → Judged T → List Message
failed_messages j =
    nudge_message j.validation.nudge ++ new_message assistant j.clean_content text_response ∷ []

abbrev pub cleared : String → Option ErrorTracker → Option ErrorTracker
cleared session none = none
cleared session (some tracker) = some (reset_session tracker session)

abbrev pub noted : ℕ × ℕ → String → String → Option ErrorTracker → Option ErrorTracker
noted times session text none = none
noted (now, cutoff_now) session text (some tracker) =
    some (record_error tracker now cutoff_now session "" [] text unknown)

abbrev pub counted :
    {R : Type 0} → ℕ → Option (ContextWindowManager R) → Option (ContextWindowManager R)
counted tokens none = none
counted tokens (some manager) =
    some (if ltb 0 tokens then update_token_count manager tokens else manager)

module _ {ℓ} {R T : Type 0} {W : Type ℓ} (py : Python) (ratios : Ratios R) (p : Patterns)
    (cfg : InferenceConfig T W) (session_id : String) where
  abbrev pub compact_if :
      ContextWindowManager R → List Message → List Message × ContextWindowManager R
  compact_if manager messages =
      let (compacted, _, manager') = Window.compact ratios manager messages in
      if should_compact ratios manager messages then (compacted, manager') else (messages, manager)

  -- compaction and the warning, before the backend is asked
  unfoldable pub prepare :
      Option (ContextWindowManager R)
      → List Message
      → List Message × Option (ContextWindowManager R)
  prepare none messages = (messages, none)
  prepare (some manager) messages =
      let (messages', manager') = compact_if manager messages in
      let (warning, manager'') = check_thresholds ratios manager' messages' in
      (warned warning messages', some manager'')

  abbrev pub note : String → Session R W → Session R W
  note text s = record s {
    error_tracker = noted (cfg.clock s.world) session_id text s.error_tracker;
  }

  -- An exception of the backend is recorded and raised again.
  abbrev pub received : Result Response → Session R W → Result Response × Session R W
  received (ok resp) s = (
    ok resp,
    record s { context_manager = counted resp.usage_tokens.total_tokens s.context_manager },
  )
  received (raise e) s = (raise e, note (cfg.error_text e) s)

  abbrev pub complete : List Message → Exec (Session R W) Response
  complete messages s =
      let (r, world) = cfg.client messages s.world in received r (record s { world = world })

  abbrev pub accepted : ℕ → List Message → Judged T → InferenceResult T
  accepted attempts messages j = record {
    response = j.response;
    new_messages = messages ++ nudges_of cfg.step_enforcer session_id j.response.tool_calls;
    tool_call_counter = length j.response.tool_calls;
    attempts = attempts;
    reasoning_tree = j.reasoning_tree;
  }

  abbrev pub accept : ℕ → List Message → Judged T → Exec (Session R W) (InferenceResult T)
  accept attempts messages j s = (
    ok (accepted attempts messages j),
    record s { error_tracker = cleared session_id s.error_tracker },
  )

  abbrev pub exhausted : ℕ → Exec (Session R W) (InferenceResult T)
  exhausted attempts = throw (
      retries_exhausted
        ("retries exhausted after " <+> py.to_text (int (pos attempts)) <+> " attempts"))

  -- A judged response ends the loop, unless it is to be retried and attempts are left. `again` goes
  -- on with a conversation.
  unfoldable pub decide :
      (List Message → Exec (Session R W) (InferenceResult T))
      → (attempts : ℕ) → List Message
      → Judged T
      → Exec (Session R W) (InferenceResult T)
  decide again attempts messages j s = elim j.validation.needs_retry [
    | false ↦ accept attempts messages j s
    | true ↦ elim (leb (attempts_of cfg.max_attempts) attempts) [
      | true ↦ exhausted attempts (note "validation failed" s)
      | false ↦ again (messages ++ failed_messages j) (note "validation failed" s)
    ]
  ]

  -- The loop, by the attempts that are left and those that are made.
  unfoldable pub attempt : ℕ → ℕ → List Message → Exec (Session R W) (InferenceResult T)
  attempt zero attempts messages s = exhausted attempts s
  attempt (suc left) attempts messages s =
      let (messages', manager) = prepare s.context_manager messages in
      (do
        resp ← complete messages'
        j ← lift (judge p cfg.validator cfg.reasoning resp)
        decide (attempt left (suc attempts)) (suc attempts) messages' j)
        (record s { context_manager = manager })

  unfoldable pub run_inference : List Message → Exec (Session R W) (InferenceResult T)
  run_inference messages = attempt (attempts_of cfg.max_attempts) 0 messages
