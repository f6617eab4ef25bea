-- ===== src/Inference/Attempts.antt =====
-- How often `run_inference` asks the backend, and how it ends.
use agentware.Prelude.{
  ℕ, zero, suc, ◌+◌, ◌≤◌, ◌<◌, String, ◌≡◌, sym, ap, ◌⊎◌, inl, inr, refl, true, false, Option, none,
  some, List, [], ◌++◌, length, leb, ◌<+>◌, Bool-cases, arith, lookup-remove, eq_refl,
}
use agentware.Prelude.Value.{int, pos}
use agentware.Prelude.Python.{Python}
use agentware.Prelude.Exec.{
  Exec, Result, Error, ok, raise, continue, retries_exhausted, ◌>>=◌, lift,
}
use agentware.Prelude.Triple.{Outcome}
use agentware.Llm.{Message, Response, Backend}
use agentware.Context.Window.{Ratios}
use agentware.Guardrails.ErrorTracker.{ErrorTracker, session_errors, reset_session}
use agentware.Guardrails.Validator.{Patterns}
use agentware.Inference.{InferenceConfig, InferenceResult, Session, Judged, judge, attempts_of}
use agentware.Inference.Loop.{
  prepare, received, note, failed_messages, decide, attempt, run_inference, cleared,
}
use agentware.Inference.Judging.{CallsKnown, IsSound, judge-IsSound}

-- a backend that counts its calls beside its state
abbrev pub counting : {W : Type 0} → Backend W → Backend (W × ℕ)
counting client messages (w, calls) = let (r, w') = client messages w in (r, (w', suc calls))

-- The tracker, if there is one, has no error of the session.
abbrev pub HasNoErrors : String → Option ErrorTracker → Type 0
HasNoErrors session none = Unit
HasNoErrors session (some tracker) = session_errors tracker session ≡ []

cleared-HasNoErrors :
    (session : String) (tracker : Option ErrorTracker)
    → HasNoErrors session (cleared session tracker)
unfolding reset_session
cleared-HasNoErrors session none = tt
cleared-HasNoErrors session (some tracker) =
    ground (arith, lookup-remove session session tracker.errors, eq_refl session)

module _ {R T : Type 0} {W : Type 0} (py : Python) (ratios : Ratios R) (p : Patterns)
    (client : Backend W) (cfg : InferenceConfig T (W × ℕ)) (session_id : String) where
  -- the configuration with the backend that counts
  abbrev pub counted : InferenceConfig T (W × ℕ)
  counted = record cfg { client = counting client }

  -- the error of a loop that has made so many attempts
  abbrev pub exhausted_error : ℕ → Error
  exhausted_error attempts =
      retries_exhausted
        ("retries exhausted after " <+> py.to_text (int (pos attempts)) <+> " attempts")

  -- An error of the loop is its own, or one of the backend, or one of the validation of a response.
  abbrev pub IsFailure : ℕ → Error → Type 0
  IsFailure calls e =
      ((calls ≡ attempts_of cfg.max_attempts) × (e ≡ exhausted_error calls))
      ⊎ ((messages : List Message) × (w : W) × ((client messages w).0 ≡ raise e))
      ⊎ ((resp : Response) × (judge p cfg.validator cfg.reasoning resp ≡ raise e))

  abbrev pub IsRun : Result (InferenceResult T) → Session R (W × ℕ) → Type 0
  IsRun (ok r) s =
      (r.attempts ≡ s.world.1)
      × (r.tool_call_counter ≡ length r.response.tool_calls)
      × CallsKnown cfg.validator r.response.tool_calls
      × HasNoErrors session_id s.error_tracker
  IsRun (raise e) s = IsFailure s.world.1 e

  abbrev pub IsBoundedRun : Result (InferenceResult T) × Session R (W × ℕ) → Type 0
  IsBoundedRun (r, s) = (1 ≤ s.world.1) × (s.world.1 ≤ attempts_of cfg.max_attempts) × IsRun r s

  -- A run from here on, once the backend was asked the next time, and with attempts left.
  abbrev Continues : ℕ → (List Message → Exec (Session R (W × ℕ)) (InferenceResult T)) → Type 0
  Continues attempts again =
      attempts < attempts_of cfg.max_attempts
      → (messages : List Message) (s : Session R (W × ℕ)) → s.world.1 ≡ attempts
      → IsBoundedRun (again messages s)

  decide-IsBoundedRun :
      (again : List Message → Exec (Session R (W × ℕ)) (InferenceResult T)) (attempts : ℕ)
      (messages : List Message) (j : Judged T) (s : Session R (W × ℕ))
      → s.world.1 ≡ suc attempts
      → suc attempts ≤ attempts_of cfg.max_attempts
      → IsSound cfg.validator j
      → Continues (suc attempts) again
      → IsBoundedRun (decide py ratios p counted session_id again (suc attempts) messages j s)
  unfolding decide
  decide-IsBoundedRun again attempts messages j s e b sound h =
      go (Bool-cases j.validation.needs_retry)
        (Bool-cases (leb (attempts_of cfg.max_attempts) (suc attempts)))
    where
      go :
          (j.validation.needs_retry ≡ true) ⊎ (j.validation.needs_retry ≡ false)
          → (leb (attempts_of cfg.max_attempts) (suc attempts) ≡ true)
            ⊎ (leb (attempts_of cfg.max_attempts) (suc attempts) ≡ false)
          → IsBoundedRun (decide py ratios p counted session_id again (suc attempts) messages j s)
      go (inr passed) last =
          rw (passed, decide)
            (
              omega (arith, e),
              omega (arith, e, b),
              (sym e, refl, sound passed, cleared-HasNoErrors session_id s.error_tracker),
            )
      go (inl retried) (inl last) =
          rw (retried, last, decide)
            (omega (arith, e), omega (arith, e, b), inl (ground arith, ap exhausted_error (sym e)))
      go (inl retried) (inr more) =
          rw (retried, more, decide)
            (h (ground arith) (messages ++ failed_messages j)
              (note py ratios p counted session_id "validation failed" s) e)

  judged-IsBoundedRun :
      (again : List Message → Exec (Session R (W × ℕ)) (InferenceResult T)) (attempts : ℕ)
      (messages : List Message) (resp : Response) (s : Session R (W × ℕ)) (r : Result (Judged T))
      → judge p cfg.validator cfg.reasoning resp ≡ r
      → s.world.1 ≡ suc attempts
      → suc attempts ≤ attempts_of cfg.max_attempts
      → Outcome (IsSound cfg.validator) (Unit {0}) r
      → Continues (suc attempts) again
      → IsBoundedRun
          (continue r (decide py ratios p counted session_id again (suc attempts) messages) s)
  judged-IsBoundedRun again attempts messages resp s (raise error) k e b sound h =
      (omega (arith, e), omega (arith, e, b), inr (inr (resp, k)))
  judged-IsBoundedRun again attempts messages resp s (ok j) k e b sound h =
      decide-IsBoundedRun again attempts messages j s e b sound h

  received-IsBoundedRun :
      (again : List Message → Exec (Session R (W × ℕ)) (InferenceResult T)) (attempts : ℕ)
      (messages : List Message) (w : W) (s : Session R (W × ℕ)) (r : Result Response)
      → (client messages w).0 ≡ r
      → s.world.1 ≡ suc attempts
      → suc attempts ≤ attempts_of cfg.max_attempts
      → Continues (suc attempts) again
      → IsBoundedRun (
          ((λ s. received py ratios p counted session_id r s) >>= λ resp.
          lift (judge p cfg.validator cfg.reasoning resp) >>= λ j.
          decide py ratios p counted session_id again (suc attempts) messages j)
            s)
  received-IsBoundedRun again attempts messages w s (raise error) k e b h =
      (omega (arith, e), omega (arith, e, b), inr (inl (messages, w, k)))
  received-IsBoundedRun again attempts messages w s (ok resp) k e b h =
      judged-IsBoundedRun again attempts messages resp
        (received py ratios p counted session_id (ok resp) s).1
        (judge p cfg.validator cfg.reasoning resp) refl e b
        (judge-IsSound p cfg.validator cfg.reasoning resp) h

  attempt-IsBoundedRun :
      (left attempts : ℕ)
      → attempts + left ≡ attempts_of cfg.max_attempts
      → Continues attempts (attempt py ratios p counted session_id left attempts)
  unfolding attempt
  attempt-IsBoundedRun zero attempts e b messages s k = absurd (omega (arith, e, b))
  attempt-IsBoundedRun (suc left) attempts e b messages s k =
      let (messages', manager) =
        prepare py ratios p counted session_id s.context_manager messages in
      received-IsBoundedRun (attempt py ratios p counted session_id left (suc attempts)) attempts
        messages' s.world.0
        (record s { context_manager = manager; world = (counting client messages' s.world).1 })
        (client messages' s.world.0).0 refl (ap suc k) (omega (arith, b))
        (attempt-IsBoundedRun left (suc attempts) (omega (arith, e)))

  -- Started with a counter at 0, the loop asks the backend at least once and at most `max_attempts`
  -- times, or three times where that is 0. If it returns, the attempts are the calls that were made,
  -- the counter of tool calls is that of the response, every tool call of the response is known to
  -- the validator, if there is one, and the error tracker has no error of the session. If it raises,
  -- then either all attempts are used up and the error says so, or the error is one that the
  -- backend, or the validation of a response, raises.
  pub run_inference-IsBoundedRun :
      (messages : List Message) (s : Session R (W × ℕ))
      → s.world.1 ≡ 0
      → IsBoundedRun (run_inference py ratios p counted session_id messages s)
  unfolding run_inference
  run_inference-IsBoundedRun messages s e =
      attempt-IsBoundedRun (attempts_of cfg.max_attempts) 0 (omega arith) (ground arith) messages s
        e
