-- ===== src/Executor.antt =====
-- python/src/haikeilabs/agentware/executor/executor.py: the loop of an agent, which asks the backend and
-- runs the tools that it calls. The backend and the tool executor are given from outside.
pub mod Ends
pub mod Guarded
use agentware.Prelude.{
  ℕ, zero, suc, ◌+◌, ◌-◌, String, Bool, true, false, not, List, [], ◌∷◌, ◌++◌, length, leb, nat_eq,
  ◌<+>◌, ◌==◌, if◌then◌else◌,
}
use agentware.Prelude.Value.{Value}
use agentware.Prelude.Python.{Python}
use agentware.Prelude.Exec.{Exec, pure, ◌>>=◌}
use agentware.Types.{CallerContext, user_input}
use agentware.Llm.{Role, system, user, tool, ToolCall, Message, new_message, Response, Backend}
use agentware.Middleware.{ToolResult}

pub data TerminationReason : Type 0 where
  complete max_iterations error canceled : TerminationReason

-- A maximum of 0 asks for that of the configuration. A negative one acts as a run of no round.
pub record ExecuteRequest : Type 0 where
  pub system_prompt : String
  pub user_message : String
  pub history : List Message
  pub max_iterations : ℕ
  pub caller_ctx : CallerContext

pub record ExecuteResult : Type 0 where
  pub final_response : String
  pub iterations : ℕ
  pub tool_calls_made : ℕ
  pub termination_reason : TerminationReason
  pub conversation : List Message

abbrev pub ToolExecutor {ℓ} : Type ℓ → Type ℓ
ToolExecutor W = String → Value → CallerContext → Exec W ToolResult

-- The registry, the formatter and the completion signal are set and never read.
pub record ExecutorConfig {ℓ} (W : Type ℓ) : Type ℓ where
  pub backend : Backend W
  pub tool_executor : ToolExecutor W
  pub max_iterations : ℕ

-- the variables of the loop
pub record Run : Type 0 where
  pub conversation : List Message
  pub iterations : ℕ
  pub tool_calls_made : ℕ
  pub final_response : String

abbrev pub opening : ExecuteRequest → List Message
opening req =
    new_message system req.system_prompt user_input
    ∷ (req.history ++ new_message user req.user_message user_input ∷ [])

abbrev pub first_run : ExecuteRequest → Run
first_run req = record {
  conversation = opening req;
  iterations = 0;
  tool_calls_made = 0;
  final_response = "";
}

-- `req.max_iterations or self._config.max_iterations`
abbrev pub limit {ℓ} : {W : Type ℓ} → ExecutorConfig W → ExecuteRequest → ℕ
limit cfg req = if nat_eq req.max_iterations 0 then cfg.max_iterations else req.max_iterations

abbrev pub reason_of : ℕ → Run → TerminationReason
reason_of max_iters s =
    if leb max_iters s.iterations
    then max_iterations
    else if not (s.final_response == "")
    then complete
    else error

abbrev pub result_of : ℕ → Run → ExecuteResult
result_of max_iters s = record {
  final_response = s.final_response;
  iterations = s.iterations;
  tool_calls_made = s.tool_calls_made;
  termination_reason = reason_of max_iters s;
  conversation = s.conversation;
}

module _ {ℓ} {W : Type ℓ} (py : Python) (cfg : ExecutorConfig W) where
  abbrev pub tool_message : ToolCall → ToolResult → Message
  tool_message tc (value, success, failure) =
      record (new_message tool
        ("Tool " <+> tc.name <+> " result: " <+> (if success then py.to_text value else failure))
        user_input) { tool_call_id = tc.id }

  -- the `for` loop over the tool calls of a response
  unfoldable pub run_calls : CallerContext → List ToolCall → List Message → Exec W (List Message)
  run_calls caller [] conversation = pure conversation
  run_calls caller (tc ∷ tcs) conversation = do
    result ← cfg.tool_executor tc.name tc.arguments caller
    run_calls caller tcs (conversation ++ tool_message tc result ∷ [])

  abbrev pub after_calls : Run → List ToolCall → List Message → Run
  after_calls s calls conversation = record {
    conversation = conversation;
    iterations = suc s.iterations;
    tool_calls_made = s.tool_calls_made + length calls;
    final_response = s.final_response;
  }

  -- The `while` loop, by the rounds that are left. A response without tool calls ends it.
  unfoldable pub loop : ℕ → CallerContext → Run → Exec W Run
  loop zero caller s = pure s
  loop (suc rounds) caller s = do
    response ← cfg.backend s.conversation
    elim response.tool_calls [
      | [] ↦ pure (record s { final_response = response.content })
      | tc ∷ tcs ↦ do
        conversation ← run_calls caller (tc ∷ tcs) s.conversation
        loop rounds caller (after_calls s (tc ∷ tcs) conversation)
    ]

  unfoldable pub execute : ExecuteRequest → Exec W ExecuteResult
  execute req = do
    s ← loop (limit cfg req) req.caller_ctx (first_run req)
    pure (result_of (limit cfg req) s)
