-- ===== src/Tests/Agents.antt =====
-- An agent with a backend that calls one tool and then answers.
use agentware.Prelude.{ℕ, zero, suc, ◌≡◌, refl, String, All, some, List, [], ◌∷◌, true}
use agentware.Prelude.Value.{Value, str, object}
use agentware.Prelude.Exec.{Exec, ok}
use agentware.Prelude.Triple.{Outcome}
use agentware.Types.{allow, new_decision}
use agentware.Audit.{AuditRecord}
use agentware.Llm.{Message, Response, Backend, ToolCall}
use agentware.Middleware.{Evaluate, ExecuteTool}
use agentware.Middleware.Journal.{Entry, IsGuarded}
use agentware.Executor.{
  ExecuteRequest, ExecuteResult, ExecutorConfig, ToolExecutor, opening, limit, execute,
}
use agentware.Executor.Ends.{IsEnd, execute-IsEnd}
use agentware.Executor.Guarded.{agent, IsAsked, agent-IsGuarded}
use agentware.Tests.Fixtures.{plain_python, alice, file_args}

abbrev answer : List ToolCall → Response
answer calls = record {
  content = "There are four files.";
  reasoning = "";
  tool_calls = calls;
  finish_reason = "stop";
  usage_tokens = record { prompt_tokens = 1; completion_tokens = 1; total_tokens = 2 };
}

abbrev cat : ToolCall
cat = record { id = "c1"; name = "cat"; arguments = object file_args }

-- The state is the number of calls of the backend.
abbrev calls_once : Backend ℕ
calls_once messages zero = (ok (answer (cat ∷ [])), 1)
calls_once messages (suc n) = (ok (answer []), suc n)

abbrev prints : ToolExecutor ℕ
prints name args caller n = (ok (str "a.txt", true, ""), n)

abbrev config : ExecutorConfig ℕ
config = record { backend = calls_once; tool_executor = prints; max_iterations = 20 }

abbrev task : ExecuteRequest
task = record {
  system_prompt = "You are an agent.";
  user_message = "Count the files.";
  history = [];
  max_iterations = 0;
  caller_ctx = alice;
}

never_raises :
    (messages : List Message) (n : ℕ) → Outcome (λ _. Unit {0}) ⊥ (calls_once messages n).0
never_raises messages zero = tt
never_raises messages (suc n) = tt

execute-IsEnd_example :
    (r : ExecuteResult) × ((execute plain_python config task 0).0 ≡ ok r)
    × IsEnd (opening task) (limit config task) r
execute-IsEnd_example =
    execute-IsEnd plain_python config task 0 never_raises (λ name args caller n. tt)

abbrev lets_pass : Evaluate ℕ
lets_pass tool args caller n = (ok (new_decision allow "" "" 1), n)

abbrev runs : ExecuteTool ℕ
runs tool args n = (ok (str "a.txt", true, ""), n)

abbrev keeps : AuditRecord → Exec ℕ (Unit {0})
keeps r n = (ok tt, n)

abbrev guarded : ExecutorConfig (ℕ × List Entry)
guarded = agent plain_python calls_once runs (some lets_pass) keeps (λ _. (1, 2)) 20

-- what this model asks for
abbrev Known : String → Value → Type 0
Known tool args = (tool ≡ "cat") × (args ≡ object file_args)

asks_for_cat :
    (messages : List Message) (n : ℕ)
    → Outcome
        (λ r. All (λ tc. Known tc.name tc.arguments) r.tool_calls)
        (Unit {0})
        (calls_once messages n).0
asks_for_cat messages zero = ((refl, refl), tt)
asks_for_cat messages (suc n) = tt

agent-IsGuarded_example :
    IsGuarded (execute plain_python guarded task (0, [])).1.1
    × All (IsAsked Known) (execute plain_python guarded task (0, [])).1.1
    × Outcome
        (IsEnd (opening task) (limit guarded task))
        (Unit {0})
        (execute plain_python guarded task (0, [])).0
agent-IsGuarded_example =
    agent-IsGuarded plain_python calls_once runs (some lets_pass) keeps (λ _. (1, 2)) 20 Known task
      0 [] asks_for_cat tt tt
