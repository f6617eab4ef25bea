-- ===== src/Executor/Guarded.antt =====
-- An agent: the executor, whose tool executor is a middleware.
use agentware.Prelude.{ℕ, String, Option, List, All, ◌≡◌, refl}
use agentware.Prelude.Value.{Fields, Value, null, bool, int, float, str, list, dict, fields}
use agentware.Prelude.Python.{Python}
use agentware.Prelude.Exec.{throw, type_error}
use agentware.Prelude.Triple.{Triple, Outcome, Outcome-any}
use agentware.Types.{Args, CallerContext}
use agentware.Llm.{Message, Backend}
use agentware.Middleware.{Evaluate, Record, ToolResult, ExecuteTool, MiddlewareImpl, Request}
use agentware.Middleware
use agentware.Middleware.Journal.{Entry, evaluated, audited, called, Journal, IsGuarded}
use agentware.Middleware.Enforcement.{journaled, execute-IsGuarded, execute-All}
use agentware.Executor.{ExecuteRequest, ExecutorConfig, ToolExecutor, opening, limit, execute}
use agentware.Executor.Ends.{IsEnd, execute-Triple}

abbrev request {ℓ} : {W : Type ℓ} → (W → ℕ × ℕ) → String → Args → CallerContext → W → Request
request clock name args caller w = record {
  tool_name = name;
  args = args;
  caller = caller;
  framework = "";
  decided_at = (clock w).0;
  recorded_at = (clock w).1;
}

-- A call of the middleware, which reads the clock twice. The middleware is modelled for arguments
-- that are a dictionary, as they are annotated; others raise here.
abbrev pub by_middleware {ℓ} : {W : Type ℓ} → MiddlewareImpl W → (W → ℕ × ℕ) → ToolExecutor W
by_middleware mw clock name (dict args) caller w =
    Middleware.execute mw (request clock name (fields args) caller w) w
by_middleware mw clock name args caller w = throw (type_error "arguments") w

-- a backend that does not touch the journal
abbrev pub beside_journal {ℓ} : {W : Type ℓ} → Backend W → Backend (W × Journal)
beside_journal backend messages (w, j) = let (r, w') = backend messages w in (r, (w', j))

-- The evaluations and the audit records are of tools and arguments that were asked for.
abbrev pub IsAsked : (String → Value → Type 0) → Entry → Type 0
IsAsked Known (evaluated tool args caller) =
    (fs : Fields) × (args ≡ fields fs) × Known tool (dict fs)
IsAsked Known (audited r) = (fs : Fields) × (r.args ≡ fields fs) × Known r.tool_name (dict fs)
IsAsked Known (called tool args) = Unit

module _ {ℓ} {W : Type ℓ} (py : Python) (backend : Backend W) (run_tool : ExecuteTool W)
    (evaluator : Option (Evaluate W)) (auditor : Record W) (clock : W × Journal → ℕ × ℕ)
    (max_iterations : ℕ) where
  abbrev pub agent : ExecutorConfig (W × Journal)
  agent = record {
    backend = beside_journal backend;
    tool_executor = by_middleware (journaled run_tool evaluator auditor) clock;
    max_iterations = max_iterations;
  }

  abbrev Kept : (String → Value → Type 0) → W × Journal → Type 0
  Kept Known s = IsGuarded s.1 × All (IsAsked Known) s.1

  by_middleware-Triple :
      (Known : String → Value → Type 0) (name : String) (args : Value) (caller : CallerContext)
      → Known name args
      → Triple
          (Kept Known)
          (λ _. Unit {0})
          (Unit {0})
          (by_middleware (journaled run_tool evaluator auditor) clock name args caller)
  by_middleware-Triple Known name (dict args) caller known (w, j) (h, k) =
      let q = request clock name (fields args) caller (w, j) in
      (
        Outcome-any
            (by_middleware (journaled run_tool evaluator auditor) clock name (dict args) caller
              (w, j)).0,
        (
          execute-IsGuarded run_tool evaluator auditor q w j h,
          execute-All run_tool evaluator auditor (IsAsked Known) q (args, refl, known)
              (λ d. (args, refl, known)) (λ out. tt) w j k,
        ),
      )
  by_middleware-Triple Known name null caller known (w, j) h = (tt, h)
  by_middleware-Triple Known name (bool b) caller known (w, j) h = (tt, h)
  by_middleware-Triple Known name (int z) caller known (w, j) h = (tt, h)
  by_middleware-Triple Known name (float r) caller known (w, j) h = (tt, h)
  by_middleware-Triple Known name (str s) caller known (w, j) h = (tt, h)
  by_middleware-Triple Known name (list vs) caller known (w, j) h = (tt, h)

  -- Let `Known` hold of every tool call in every response of the model. Then an agent whose tool
  -- executor is the middleware with an auditor leaves a journal of which these hold, if they hold
  -- before, however its run ends: every evaluation and every audit record is of a tool and arguments
  -- of which `Known` holds, as it may of the calls alone that the model asks for; and every run of a
  -- tool stands directly above the audit record of the same tool and of a decision other than
  -- `deny`, with the arguments that this decision leaves. If the run returns, its rounds, its reason
  -- and its conversation are those of an ended run.
  pub agent-IsGuarded :
      (Known : String → Value → Type 0) (req : ExecuteRequest) (w : W) (j : Journal)
      → ((messages : List Message) (w : W)
          → Outcome
              (λ r. All (λ tc. Known tc.name tc.arguments) r.tool_calls)
              (Unit {0})
              (backend messages w).0)
      → IsGuarded j
      → All (IsAsked Known) j
      → IsGuarded (execute py agent req (w, j)).1.1
        × All (IsAsked Known) (execute py agent req (w, j)).1.1
        × Outcome (IsEnd (opening req) (limit agent req)) (Unit {0}) (execute py agent req (w, j)).0
  agent-IsGuarded Known req w j known h k =
      let (ended, (guarded, asked)) =
        execute-Triple py agent (Kept Known) (Unit {0}) Known
          (λ messages s kept. (known messages s.0, kept)) (by_middleware-Triple Known) req (w, j)
          (h, k) in
      (guarded, asked, ended)
