-- ===== src/Executor/Ends.antt =====
-- How a run of the executor ends, and what it leaves in the conversation.
use agentware.Prelude.{
  ℕ, zero, subst, suc, ◌+◌, ◌≤◌, ◌<◌, String, ◌≡◌, ◌≢◌, ◌↔◌, refl, arith, List, [], ◌∷◌, ◌++◌,
  length, length-append, append_assoc, append-nil, sym, All, All-append, eq_iff,
}
use agentware.Prelude.Python.{Python}
use agentware.Prelude.Value.{Value}
use agentware.Prelude.Exec.{Result, pure, ◌>>=◌, ok, raise}
use agentware.Prelude.Triple.{Triple, Outcome, Outcome-ok, pure-Triple, bind-Triple}
use agentware.Types.{CallerContext}
use agentware.Llm.{tool, ToolCall, Message, Response}
use agentware.Executor.{
  complete, max_iterations, error, ExecuteRequest, ExecuteResult, ExecutorConfig, Run, opening,
  first_run, limit, result_of, tool_message, run_calls, after_calls, loop, execute,
}

-- The conversation is the opening and then one message of a tool for each tool call.
abbrev pub IsAnswered : List Message → List Message → ℕ → Type 0
IsAnswered start conversation calls =
    (replies : List Message) × (conversation ≡ start ++ replies)
    × (length replies ≡ calls)
    × All (λ m. m.role ≡ tool) replies

-- What a result says of the run: the reason follows from the rounds and the response, and the
-- conversation holds what the tools answered.
abbrev pub IsEnd : List Message → ℕ → ExecuteResult → Type 0
IsEnd start bound r =
    (r.iterations ≤ bound)
    × ((r.termination_reason ≡ max_iterations) ↔ (r.iterations ≡ bound))
    × ((r.termination_reason ≡ complete) ↔ ((r.iterations < bound) × (r.final_response ≢ "")))
    × ((r.termination_reason ≡ error) ↔ ((r.iterations < bound) × (r.final_response ≡ "")))
    × ((r.iterations ≡ bound) → r.final_response ≡ "")
    × IsAnswered start r.conversation r.tool_calls_made

append-IsAnswered :
    (start conversation : List Message) (calls : ℕ) (m : Message)
    → m.role ≡ tool
    → IsAnswered start conversation calls
    → IsAnswered start (conversation ++ m ∷ []) (suc calls)
append-IsAnswered start conversation calls m h (replies, e, l, roles) = (
  replies ++ m ∷ [],
  rw e (append_assoc start replies (m ∷ [])),
  omega (arith, length-append replies (m ∷ [])),
  All-append (λ m. m.role ≡ tool) replies (m ∷ []) roles (h, tt),
)

result-IsEnd :
    (start : List Message) (bound : ℕ) (s : Run)
    → s.iterations ≤ bound
    → ((s.iterations ≡ bound) → s.final_response ≡ "")
    → IsAnswered start s.conversation s.tool_calls_made
    → IsEnd start bound (result_of bound s)
result-IsEnd start bound s h f k = ground (arith, eq_iff s.final_response "")

module _ {ℓ μ} {W : Type ℓ} (py : Python) (cfg : ExecutorConfig W) (I : W → Type μ) (E : Type 0)
    (Known : String → Value → Type 0)
    (backend-Triple : (messages : List Message)
      → Triple I
          (λ r. All (λ tc. Known tc.name tc.arguments) r.tool_calls)
          E
          (cfg.backend messages))
    (tool_executor-Triple : (name : String) (args : Value) (caller : CallerContext)
      → Known name args
      → Triple I (λ _. Unit {0}) E (cfg.tool_executor name args caller)) where
  run_calls-Triple :
      (start : List Message) (caller : CallerContext) (tcs : List ToolCall)
      (conversation : List Message) (calls total : ℕ)
      → calls + length tcs ≡ total
      → IsAnswered start conversation calls
      → All (λ tc. Known tc.name tc.arguments) tcs
      → Triple I (λ out. IsAnswered start out total) E (run_calls py cfg caller tcs conversation)
  unfolding run_calls
  run_calls-Triple start caller [] conversation calls total e h k =
      pure-Triple I (λ out. IsAnswered start out total) E conversation
        (subst (IsAnswered start conversation) (omega (arith, e)) h)
  run_calls-Triple start caller (tc ∷ tcs) conversation calls total e h (k, ks) =
      bind-Triple I (λ _. Unit) (λ out. IsAnswered start out total) E
        (cfg.tool_executor tc.name tc.arguments caller)
        (λ result. run_calls py cfg caller tcs (conversation ++ tool_message py cfg tc result ∷ []))
        (tool_executor-Triple tc.name tc.arguments caller k)
        (λ result _.
          run_calls-Triple start caller tcs (conversation ++ tool_message py cfg tc result ∷ [])
            (suc calls) total (omega (arith, e))
            (append-IsAnswered start conversation calls (tool_message py cfg tc result) refl h) ks)

  answered-Triple :
      (start : List Message) (caller : CallerContext) (bound rounds : ℕ) (s : Run)
      (response : Response) (tcs : List ToolCall)
      → s.iterations < bound
      → IsAnswered start s.conversation s.tool_calls_made
      → All (λ tc. Known tc.name tc.arguments) tcs
      → ((tcs : List ToolCall) (conversation : List Message)
          → IsAnswered start conversation (s.tool_calls_made + length tcs)
          → Triple I
              (λ s. IsEnd start bound (result_of bound s))
              E
              (loop py cfg rounds caller (after_calls py cfg s tcs conversation)))
      → Triple I
          (λ s. IsEnd start bound (result_of bound s))
          E
          (elim tcs [
            | [] ↦ pure (record s { final_response = response.content })
            | tc ∷ tcs ↦ do
              conversation ← run_calls py cfg caller (tc ∷ tcs) s.conversation
              loop py cfg rounds caller (after_calls py cfg s (tc ∷ tcs) conversation)
          ])
  answered-Triple start caller bound rounds s response [] e h known again =
      pure-Triple I (λ s. IsEnd start bound (result_of bound s)) E
        (record s { final_response = response.content })
        (result-IsEnd start bound (record s { final_response = response.content })
          (omega (arith, e)) (λ k. absurd (omega (arith, e, k))) h)
  answered-Triple start caller bound rounds s response (tc ∷ tcs) e h known again =
      bind-Triple I (λ out. IsAnswered start out (s.tool_calls_made + length (tc ∷ tcs)))
        (λ s. IsEnd start bound (result_of bound s)) E
        (run_calls py cfg caller (tc ∷ tcs) s.conversation) _
        (run_calls-Triple start caller (tc ∷ tcs) s.conversation s.tool_calls_made
          (s.tool_calls_made + length (tc ∷ tcs)) refl h known)
        (again (tc ∷ tcs))

  -- the loop, with `rounds` rounds left of `bound`
  loop-Triple :
      (start : List Message) (caller : CallerContext) (bound rounds : ℕ) (s : Run)
      → s.iterations + rounds ≡ bound
      → s.final_response ≡ ""
      → IsAnswered start s.conversation s.tool_calls_made
      → Triple I (λ s. IsEnd start bound (result_of bound s)) E (loop py cfg rounds caller s)
  unfolding loop
  loop-Triple start caller bound zero s e f h =
      pure-Triple I (λ s. IsEnd start bound (result_of bound s)) E s
        (result-IsEnd start bound s (omega (arith, e)) (λ _. f) h)
  loop-Triple start caller bound (suc rounds) s e f h =
      bind-Triple I (λ r. All (λ tc. Known tc.name tc.arguments) r.tool_calls)
        (λ s. IsEnd start bound (result_of bound s)) E (cfg.backend s.conversation) _
        (backend-Triple s.conversation)
        (λ response known.
          answered-Triple start caller bound rounds s response response.tool_calls
            (omega (arith, e)) h known
            (λ tcs conversation k.
              loop-Triple start caller bound rounds (after_calls py cfg s tcs conversation)
                (omega (arith, e)) f k))

  pub execute-Triple :
      (req : ExecuteRequest) → Triple I (IsEnd (opening req) (limit cfg req)) E (execute py cfg req)
  unfolding execute
  execute-Triple req =
      bind-Triple I (λ s. IsEnd (opening req) (limit cfg req) (result_of (limit cfg req) s))
        (IsEnd (opening req) (limit cfg req)) E
        (loop py cfg (limit cfg req) req.caller_ctx (first_run req)) _
        (loop-Triple (opening req) req.caller_ctx (limit cfg req) (limit cfg req) (first_run req)
          (omega arith) refl ([], sym (append-nil (opening req)), refl, tt))
        (λ s h w i. (h, i))

All-any {ℓ} : {A : Type ℓ} (xs : List A) → All (λ _. Unit {0}) xs
All-any [] = tt
All-any (x ∷ xs) = (tt, All-any xs)

any_response :
    (r : Result Response)
    → Outcome (λ _. Unit {0}) ⊥ r
    → Outcome (λ r. All (λ _. Unit {0}) r.tool_calls) ⊥ r
any_response (ok r) h = All-any r.tool_calls
any_response (raise e) h = h

-- Where neither the backend nor the tool executor raises, a run of the executor returns a result.
-- Its rounds are at most the limit, and its reason is `max_iterations` exactly if they are the
-- limit, and then there is no response. With fewer rounds it is `complete` if there is a response
-- and `error` if there is none. The conversation is the system prompt, the history, the message of
-- the user, and then one message of a tool for each tool call that was made.
pub execute-IsEnd {ℓ} :
    {W : Type ℓ} (py : Python) (cfg : ExecutorConfig W) (req : ExecuteRequest) (w : W)
    → ((messages : List Message) (w : W) → Outcome (λ _. Unit {0}) ⊥ (cfg.backend messages w).0)
    → ((name : String) (args : Value) (caller : CallerContext) (w : W)
        → Outcome (λ _. Unit {0}) ⊥ (cfg.tool_executor name args caller w).0)
    → (r : ExecuteResult) × ((execute py cfg req w).0 ≡ ok r)
      × IsEnd (opening req) (limit cfg req) r
execute-IsEnd py cfg req w h k =
    Outcome-ok (IsEnd (opening req) (limit cfg req)) (execute py cfg req w).0
      (execute-Triple py cfg (λ _. Unit {0}) ⊥ (λ _ _. Unit)
        (λ messages w _. (any_response (cfg.backend messages w).0 (h messages w), tt))
        (λ name args caller _ w _. (k name args caller w, tt)) req w tt).0
