-- ===== src/ToolClient/Enforcement.antt =====
-- `AuditedToolClient.Execute` authorizes and records before it runs the tool function.
use agentware.Prelude.{String, refl, Option, none, some, List, [], ◌∷◌, arith, Bool-cases, inl, inr}
use agentware.Prelude.Value.{Value}
use agentware.Prelude.Exec.{Exec, Result, ok, raise, continue, lift, ◌>>=◌}
use agentware.Types.{allow, deny, action_eq, Decision, new_decision}
use agentware.Middleware.{Evaluate, decide}
use agentware.Middleware.Journal.{
  Journal, noted, evaluated, audited, journal_evaluator, journal_record, journal_call, IsGuarded,
}
use agentware.ToolClient.{
  AuditedToolClient, Call, ToolFunction, NamedExecutor, choose_func, effective_caller, call_record,
  enforce, execute,
}

module _ {ℓ} {W : Type ℓ} (client : AuditedToolClient W) where
  abbrev journal_executor : Option (NamedExecutor W) → Option (NamedExecutor (W × Journal))
  journal_executor none = none
  journal_executor (some executor) = some (journal_call executor)

  abbrev journal_func : String → Option (ToolFunction W) → Option (ToolFunction (W × Journal))
  journal_func tool none = none
  journal_func tool (some func) = some (journal_call (λ _. func) tool)

  -- the client, and a call to it, whose collaborators write the journal
  abbrev pub journaled : AuditedToolClient (W × Journal)
  journaled = record {
    middleware_url = client.middleware_url;
    source = client.source;
    auditor = journal_record client.auditor;
    evaluator = journal_evaluator client.evaluator;
    executor = journal_executor client.executor;
  }

  abbrev pub journaled_call : Call W → Call (W × Journal)
  journaled_call c = record {
    tool_name = c.tool_name;
    tool_args = c.tool_args;
    user_id = c.user_id;
    channel_id = c.channel_id;
    guild_id = c.guild_id;
    func = journal_func c.tool_name c.func;
    caller = c.caller;
    decided_at = c.decided_at;
    recorded_at = c.recorded_at;
    uuid = c.uuid;
  }

  module _ (c : Call W) where
    enforce-IsGuarded :
        (func : ToolFunction W) (d : Decision) (w : W) (j : Journal)
        → IsGuarded j
        → IsGuarded
            (enforce
              (journal_call (λ _. func) c.tool_name)
              (journaled_call c)
              d
              (w, audited (call_record client c d) ∷ j)).1.1
    enforce-IsGuarded func d w j h = elim (Bool-cases (action_eq d.action deny)) [
      | inl e ↦ rw e h
      | inr e ↦ rw e ((ground arith, refl, refl), h)
    ]

    audit-IsGuarded :
        (func : ToolFunction W) (d : Decision) (done : Result (Unit {0})) (w : W) (j : Journal)
        → IsGuarded j
        → IsGuarded
            (continue done
              (λ _. enforce (journal_call (λ _. func) c.tool_name) (journaled_call c) d)
              (w, noted done (call_record client c d) j)).1.1
    audit-IsGuarded func d (ok _) w j h = enforce-IsGuarded func d w j h
    audit-IsGuarded func d (raise e) w j h = h

    -- `Execute` behind the choice of the tool function
    abbrev guarded : ToolFunction W → Decision → Exec (W × Journal) Value
    guarded func d = journal_record client.auditor (call_record client c d) >>= λ _.
        enforce (journal_call (λ _. func) c.tool_name) (journaled_call c) d

    decided-IsGuarded :
        (func : ToolFunction W) (decided : Result Decision) (w : W) (j : Journal)
        → IsGuarded j
        → IsGuarded (continue decided (guarded func) (w, j)).1.1
    decided-IsGuarded func (ok d) w j h =
        let (done, w') = client.auditor (call_record client c d) w in
        audit-IsGuarded func d done w' j h
    decided-IsGuarded func (raise e) w j h = h

    chosen-IsGuarded :
        (func : ToolFunction W) (o : Option (Evaluate W)) (w : W) (j : Journal)
        → IsGuarded j
        → IsGuarded
            ((decide
                  (journal_evaluator o)
                  c.decided_at
                  c.tool_name
                  c.tool_args
                  (effective_caller client c)
                >>= guarded func)
              (w, j)).1.1
    chosen-IsGuarded func none w j h =
        decided-IsGuarded func (ok (new_decision allow "" "no policy configured" c.decided_at)) w j
          h
    chosen-IsGuarded func (some evaluate) w j h =
        let (r, w') = evaluate c.tool_name c.tool_args (effective_caller client c) w in
        decided-IsGuarded func r w'
          (evaluated c.tool_name c.tool_args (effective_caller client c) ∷ j) h

    execute-IsGuarded :
        (w : W) (j : Journal)
        → IsGuarded j
        → IsGuarded (execute journaled (journaled_call c) (w, j)).1.1
    unfolding execute
    execute-IsGuarded w j h = go c.func client.executor
      where
        go :
            (f : Option (ToolFunction W)) (e : Option (NamedExecutor W))
            → IsGuarded
                ((lift (choose_func (journal_func c.tool_name f) (journal_executor e) c.tool_name)
                    >>= λ func.
                        decide
                          (journal_evaluator client.evaluator)
                          c.decided_at
                          c.tool_name
                          c.tool_args
                          (effective_caller client c)
                        >>= λ d. journal_record client.auditor (call_record client c d) >>= λ _.
                            enforce func (journaled_call c) d)
                  (w, j)).1.1
        go (some func) e = chosen-IsGuarded func client.evaluator w j h
        go none (some e) = chosen-IsGuarded (e c.tool_name) client.evaluator w j h
        go none none = h

  -- One call after the other; a call that raises leaves its state to the next.
  pub serve : W × Journal → List (Call W) → W × Journal
  serve s [] = s
  serve s (c ∷ cs) = serve (execute journaled (journaled_call c) s).1 cs

  -- Whatever the evaluator, the auditor and the tool functions do, and however they fail, after any
  -- calls of `Execute` that begin with a journal of this kind every run of a tool in the journal
  -- stands directly above the audit record of the same tool, whose decision is not `deny` and whose
  -- arguments, with that decision's redactions, are those of the run. So the record comes before the
  -- run, and not after it.
  pub client_serve-IsGuarded :
      (w : W) (j : Journal) (cs : List (Call W)) → IsGuarded j → IsGuarded (serve (w, j) cs).1
  unfolding serve
  client_serve-IsGuarded w j [] h = h
  client_serve-IsGuarded w j (c ∷ cs) h =
      let (w', j') = (execute journaled (journaled_call c) (w, j)).1 in
      client_serve-IsGuarded w' j' cs (execute-IsGuarded c w j h)
