-- ===== src/Middleware/Enforcement.antt =====
-- `MiddlewareImpl.execute` never runs a tool that policy denied or that is not in the audit trail.
use agentware.Prelude.{
  All, String, ◌≡◌, ◌≢◌, refl, false, Option, none, some, List, [], ◌∷◌, arith, Bool-cases, inl,
  inr, IsDict, lookup, not, is_empty, merge, lookup-merge, first_of_two, if◌then◌else◌,
}
use agentware.Prelude.Value.{null}
use agentware.Prelude.Exec.{Result, ok, raise, continue, ◌>>=◌}
use agentware.Types.{allow, deny, filter, action_eq, Args, Decision, new_decision}
use agentware.Middleware.{
  Evaluate, Record, ToolResult, ExecuteTool, MiddlewareImpl, Request, record_of, denial,
  effective_args, execute, enforce, decide,
}
use agentware.Middleware.Journal.{
  Entry, Journal, noted, evaluated, audited, called, journal_evaluator, journal_record,
  journal_call, IsGuarded,
}

module _ {ℓ} {W : Type ℓ} (executor : ExecuteTool W) (evaluator : Option (Evaluate W))
    (auditor : Record W) where
  -- a middleware with an auditor, whose collaborators write the journal
  abbrev pub journaled : MiddlewareImpl (W × Journal)
  journaled = record {
    executor = journal_call executor;
    evaluator = journal_evaluator evaluator;
    auditor = some (journal_record auditor);
  }

  enforce-IsGuarded :
      (q : Request) (d : Decision) (w : W) (j : Journal)
      → IsGuarded j
      → IsGuarded (enforce journaled q d (w, audited (record_of q d) ∷ j)).1.1
  enforce-IsGuarded q d w j h = elim (Bool-cases (action_eq d.action deny)) [
    | inl e ↦ rw e h
    | inr e ↦ rw e ((ground arith, refl, refl), h)
  ]

  audit-IsGuarded :
      (q : Request) (d : Decision) (done : Result (Unit {0})) (w : W) (j : Journal)
      → IsGuarded j
      → IsGuarded (continue done (λ _. enforce journaled q d) (w, noted done (record_of q d) j)).1.1
  audit-IsGuarded q d (ok _) w j h = enforce-IsGuarded q d w j h
  audit-IsGuarded q d (raise e) w j h = h

  decided-IsGuarded :
      (q : Request) (decided : Result Decision) (w : W) (j : Journal)
      → IsGuarded j
      → IsGuarded
          (continue decided
            (λ d. journal_record auditor (record_of q d) >>= λ _. enforce journaled q d)
            (w, j)).1.1
  decided-IsGuarded q (ok d) w j h =
      let (done, w') = auditor (record_of q d) w in audit-IsGuarded q d done w' j h
  decided-IsGuarded q (raise e) w j h = h

  pub execute-IsGuarded :
      (q : Request) (w : W) (j : Journal) → IsGuarded j → IsGuarded (execute journaled q (w, j)).1.1
  unfolding execute
  execute-IsGuarded q w j h = go evaluator
    where
      go :
          (o : Option (Evaluate W))
          → IsGuarded
              ((decide (journal_evaluator o) q.decided_at q.tool_name q.args q.caller >>= λ d.
                  journal_record auditor (record_of q d) >>= λ _. enforce journaled q d)
                (w, j)).1.1
      go none =
          decided-IsGuarded q (ok (new_decision allow "" "no policy configured" q.decided_at)) w j h
      go (some evaluate) =
          let (r, w') = evaluate q.tool_name q.args q.caller w in
          decided-IsGuarded q r w' (evaluated q.tool_name q.args q.caller ∷ j) h

  -- A request adds only entries of its own.
  module _ (P : Entry → Type 0) (q : Request)
      (P-evaluated : P (evaluated q.tool_name q.args q.caller))
      (P-audited : (d : Decision) → P (audited (record_of q d)))
      (P-called : (args : Args) → P (called q.tool_name args)) where
    enforce-All :
        (d : Decision) (w : W) (j : Journal) → All P j → All P (enforce journaled q d (w, j)).1.1
    enforce-All d w j h = elim (Bool-cases (action_eq d.action deny)) [
      | inl e ↦ rw e h
      | inr e ↦ rw e (P-called (effective_args d q.args), h)
    ]

    audit-All :
        (d : Decision) (done : Result (Unit {0})) (w : W) (j : Journal)
        → All P j
        → All P (continue done (λ _. enforce journaled q d) (w, noted done (record_of q d) j)).1.1
    audit-All d (ok _) w j h = enforce-All d w (audited (record_of q d) ∷ j) (P-audited d, h)
    audit-All d (raise e) w j h = h

    decided-All :
        (decided : Result Decision) (w : W) (j : Journal)
        → All P j
        → All P
            (continue decided
              (λ d. journal_record auditor (record_of q d) >>= λ _. enforce journaled q d)
              (w, j)).1.1
    decided-All (ok d) w j h = let (done, w') = auditor (record_of q d) w in audit-All d done w' j h
    decided-All (raise e) w j h = h

    pub execute-All : (w : W) (j : Journal) → All P j → All P (execute journaled q (w, j)).1.1
    unfolding execute
    execute-All w j h = go evaluator
      where
        go :
            (o : Option (Evaluate W))
            → All P
                ((decide (journal_evaluator o) q.decided_at q.tool_name q.args q.caller >>= λ d.
                    journal_record auditor (record_of q d) >>= λ _. enforce journaled q d)
                  (w, j)).1.1
        go none = decided-All (ok (new_decision allow "" "no policy configured" q.decided_at)) w j h
        go (some evaluate) =
            let (r, w') = evaluate q.tool_name q.args q.caller w in
            decided-All r w' (evaluated q.tool_name q.args q.caller ∷ j) (P-evaluated, h)

  -- One request after the other; a request that raises leaves its state to the next.
  pub serve : W × Journal → List Request → W × Journal
  serve s [] = s
  serve s (q ∷ qs) = serve (execute journaled q s).1 qs

  -- Whatever the evaluator, the auditor and the tools do, and however they fail, after any requests
  -- that begin with a journal of this kind every tool call in the journal stands directly above the
  -- audit record of the same tool, whose decision is not `deny` and whose arguments, with that
  -- decision's redactions, are those of the call.
  pub serve-IsGuarded :
      (w : W) (j : Journal) (qs : List Request) → IsGuarded j → IsGuarded (serve (w, j) qs).1
  unfolding serve
  serve-IsGuarded w j [] h = h
  serve-IsGuarded w j (q ∷ qs) h =
      let (w', j') = (execute journaled q (w, j)).1 in
      serve-IsGuarded w' j' qs (execute-IsGuarded q w j h)

  -- Where the evaluator denies and the auditor records, a request returns a failure that names the
  -- reason. The journal gains the evaluation and the audit record of the denial and no call, and
  -- the auditor is the last to have touched the state.
  pub execute_denied :
      (q : Request) (evaluate : Evaluate W) (w w₁ w₂ : W) (j : Journal) (d : Decision)
      → evaluator ≡ some evaluate
      → evaluate q.tool_name q.args q.caller w ≡ (ok d, w₁)
      → auditor (record_of q d) w₁ ≡ (ok tt, w₂)
      → d.action ≡ deny
      → execute journaled q (w, j) ≡ (
        ok (null, false, denial d),
        (w₂, audited (record_of q d) ∷ evaluated q.tool_name q.args q.caller ∷ j),
      )
  unfolding execute
  execute_denied q evaluate w w₁ w₂ j d e h k deny! = rw (e, h, k, deny!)

  -- Where the evaluator returns a decision other than `deny` and the auditor records, a request
  -- calls the tool once, after the evaluation and the audit record, with the effective arguments,
  -- and returns what the tool returns or raises.
  pub execute_passed :
      (q : Request) (evaluate : Evaluate W) (w w₁ w₂ w₃ : W) (j : Journal) (d : Decision)
      (r : Result ToolResult)
      → evaluator ≡ some evaluate
      → evaluate q.tool_name q.args q.caller w ≡ (ok d, w₁)
      → auditor (record_of q d) w₁ ≡ (ok tt, w₂)
      → d.action ≢ deny
      → executor q.tool_name (effective_args d q.args) w₂ ≡ (r, w₃)
      → execute journaled q (w, j) ≡ (
        r,
        (
          w₃,
          called q.tool_name (effective_args d q.args)
              ∷ audited (record_of q d)
              ∷ evaluated q.tool_name q.args q.caller
              ∷ j,
        ),
      )
  unfolding execute
  execute_passed q evaluate w w₁ w₂ w₃ j d r e h k n c =
      let passed : action_eq d.action deny ≡ false = ground arith in simp (e, h, k, passed, c)

-- If no key stands twice in the redactions, the arguments that a tool receives show, at each key,
-- the redacted value if the decision filters and has one, and the caller's value otherwise.
pub lookup-effective_args :
    (d : Decision) (args : Args) (k : String)
    → IsDict d.redacted_args
    → lookup k (effective_args d args) ≡ (
        if action_eq d.action filter
        then first_of_two (lookup k d.redacted_args) (lookup k args)
        else lookup k args)
unfolding effective_args merge
lookup-effective_args d args k h = elim (Bool-cases (action_eq d.action filter)) [
  | inl e ↦ rw e (go d.redacted_args h)
  | inr e ↦ rw e
]
  where
    go :
        (redacted : Args)
        → IsDict redacted
        → lookup k (if not (is_empty redacted) then merge args redacted else args)
          ≡ first_of_two (lookup k redacted) (lookup k args)
    go [] h = lookup-merge k args [] h
    go (e ∷ redacted) h = lookup-merge k args (e ∷ redacted) h
