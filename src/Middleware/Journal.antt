-- ===== src/Middleware/Journal.antt =====
-- A journal of what a middleware does to its collaborators, newest entry first, and the rule that a
-- tool call is always preceded by the audit record of a decision that lets it through.
use agentware.Prelude.{String, ◌≡◌, ◌≢◌, Option, none, some, List, [], ◌∷◌}
use agentware.Prelude.Exec.{Exec, Result, ok, raise}
use agentware.Types.{deny, Args, CallerContext}
use agentware.Audit.{AuditRecord}
use agentware.Middleware.{Evaluate, Record, effective_args}

pub data Entry : Type 0 where
  evaluated : String → Args → CallerContext → Entry
  audited : AuditRecord → Entry
  called : String → Args → Entry

abbrev pub Journal : Type 0
Journal = List Entry

abbrev pub noted : Result (Unit {0}) → AuditRecord → Journal → Journal
noted (ok _) r j = audited r ∷ j
noted (raise e) r j = j

module _ {ℓ} {W : Type ℓ} where
  abbrev pub journal_evaluate : Evaluate W → Evaluate (W × Journal)
  journal_evaluate evaluate tool args caller (w, j) =
      let (r, w') = evaluate tool args caller w in (r, (w', evaluated tool args caller ∷ j))

  -- a record that raises leaves no entry
  abbrev pub journal_record : Record W → Record (W × Journal)
  journal_record auditor r (w, j) = let (done, w') = auditor r w in (done, (w', noted done r j))

  abbrev pub journal_call {κ} :
      {A : Type κ} → (String → Args → Exec W A) → String → Args → Exec (W × Journal) A
  journal_call call tool args (w, j) =
      let (r, w') = call tool args w in (r, (w', called tool args ∷ j))

  abbrev pub journal_evaluator : Option (Evaluate W) → Option (Evaluate (W × Journal))
  journal_evaluator none = none
  journal_evaluator (some evaluate) = some (journal_evaluate evaluate)

-- The entry below a call is the record of that tool, of arguments that become those of the call,
-- and of a decision other than `deny`.
abbrev pub IsJustAudited : String → Args → Journal → Type 0
IsJustAudited tool args (audited r ∷ j) =
    (r.decision.action ≢ deny) × (r.tool_name ≡ tool) × (args ≡ effective_args r.decision r.args)
IsJustAudited tool args _ = ⊥

abbrev pub IsGuarded : Journal → Type 0
IsGuarded (called tool args ∷ j) = IsJustAudited tool args j × IsGuarded j
IsGuarded (_ ∷ j) = IsGuarded j
IsGuarded [] = Unit
