-- ===== src/Evaluator/FailClosed.antt =====
-- `KeiProxyEvaluator` allows a call only on an explicit affirmative answer.
use agentware.Prelude.{ℕ, String, ◌≡◌, ◌≢◌, ◌⊎◌, ◌↔◌, none, [], strip}
use agentware.Prelude.Value.{Value}
use agentware.Prelude.Python.{Python}
use agentware.Prelude.Exec.{Result, ok, raise}
use agentware.Types.{allow, deny, Decision}
use agentware.Evaluator.{decision, denied, AuthorizationResponse, from_result}

module _ (py : Python) where
  -- the answer, as it is compared
  abbrev pub token : AuthorizationResponse → String
  token r = py.lower (strip r.decision)

  abbrev pub IsAffirmative : String → Type 0
  IsAffirmative s = (s ≡ "permit") ⊎ (s ≡ "allow")

  -- What a translated answer may be.
  pub record IsFaithful (r : AuthorizationResponse) (d : Decision) : Type 0 where
    pub allowed : (d.action ≡ allow) ↔ IsAffirmative (token r)
    pub denied : (d.action ≡ deny) ⊎ (d.action ≡ allow)
    pub plain : d.redacted_args ≡ []
    pub enrolled :
        (d.enrollment ≢ none) ⊎ (d.connect ≢ none)
        → (token r ≡ "deny") ⊎ (token r ≡ "enrollment_required")

  module _ (quote : String → String) (r : AuthorizationResponse) (now : ℕ) where
    abbrev refusal : Decision
    refusal = denied py (token r) (quote (token r)) r now

  -- What an answer of the client becomes: a value is translated faithfully, an exception is denied.
  abbrev pub IsAnswered : Result Value → Decision → Type 0
  IsAnswered (ok raw) d = IsFaithful (from_result py raw) d
  IsAnswered (raise e) d = (d.action ≡ deny) × (d.redacted_args ≡ []) × (d.enrollment ≡ none)
