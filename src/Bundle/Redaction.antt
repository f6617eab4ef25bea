-- ===== src/Bundle/Redaction.antt =====
-- What becomes of the `redact_fields` of a rule when a tool is called behind a policy bundle.
use agentware.Prelude.{ℕ, String, ◌≡◌, arith, []}
use agentware.Prelude.Python.{Python}
use agentware.Types.{Args, CallerContext, Decision}
use agentware.Middleware.{effective_args}
use agentware.Bundle.{PolicyBundleData, evaluate_bundle}
use agentware.Bundle.FirstMatch.{evaluate_bundle-Verdict}

unredacted : (d : Decision) (args : Args) → d.redacted_args ≡ [] → effective_args d args ≡ args
unfolding effective_args
unredacted d args h = rw h (ground arith)

-- Whatever fields the rules of a bundle redact, and also where the deciding rule filters, the
-- arguments that a tool receives behind a decision of the bundle are those of the caller.
pub effective_args-evaluate_bundle :
    (py : Python) (b : PolicyBundleData) (tool : String) (args : Args) (caller : CallerContext)
    (now : ℕ)
    → effective_args (evaluate_bundle py b tool args caller now) args ≡ args
effective_args-evaluate_bundle py b tool args caller now =
    let (o, v, e, plain) = evaluate_bundle-Verdict py tool args caller b now in
    unredacted (evaluate_bundle py b tool args caller now) args plain
