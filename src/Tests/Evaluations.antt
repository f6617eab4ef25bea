-- ===== src/Tests/Evaluations.antt =====
-- The evaluator with a client that permits reads and fails on everything else.
use agentware.Prelude.{ℕ, ◌≡◌, [], ◌∷◌, Option, if◌then◌else◌, ◌==◌}
use agentware.Prelude.Value.{Value, str, object}
use agentware.Prelude.Exec.{ok, raise, Exec, authorize_error}
use agentware.Types.{Args}
use agentware.Evaluator.{
  AuthorizationClient, AuthorizeArgs, AuditContext, modern, Printer, authorize, resource_type,
  resources_touched,
}
use agentware.Evaluator.Resources.{Bounded, resources_touched-Bounded}
use agentware.Tests.Fixtures.{plain_python}

abbrev printer : Printer
printer = record { quote = λ s. s; message = λ e. "failed"; digest = λ args. "d0" }

abbrev ask : AuthorizeArgs → Option AuditContext → Exec ℕ Value
ask a context n =
    if a.tool == "github.get"
    then (ok (object (("decision", str " permit ") ∷ [])), n)
    else (raise (authorize_error "unreachable" "timed out"), n)

abbrev client : AuthorizationClient ℕ
client = record { shape = modern; authorize = ask }

abbrev repo_args : Args
repo_args = ("owner", str "acme") ∷ ("repo", str "site") ∷ ("path", str "README.md") ∷ []

resources_touched-Bounded_example :
    Bounded plain_python
      (resource_type plain_python "github.get")
      5
      (resources_touched plain_python "github.get" repo_args)
    × (resource_type plain_python "github.get" ≡ ""
        → resources_touched plain_python "github.get" repo_args ≡ [])
resources_touched-Bounded_example = resources_touched-Bounded plain_python "github.get" repo_args
