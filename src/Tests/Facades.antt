-- ===== src/Tests/Facades.antt =====
-- The guardrails facade on a deployment that wants a build first, and the tests of its own target.
use agentware.Prelude.{◌≡◌, ◌↔◌, String, some, [], ◌∷◌, Bool, false, ◌==◌}
use agentware.Prelude.Value.{Value, str}
use agentware.Guardrails.Facade.{Call, Facade, execute, check}
use agentware.Guardrails.Facade.Checks.{IsReady, check_iff}

abbrev text_equal : Value → Value → Bool
text_equal (str s) (str t) = s == t
text_equal _ _ = false

abbrev on_target : String → String → Call
on_target tool target = record { tool = some tool; args = ("target", str target) ∷ [] }

abbrev facade : Facade
facade = record {
  tool_names = "build" ∷ "test" ∷ "deploy" ∷ [];
  required_steps = "build" ∷ [];
  terminal_tool = some "deploy";
  prerequisites = record { tool = "deploy"; requires = "test"; match_arg = some "target" } ∷ [];
  max_prereq_violations = 2;
  nudges = ("prerequisite", "Test this target first.") ∷ [];
  state = record {
    completed_steps = on_target "build" "web" ∷ on_target "test" "api" ∷ [];
    prereq_violations = 2;
    tool_errors = [];
  };
}

check_iff_example :
    ((check text_equal facade (on_target "deploy" "web" ∷ [])).0
      ≡ execute (on_target "deploy" "web" ∷ []))
    ↔ IsReady text_equal facade (on_target "deploy" "web" ∷ [])
check_iff_example = check_iff text_equal facade (on_target "deploy" "web" ∷ [])
