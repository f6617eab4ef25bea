-- ===== src/Guardrails/StepEnforcer.antt =====
-- guardrails/step_enforcer.py
pub mod Progress
use agentware.Prelude.{
  String, Bool, true, false, not, Option, none, some, List, [], ◌∷◌, keep, keys, is_empty, Dict,
  lookup, insert, remove, default, join, if◌then◌else◌,
}
use agentware.Prelude.Exec.{Result, ok, raise, step_not_allowed}

pub record StepEnforcer : Type 0 where
  pub step_definitions : Dict (List String)
  pub completed_steps : Dict (Dict Bool)
  pub allowed_terminals : Dict (Dict Bool)

abbrev pub new_step_enforcer : StepEnforcer
new_step_enforcer = record { step_definitions = []; completed_steps = []; allowed_terminals = [] }

unfoldable pub add_step : StepEnforcer → String → Option (List String) → StepEnforcer
unfolding insert
add_step s tool prerequisites = record s {
  step_definitions = insert tool (default [] prerequisites) s.step_definitions;
}

unfoldable pub add_terminal : StepEnforcer → String → Option (Dict Bool) → StepEnforcer
unfolding insert
add_terminal s tool allowed = record s {
  allowed_terminals = insert tool (default [] allowed) s.allowed_terminals;
}

-- the steps of a session, `{}` where it has none
abbrev pub completed : StepEnforcer → String → Dict Bool
completed s session = default [] (lookup session s.completed_steps)

unfoldable pub mark_step_complete : StepEnforcer → String → String → StepEnforcer
mark_step_complete s session step = record s {
  completed_steps = insert session (insert step true (completed s session)) s.completed_steps;
}

unfoldable pub reset_session : StepEnforcer → String → StepEnforcer
reset_session s session = record s { completed_steps = remove session s.completed_steps }

-- `completed.get(p, False)`
unfoldable pub is_complete : StepEnforcer → String → String → Bool
is_complete s session step = default false (lookup step (completed s session))

abbrev pub missing_steps : StepEnforcer → String → List String → List String
missing_steps s session prereqs = keep (λ p. not (is_complete s session p)) prereqs

unfoldable pub can_execute : StepEnforcer → String → String → Bool × List String
can_execute s session tool = elim (lookup tool s.step_definitions) [
  | none ↦ (true, [])
  | some prereqs ↦ let missing = missing_steps s session prereqs in (is_empty missing, missing)
]

unfoldable pub validate_execution : StepEnforcer → String → String → Result (Unit {0})
unfolding can_execute
validate_execution s session tool =
    let (allowed, missing) = can_execute s session tool in
    if allowed then ok tt else raise (step_not_allowed tool (join ", " missing))

unfoldable pub is_terminal_allowed : StepEnforcer → String → String → Bool
unfolding can_execute
is_terminal_allowed s session tool = (can_execute s session tool).0

unfoldable pub get_allowed_terminals : StepEnforcer → String → List String
unfolding can_execute
get_allowed_terminals s session =
    keep (λ tool. (can_execute s session tool).0) (keys s.step_definitions)
