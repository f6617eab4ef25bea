-- ===== src/Guardrails/Facade.antt =====
-- guardrails/facade.py: responses checked against a configuration, and the progress that they are
-- checked against. Calls, steps and prerequisites have the keys that the code reads by `[...]`; the
-- equality of argument values is given from outside.
pub mod Checks
use agentware.Prelude.{
  ℕ, suc, String, Bool, true, false, not, ◌&&◌, ◌||◌, Option, none, some, List, [], ◌∷◌, ◌++◌, Dict,
  lookup, default, is_some, any, elem, is_empty, keep, ltb, ◌==◌, if◌then◌else◌,
}
use agentware.Prelude.Value.{Value, null}
use agentware.Types.{Args}

-- a tool call, and a completed step; the tool may be `None`
pub record Call : Type 0 where
  pub tool : Option String
  pub args : Args

-- an empty `match_arg` acts as none
pub record Prerequisite : Type 0 where
  pub tool : String
  pub requires : String
  pub match_arg : Option String

pub record Progress : Type 0 where
  pub completed_steps : List Call
  pub prereq_violations : ℕ
  pub tool_errors : List (String × String)

pub record Facade : Type 0 where
  pub tool_names : List String
  pub required_steps : List String
  pub terminal_tool : Option String
  pub prerequisites : List Prerequisite
  pub max_prereq_violations : ℕ
  pub nudges : Dict String
  pub state : Progress

pub data Outcome : Type 0 where
  retry step_blocked fatal : Outcome

pub data Kind : Type 0 where
  unknown_tool step prerequisite : Kind

pub record Refusal : Type 0 where
  pub outcome : Outcome
  pub kind : Kind
  pub missing_steps : List String
  pub missing_prerequisites : List String
  pub prereq_violations : Option ℕ
  pub nudge_text : Option String

pub data Verdict : Type 0 where
  execute : List Call → Verdict
  refused : Refusal → Verdict

abbrev nudge_key : Outcome → Kind → String
nudge_key fatal kind = "fatal"
nudge_key _ unknown_tool = "retry"
nudge_key _ step = "step_blocked"
nudge_key _ prerequisite = "prerequisite"

-- an empty text is none
abbrev nudge_of : Dict String → String → Option String
nudge_of nudges key =
    let text = default "" (lookup key nudges) in if text == "" then none else some text

abbrev pub refusal : Facade → Outcome → Kind → List String → List String → Option ℕ → Refusal
refusal g outcome kind steps prerequisites violations = record {
  outcome = outcome;
  kind = kind;
  missing_steps = steps;
  missing_prerequisites = prerequisites;
  prereq_violations = violations;
  nudge_text = nudge_of g.nudges (nudge_key outcome kind);
}

-- `tool == name`
abbrev pub is_named : String → Option String → Bool
is_named name none = false
is_named name (some tool) = tool == name

abbrev pub is_tool : String → Call → Bool
is_tool tool c = is_named tool c.tool

-- `tool not in self.tool_names`
abbrev pub is_unknown : Facade → Option String → Bool
is_unknown g none = true
is_unknown g (some tool) = not (elem tool g.tool_names)

-- The tool of the first call whose tool is not configured. `None` stands for no such call, and is also
-- what a call without a tool gives.
unfoldable pub first_unknown : Facade → List Call → Option String
first_unknown g [] = none
first_unknown g (c ∷ cs) =
    let rest = first_unknown g cs in if is_unknown g c.tool then c.tool else rest

-- `tool == self.terminal_tool`, where both may be `None`
abbrev is_terminal : Option String → Option String → Bool
is_terminal none none = true
is_terminal none (some tool) = false
is_terminal (some terminal) tool = is_named terminal tool

-- the first call is one of the terminal tool
abbrev pub begins_terminal : Facade → List Call → Bool
begins_terminal g [] = false
begins_terminal g (c ∷ cs) = is_terminal g.terminal_tool c.tool

abbrev pub missing_steps : Facade → List String
missing_steps g = keep (λ name. not (any (is_tool name) g.state.completed_steps)) g.required_steps

module _ (equal : Value → Value → Bool) where
  abbrev get_arg : Args → String → Value
  get_arg args key = default null (lookup key args)

  abbrev matches_arg : Option String → Call → Call → Bool
  matches_arg none c entry = true
  matches_arg (some key) c entry =
      if key == "" then true else equal (get_arg entry.args key) (get_arg c.args key)

  -- the prerequisite is one of another tool, or a completed step meets it
  abbrev pub is_met : List Call → Call → Prerequisite → Bool
  is_met completed c p =
      not (is_tool p.tool c)
      || any (λ entry. is_tool p.requires entry && matches_arg p.match_arg c entry) completed

  unfoldable pub first_unmet_of : List Call → Call → List Prerequisite → Option Prerequisite
  first_unmet_of completed c [] = none
  first_unmet_of completed c (p ∷ ps) =
      let rest = first_unmet_of completed c ps in if is_met completed c p then rest else some p

  -- the two loops over calls and prerequisites
  unfoldable pub first_unmet : List Call → List Prerequisite → List Call → Option Prerequisite
  unfolding first_unmet_of
  first_unmet completed ps [] = none
  first_unmet completed ps (c ∷ cs) = elim (first_unmet_of completed c ps) [
    | some p ↦ some p
    | none ↦ first_unmet completed ps cs
  ]

  unfoldable pub violate : Facade → Prerequisite → Verdict × Facade
  violate g p =
      let violations = suc g.state.prereq_violations in
      (
        refused (
            refusal g (if ltb g.max_prereq_violations violations then fatal else retry) prerequisite
              [] (p.requires ∷ []) (some violations)),
        record g { state = record g.state { prereq_violations = violations } },
      )

  abbrev pub check_prerequisites : Facade → List Call → Option Prerequisite → Verdict × Facade
  check_prerequisites g calls none = (execute calls, g)
  check_prerequisites g calls (some p) = violate g p

  unfoldable pub check : Facade → List Call → Verdict × Facade
  unfolding first_unknown
  check g calls =
      if is_some (first_unknown g calls)
      then (refused (refusal g retry unknown_tool [] [] none), g)
      else if begins_terminal g calls && not (is_empty (missing_steps g))
      then (refused (refusal g step_blocked step (missing_steps g) [] none), g)
      else check_prerequisites g calls (first_unmet g.state.completed_steps g.prerequisites calls)

-- a state that comes with a call takes the place of the one that is kept
abbrev with_state : Facade → Option Progress → Facade
with_state g none = g
with_state g (some s) = record g { state = s }

-- `check(response, state)` and `record(record, state)`
unfoldable pub check_response :
    (Value → Value → Bool) → Facade → List Call → Option Progress → Verdict × Facade
check_response equal g calls state = check equal (with_state g state) calls

-- What is recorded: a completed step, or an error with its category.
pub data Report : Type 0 where
  step_done : Call → Report
  tool_failed : (tool category : String) → Report

pub data Recorded : Type 0 where
  steps_recorded : List Call → Recorded
  errors_recorded : List (String × String) → Option String → Recorded

unfoldable pub record_report : Facade → Report → Recorded × Facade
record_report g (step_done c) =
    let steps = g.state.completed_steps ++ c ∷ [] in
    (steps_recorded steps, record g { state = record g.state { completed_steps = steps } })
record_report g (tool_failed tool category) =
    let errors = g.state.tool_errors ++ (tool, category) ∷ [] in
    (
      errors_recorded errors (nudge_of g.nudges "retry"),
      record g { state = record g.state { tool_errors = errors } },
    )

unfoldable pub record_response : Facade → Report → Option Progress → Recorded × Facade
record_response g report state = record_report (with_state g state) report
