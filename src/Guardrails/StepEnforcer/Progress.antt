-- ===== src/Guardrails/StepEnforcer/Progress.antt =====
-- When a step may run, and how marking, resetting and defining change that.
use agentware.Prelude.{
  String, ◌≡◌, ◌↔◌, inl, inr, refl, Bool, true, false, not, Option, some, List, [], ◌∷◌, All, keep,
  is_empty, Dict, lookup, insert, default, lookup-insert, lookup-remove, arith, eq_iff, ◌==◌, subst,
  Option-cases, if◌then◌else◌,
}
use agentware.Prelude.Exec.{ok}
use agentware.Guardrails.StepEnforcer.{
  StepEnforcer, add_terminal, completed, mark_step_complete, reset_session, is_complete,
  missing_steps, can_execute, validate_execution, is_terminal_allowed, get_allowed_terminals,
}

module _ (s : StepEnforcer) (session : String) where
  missing_empty_iff :
      (ps : List String)
      → (is_empty (missing_steps s session ps) ≡ true)
        ↔ All (λ p. is_complete s session p ≡ true) ps
  missing_empty_iff [] = (λ _. tt, λ _. refl)
  missing_empty_iff (p ∷ ps) = ground (arith, missing_empty_iff ps)

  -- A tool may run in a session exactly if it is not defined as a step, or every one of its
  -- prerequisites is complete there. Validation accepts it in exactly these cases, and the steps
  -- that are reported missing are the prerequisites that are not complete, in their order.
  pub can_execute_iff :
      (tool : String)
      → (((can_execute s session tool).0 ≡ true) ↔ (
          (ps : List String)
          → lookup tool s.step_definitions ≡ some ps
          → All (λ p. is_complete s session p ≡ true) ps))
        × ((validate_execution s session tool ≡ ok tt) ↔ ((can_execute s session tool).0 ≡ true))
        × ((can_execute s session tool).1
            ≡ keep
                (λ p. not (is_complete s session p))
                (default [] (lookup tool s.step_definitions)))
  unfolding can_execute validate_execution
  can_execute_iff tool = elim (Option-cases (lookup tool s.step_definitions)) [
    | inl e ↦
        rw (e, can_execute, validate_execution)
          ((λ _ ps k. cc k, λ _. refl), (λ _. refl, λ _. refl), refl)
    | inr (ps, e) ↦
        rw (e, can_execute, validate_execution)
          (
            (
              λ h qs k.
                  subst (All (λ p. is_complete s session p ≡ true)) (cc k)
                    ((missing_empty_iff ps).0 h),
              λ f. (missing_empty_iff ps).1 (f ps refl),
            ),
            (λ h. ground arith, λ h. ground arith),
            refl,
          )
  ]

  -- Marking a step completes that step in that session, and changes no other step and no other
  -- session.
  pub is_complete-mark_step_complete :
      (step other_session other_step : String)
      → is_complete (mark_step_complete s session step) other_session other_step ≡ (
          if session == other_session
          then (if step == other_step then true else is_complete s other_session other_step)
          else is_complete s other_session other_step)
  unfolding is_complete mark_step_complete
  is_complete-mark_step_complete step other_session other_step = ground (
    arith,
    lookup-insert session other_session (insert step true (completed s session)) s.completed_steps,
    lookup-insert step other_step true (completed s session),
    eq_iff session other_session,
    eq_iff step other_step,
  )

  -- A reset session has no complete step, and other sessions keep theirs.
  pub is_complete-reset_session :
      (other_session step : String)
      → is_complete (reset_session s session) other_session step
        ≡ (if session == other_session then false else is_complete s other_session step)
  unfolding is_complete reset_session lookup
  is_complete-reset_session other_session step =
      ground
        (arith, lookup-remove session other_session s.completed_steps, eq_iff session other_session)

  -- Terminals are recorded and never read: adding one changes no answer about steps or terminals.
  pub add_terminal_ignored :
      (tool : String) (allowed : Option (Dict Bool)) (asked : String)
      → (is_terminal_allowed (add_terminal s tool allowed) session asked
          ≡ is_terminal_allowed s session asked)
        × (get_allowed_terminals (add_terminal s tool allowed) session
            ≡ get_allowed_terminals s session)
  unfolding is_terminal_allowed get_allowed_terminals add_terminal is_complete
  add_terminal_ignored tool allowed asked = (refl, refl)
