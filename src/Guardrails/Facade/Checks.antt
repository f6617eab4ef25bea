-- ===== src/Guardrails/Facade/Checks.antt =====
-- Which responses the facade lets through, and when it gives up.
use agentware.Prelude.{
  ℕ, suc, ◌<◌, ◌≡◌, ◌≢◌, ◌↔◌, refl, arith, Bool, true, false, not, ◌&&◌, Option, none, some, List,
  [], ◌∷◌, All, elem, is_some, if◌then◌else◌, String, is_empty, if_ind,
}
use agentware.Prelude.Value.{Value}
use agentware.Guardrails.Facade.{
  Call, Prerequisite, Facade, fatal, Kind, prerequisite, Refusal, Verdict, execute, refused,
  is_unknown, first_unknown, begins_terminal, missing_steps, is_met, first_unmet_of, first_unmet,
  violate, check_prerequisites, check,
}

module _ (equal : Value → Value → Bool) where
  first_unmet_of_iff :
      (completed : List Call) (c : Call) (ps : List Prerequisite)
      → (first_unmet_of equal completed c ps ≡ none)
        ↔ All (λ p. is_met equal completed c p ≡ true) ps
  unfolding first_unmet_of
  first_unmet_of_iff completed c [] = (λ _. tt, λ _. refl)
  first_unmet_of_iff completed c (p ∷ ps) = ground (arith, first_unmet_of_iff completed c ps)

  first_unmet_iff :
      (completed : List Call) (ps : List Prerequisite) (cs : List Call)
      → (first_unmet equal completed ps cs ≡ none)
        ↔ All (λ c. All (λ p. is_met equal completed c p ≡ true) ps) cs
  unfolding first_unmet
  first_unmet_iff completed ps [] = (λ _. tt, λ _. refl)
  first_unmet_iff completed ps (c ∷ cs) =
      ground (arith, first_unmet_of_iff completed c ps, first_unmet_iff completed ps cs)

  -- Every tool is configured, up to the first call whose tool is `None`.
  abbrev IsKnownThen : Facade → Option String → Type 0 → Type 0
  IsKnownThen g none rest = Unit
  IsKnownThen g (some tool) rest = (elem tool g.tool_names ≡ true) × rest

  abbrev pub IsKnown : Facade → List Call → Type 0
  IsKnown g [] = Unit
  IsKnown g (c ∷ cs) = IsKnownThen g c.tool (IsKnown g cs)

  IsKnown-iff :
      (g : Facade) (cs : List Call) → (is_some (first_unknown g cs) ≡ false) ↔ IsKnown g cs
  unfolding first_unknown
  IsKnown-iff g [] = (λ _. tt, λ _. refl)
  IsKnown-iff g (c ∷ cs) = go c.tool (IsKnown-iff g cs)
    where
      go :
          (tool : Option String)
          → (is_some (first_unknown g cs) ≡ false) ↔ IsKnown g cs
          → (is_some (if is_unknown g tool then tool else first_unknown g cs) ≡ false)
            ↔ IsKnownThen g tool (IsKnown g cs)
      go none h = (λ _. tt, λ _. refl)
      go (some tool) h = ground (arith, h)

  -- What a response must meet to be executed.
  pub record IsReady (g : Facade) (cs : List Call) : Type 0 where
    pub known : IsKnown g cs
    pub steps : (begins_terminal g cs && not (is_empty (missing_steps g))) ≡ false
    pub prerequisites :
        All (λ c. All (λ p. is_met equal g.state.completed_steps c p ≡ true) g.prerequisites) cs

  -- A check gives `execute` with the calls exactly if every tool is configured up to the first call
  -- whose tool is `None`, behind which tools are not looked up, no required step is missing where
  -- the first call is the terminal tool, and every prerequisite of every call is met by a completed
  -- step.
  pub check_iff : (g : Facade) (cs : List Call) → ((check equal g cs).0 ≡ execute cs) ↔ IsReady g cs
  unfolding check violate
  check_iff g cs =
      if_ind Iff (is_some (first_unknown g cs))
        (λ e.
          (λ h. absurd (ground arith), λ k. absurd (ground (arith, (IsKnown-iff g cs).1 k.known))))
        λ known.
          if_ind Iff (begins_terminal g cs && not (is_empty (missing_steps g)))
            (λ e. (λ h. absurd (ground arith), λ k. absurd (ground (arith, k.steps))))
            λ done.
              go known done (first_unmet equal g.state.completed_steps g.prerequisites cs) refl
    where
      Iff : Verdict × Facade → Type 0
      Iff r = (r.0 ≡ execute cs) ↔ IsReady g cs

      go :
          is_some (first_unknown g cs) ≡ false
          → (begins_terminal g cs && not (is_empty (missing_steps g))) ≡ false
          → (o : Option Prerequisite)
          → first_unmet equal g.state.completed_steps g.prerequisites cs ≡ o
          → Iff (check_prerequisites equal g cs o)
      go known done none e = (
        λ h. record {
          known = (IsKnown-iff g cs).0 known;
          steps = done;
          prerequisites = (first_unmet_iff g.state.completed_steps g.prerequisites cs).0 e;
        },
        λ k. refl,
      )
      go known done (some p) e = (
        λ h. absurd (ground arith),
        λ k. absurd (
            ground (
              arith,
              (first_unmet_iff g.state.completed_steps g.prerequisites cs).1 k.prerequisites,
            )),
      )

  abbrev violations : Facade → ℕ
  violations g = g.state.prereq_violations

  -- How a refusal counts: only one over a prerequisite adds a violation.
  abbrev CountsRefusal : Facade → Kind → Refusal → Facade → Type 0
  CountsRefusal g prerequisite r h =
      (violations h ≡ suc (violations g))
      × ((r.outcome ≡ fatal) ↔ (g.max_prereq_violations < violations h))
  CountsRefusal g _ r h = (h ≡ g) × (r.outcome ≢ fatal)

  abbrev pub Counts : Facade → Verdict × Facade → Type 0
  Counts g (execute cs, h) = h ≡ g
  Counts g (refused r, h) = CountsRefusal g r.kind r h
