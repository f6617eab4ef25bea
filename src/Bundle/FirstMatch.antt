-- ===== src/Bundle/FirstMatch.antt =====
-- The decision of a bundle is that of its first rule that applies.
use agentware.Prelude.{
  ℕ, String, ◌≡◌, ◌⊎◌, ◌↔◌, inl, inr, refl, ap, Bool, true, ◌&&◌, ◌||◌, Option, none, some, List,
  [], ◌∷◌, ◌++◌, All, any, all, is_empty, default, eq_iff, arith, Bool-cases, if◌then◌else◌,
}
use agentware.Prelude.Value.{Value, null, bool, int, float, str, list, dict, is_text}
use agentware.Prelude.Python.{Python}
use agentware.Types.{Args, CallerContext, Decision}
use agentware.Bundle.{
  Condition, Rule, PolicyBundleData, matches_tool, evaluate_condition, evaluate_conditions,
  matched_decision, evaluate_rules, default_decision, evaluate_bundle,
}

-- The tool, or the wildcard, is in the list.
abbrev pub IsNamed : String → List Value → Type 0
IsNamed tool [] = ⊥
IsNamed tool (v ∷ vs) = ((v ≡ str tool) ⊎ (v ≡ str "*")) ⊎ IsNamed tool vs

is_text_iff : (s : String) (v : Value) → (is_text s v ≡ true) ↔ (v ≡ str s)
is_text_iff s (str t) = ground (arith, eq_iff t s)
is_text_iff s null = ground arith
is_text_iff s (bool b) = ground arith
is_text_iff s (int z) = ground arith
is_text_iff s (float r) = ground arith
is_text_iff s (list vs) = ground arith
is_text_iff s (dict fs) = ground arith

IsNamed-iff :
    (tool : String) (vs : List Value)
    → ((any (is_text tool) vs || any (is_text "*") vs) ≡ true) ↔ IsNamed tool vs
IsNamed-iff tool [] = ground arith
IsNamed-iff tool (v ∷ vs) =
    ground (arith, is_text_iff tool v, is_text_iff "*" v, IsNamed-iff tool vs)

module _ (py : Python) (tool : String) (args : Args) (caller : CallerContext) where
  -- A rule applies to a call if it names no tool, the tool or the wildcard, and each of its
  -- conditions holds.
  pub record Applies (r : Rule) : Type 0 where
    pub tools : (r.tools ≡ []) ⊎ IsNamed tool r.tools
    pub conditions : All (λ c. evaluate_condition py args caller c ≡ true) r.conditions

  abbrev accepts : Rule → Bool
  accepts r = matches_tool r tool && evaluate_conditions py r args caller

  all_iff :
      (cs : List Condition)
      → (all (evaluate_condition py args caller) cs ≡ true)
        ↔ All (λ c. evaluate_condition py args caller c ≡ true) cs
  all_iff [] = ground arith
  all_iff (c ∷ cs) = ground (arith, all_iff cs)

  matches_tool_iff :
      (r : Rule) → (matches_tool r tool ≡ true) ↔ ((r.tools ≡ []) ⊎ IsNamed tool r.tools)
  unfolding matches_tool
  matches_tool_iff r = go r.tools
    where
      go :
          (vs : List Value)
          → ((if is_empty vs then true else any (is_text tool) vs || any (is_text "*") vs) ≡ true)
            ↔ ((vs ≡ []) ⊎ IsNamed tool vs)
      go [] = (λ _. inl refl, λ _. refl)
      go (v ∷ vs) = (λ h. inr ((IsNamed-iff tool (v ∷ vs)).0 h), back)
        where
          back :
              ((v ∷ vs ≡ []) ⊎ IsNamed tool (v ∷ vs))
              → (any (is_text tool) (v ∷ vs) || any (is_text "*") (v ∷ vs)) ≡ true
          back (inl e) = cc
          back (inr h) = (IsNamed-iff tool (v ∷ vs)).1 h

  conditions_iff :
      (r : Rule)
      → (evaluate_conditions py r args caller ≡ true)
        ↔ All (λ c. evaluate_condition py args caller c ≡ true) r.conditions
  unfolding evaluate_conditions
  conditions_iff r = go r.conditions
    where
      go :
          (cs : List Condition)
          → ((if is_empty cs then true else all (evaluate_condition py args caller) cs) ≡ true)
            ↔ All (λ c. evaluate_condition py args caller c ≡ true) cs
      go [] = (λ _. tt, λ _. refl)
      go (c ∷ cs) = all_iff (c ∷ cs)

  accepts_iff : (r : Rule) → (accepts r ≡ true) ↔ Applies r
  accepts_iff r = (
    λ h. record {
      tools = (matches_tool_iff r).0 (ground arith);
      conditions = (conditions_iff r).0 (ground arith);
    },
    λ a. rw ((matches_tool_iff r).1 a.tools) ((conditions_iff r).1 a.conditions),
  )

  -- The first rule that applies, with the rules before and behind it.
  pub record IsFirst (rules : List Rule) (r : Rule) : Type 0 where
    pub before : List Rule
    pub behind : List Rule
    pub split : rules ≡ before ++ r ∷ behind
    pub passed_over : All (λ s. ¬ Applies s) before
    pub applies : Applies r

  -- What a list of rules says of the call.
  pub data Verdict (now : ℕ) (rules : List Rule) : Option Decision → Type 0 where
    by_rule : (r : Rule) → IsFirst rules r → Verdict now rules (some (matched_decision py r now))
    by_default : All (λ s. ¬ Applies s) rules → Verdict now rules none

  cons-Verdict :
      {now : ℕ} {rules : List Rule} {o : Option Decision} (s : Rule)
      → ¬ Applies s
      → Verdict now rules o
      → Verdict now (s ∷ rules) o
  cons-Verdict s skip (by_rule r f) = by_rule r (record {
    before = s ∷ f.before;
    behind = f.behind;
    split = ap (◌∷◌ s) f.split;
    passed_over = (skip, f.passed_over);
    applies = f.applies;
  })
  cons-Verdict s skip (by_default none_applies) = by_default (skip, none_applies)

  evaluate_rules-Verdict :
      (now : ℕ) (rules : List Rule)
      → Verdict now rules (evaluate_rules py rules tool args caller now)
  unfolding evaluate_rules
  evaluate_rules-Verdict now [] = by_default tt
  evaluate_rules-Verdict now (r ∷ rules) = elim (Bool-cases (matches_tool r tool)) [
    | inr e ↦
        rw e (cons-Verdict r (λ a. cc (e, (accepts_iff r).1 a)) (evaluate_rules-Verdict now rules))
    | inl e ↦ elim (Bool-cases (evaluate_conditions py r args caller)) [
      | inr k ↦
          rw (e, k)
            (cons-Verdict r (λ a. cc (e, k, (accepts_iff r).1 a))
              (evaluate_rules-Verdict now rules))
      | inl k ↦
          rw (e, k)
            (by_rule r (record {
              before = [];
              behind = rules;
              split = refl;
              passed_over = tt;
              applies = (accepts_iff r).0 (rw (e, k));
            }))
    ]
  ]

  pub evaluate_bundle-Verdict :
      (b : PolicyBundleData) (now : ℕ)
      → (o : Option Decision) × Verdict now b.rules o
        × (evaluate_bundle py b tool args caller now ≡ default (default_decision py b now) o)
        × ((evaluate_bundle py b tool args caller now).redacted_args ≡ [])
  unfolding evaluate_bundle
  evaluate_bundle-Verdict b now = (
    evaluate_rules py b.rules tool args caller now,
    evaluate_rules-Verdict now b.rules,
    refl,
    plain (evaluate_rules-Verdict now b.rules),
  )
    where
      plain :
          {o : Option Decision}
          → Verdict now b.rules o
          → (default (default_decision py b now) o).redacted_args ≡ []
      plain (by_rule r f) = refl
      plain (by_default h) = ground arith
