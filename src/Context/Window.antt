-- ===== src/Context/Window.antt =====
-- python/src/haikeilabs/agentware/llmcontext/context_window.py: the manager of a context window with
-- its tiered strategy. Ratios are floats, whose operations are given from outside; the lock is held
-- by every operation, so each is one step.
pub mod Thresholds
pub mod Events
use agentware.Prelude.{
  ℕ, String, Bool, true, false, not, ◌||◌, Option, none, some, List, [], ◌∷◌, ◌++◌, length, default,
  nat_eq, ltb, leb, if◌then◌else◌,
}
use agentware.Llm.{Message}
use agentware.Context.{TokenCounter, TieredCompact}
use agentware.Context

-- `int(window * ratio)`, `tokens / budget >= threshold`, and the equality that a set uses
pub record Ratios (R : Type 0) : Type 0 where
  pub scale : ℕ → R → ℕ
  pub reached : ℕ → ℕ → R → Bool
  pub same : R → R → Bool

-- The callback is given the tokens and the budget, which determine the ratio that it is also given.
-- `context_thresholds` is sorted by the constructor.
pub record ContextWindowManager (R : Type 0) : Type 0 where
  pub context_window : ℕ
  pub compaction_ratio : R
  pub counter : TokenCounter
  pub strategy : TieredCompact
  pub last_known_tokens : Option ℕ
  pub context_thresholds : List R
  pub on_context_threshold : ℕ → ℕ → Option String
  pub fired_thresholds : List R

pub record CompactEvent : Type 0 where
  pub step_index : ℕ
  pub tokens_before : ℕ
  pub tokens_after : ℕ
  pub budget_tokens : ℕ
  pub messages_before : ℕ
  pub messages_after : ℕ
  pub phase_reached : ℕ
  pub strategy_name : String

module _ {R : Type 0} where
  unfoldable pub set_compaction_ratio : ContextWindowManager R → R → ContextWindowManager R
  set_compaction_ratio w ratio = record w { compaction_ratio = ratio }

  unfoldable pub update_token_count : ContextWindowManager R → ℕ → ContextWindowManager R
  update_token_count w tokens = record w { last_known_tokens = some tokens }

  unfoldable pub estimate_tokens : ContextWindowManager R → List Message → ℕ
  estimate_tokens w messages = default (w.counter messages) w.last_known_tokens

  abbrev pub reversed : List R → List R
  reversed [] = []
  reversed (t ∷ ts) = reversed ts ++ t ∷ []

module _ {R : Type 0} (ratios : Ratios R) where
  abbrev pub threshold : ContextWindowManager R → ℕ
  threshold w = ratios.scale w.context_window w.compaction_ratio

  unfoldable pub check : ContextWindowManager R → List Message → ℕ × Bool
  check w messages =
      let current_tokens = estimate_tokens w messages in
      (current_tokens, leb (threshold w) current_tokens)

  unfoldable pub should_compact : ContextWindowManager R → List Message → Bool
  should_compact w messages = ltb (threshold w) (estimate_tokens w messages)

  -- The event is what the callback is called with, if there is one.
  unfoldable pub compact :
      ContextWindowManager R → List Message → List Message × CompactEvent × ContextWindowManager R
  compact w messages =
      let (compacted, strategy) = Context.compact w.strategy messages (threshold w) w.counter in
      (
        compacted,
        record {
          step_index = 0;
          tokens_before = estimate_tokens w messages;
          tokens_after = w.counter compacted;
          budget_tokens = w.context_window;
          messages_before = length messages;
          messages_after = length compacted;
          phase_reached = strategy.last_phase;
          strategy_name = "TieredCompact";
        },
        record w { strategy = strategy; last_known_tokens = none; fired_thresholds = [] },
      )

  unfoldable pub has_fired : R → List R → Bool
  has_fired t [] = false
  has_fired t (u ∷ us) = ratios.same t u || has_fired t us

  -- the loop of `check_thresholds`, up to the threshold at which it returns
  unfoldable pub first_unfired : ℕ → ℕ → List R → List R → Option R
  unfolding has_fired
  first_unfired tokens budget fired [] = none
  first_unfired tokens budget fired (t ∷ ts) =
      let rest = first_unfired tokens budget fired ts in
      if ratios.reached tokens budget t
      then (if not (has_fired t fired) then some t else rest)
      else rest

  -- the threshold that a check of these messages would fire
  unfoldable pub next_threshold : ContextWindowManager R → List Message → Option R
  unfolding first_unfired
  next_threshold w messages =
      let tokens = estimate_tokens w messages in
      if nat_eq tokens 0 || nat_eq w.context_window 0
      then none
      else first_unfired tokens w.context_window w.fired_thresholds (reversed w.context_thresholds)

  unfoldable pub check_thresholds :
      ContextWindowManager R → List Message → Option String × ContextWindowManager R
  check_thresholds w messages = elim (next_threshold w messages) [
    | none ↦ (none, w)
    | some t ↦ (
      w.on_context_threshold (estimate_tokens w messages) w.context_window,
      record w { fired_thresholds = t ∷ w.fired_thresholds },
    )
  ]
