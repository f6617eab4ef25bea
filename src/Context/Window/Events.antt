-- ===== src/Context/Window/Events.antt =====
-- What a compaction of the window reports, and when one is due.
use agentware.Prelude.{
  ◌≡◌, ◌⊎◌, refl, arith, true, false, ◌||◌, List, [], length, take, is_empty, leb, nat_eq, subst,
}
use agentware.Llm.{Message}
use agentware.Context.Compaction.{compact-fits, take-compact}
use agentware.Context.Window.{
  Ratios, ContextWindowManager, CompactEvent, threshold, estimate_tokens, check, should_compact,
  compact,
}

module _ {R : Type 0} (ratios : Ratios R) (w : ContextWindowManager R)
    (messages : List Message) where
  abbrev Reports : List Message × CompactEvent × ContextWindowManager R → Type 0
  Reports (out, event, v) =
      (take 2 out ≡ take 2 messages)
      × (event.messages_after ≡ length out)
      × (event.tokens_after ≡ w.counter out)
      × ((leb event.tokens_after (threshold ratios w) ≡ true) ⊎ (event.phase_reached ≡ 3))
      × (v.fired_thresholds ≡ [])
      × (estimate_tokens v messages ≡ w.counter messages)

  -- A compaction of a conversation that is not empty keeps the first two messages, and its event
  -- has the counts of what it returns. It meets the target unless it went through all three phases.
  -- The manager then counts anew, and no threshold has fired.
  pub event-compact :
      (out : List Message) (event : CompactEvent) (v : ContextWindowManager R)
      → is_empty messages ≡ false
      → compact ratios w messages ≡ (out, event, v)
      → (take 2 out ≡ take 2 messages)
        × (event.messages_after ≡ length out)
        × (event.tokens_after ≡ w.counter out)
        × ((leb event.tokens_after (threshold ratios w) ≡ true) ⊎ (event.phase_reached ≡ 3))
        × (v.fired_thresholds ≡ [])
        × (estimate_tokens v messages ≡ w.counter messages)
  unfolding compact estimate_tokens
  event-compact out event v ne h =
      let fits = compact-fits w.strategy messages (threshold ratios w) w.counter ne in
      let first = take-compact w.strategy messages (threshold ratios w) w.counter in
      subst Reports h (first, refl, refl, fits, refl, refl)

  -- `check` and `should_compact` say the same, but for a count that is the threshold itself, at
  -- which only `check` finds a compaction due.
  pub check-should_compact :
      ((check ratios w messages).0 ≡ estimate_tokens w messages)
      × ((check ratios w messages).1 ≡ (
          should_compact ratios w messages
          || nat_eq (estimate_tokens w messages) (threshold ratios w)))
  unfolding check should_compact
  check-should_compact = (refl, ground arith)
