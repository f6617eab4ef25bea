-- ===== src/Context/Window/Thresholds.antt =====
-- Which thresholds fire, and how often.
use agentware.Prelude.{ℕ, ◌≡◌, refl, false, Option, none, some, List, [], ◌∷◌, All, arith, String}
use agentware.Llm.{Message}
use agentware.Context.Window.{
  Ratios, ContextWindowManager, set_compaction_ratio, update_token_count, has_fired, first_unfired,
  next_threshold, check_thresholds, reversed, estimate_tokens,
}

module _ {R : Type 0} (ratios : Ratios R) where
  -- What may happen between two compactions.
  pub data Event : Type 0 where
    set_ratio : R → Event
    tokens_known : ℕ → Event
    observed : List Message → Event

  unfoldable pub step : ContextWindowManager R → Event → ContextWindowManager R
  step w (set_ratio r) = set_compaction_ratio w r
  step w (tokens_known n) = update_token_count w n
  step w (observed messages) = (check_thresholds ratios w messages).1

  -- the threshold that an event fires, before those of the later events
  abbrev also : Option R → List R → List R
  also none ts = ts
  also (some t) ts = t ∷ ts

  abbrev fired_by : ContextWindowManager R → Event → Option R
  fired_by w (observed messages) = next_threshold ratios w messages
  fired_by w _ = none

  unfoldable pub firings : ContextWindowManager R → List Event → List R
  firings w [] = []
  firings w (e ∷ es) = also (fired_by w e) (firings (step w e) es)

  -- Not among these.
  abbrev Unfired : List R → R → Type 0
  Unfired fired t = has_fired ratios t fired ≡ false

  first_unfired-Unfired :
      (tokens budget : ℕ) (fired ts : List R) (t : R)
      → first_unfired ratios tokens budget fired ts ≡ some t
      → Unfired fired t
  unfolding first_unfired
  first_unfired-Unfired tokens budget fired [] t h = cc h
  first_unfired-Unfired tokens budget fired (u ∷ ts) t h =
      ground (arith, first_unfired-Unfired tokens budget fired ts t)

  next_threshold-Unfired :
      (w : ContextWindowManager R) (messages : List Message) (t : R)
      → next_threshold ratios w messages ≡ some t
      → Unfired w.fired_thresholds t
  unfolding next_threshold
  next_threshold-Unfired w messages t h = ground (
    arith,
    first_unfired-Unfired (estimate_tokens w messages) w.context_window w.fired_thresholds
        (reversed w.context_thresholds) t,
  )

  older-Unfired :
      (t : R) (fired us : List R) → All (Unfired (t ∷ fired)) us → All (Unfired fired) us
  unfolding has_fired
  older-Unfired t fired [] h = tt
  older-Unfired t fired (u ∷ us) (h, hs) = (ground arith, older-Unfired t fired us hs)

  newest-Unfired :
      (t : R) (fired us : List R)
      → All (Unfired (t ∷ fired)) us
      → All (λ u. ratios.same u t ≡ false) us
  unfolding has_fired
  newest-Unfired t fired [] h = tt
  newest-Unfired t fired (u ∷ us) (h, hs) = (ground arith, newest-Unfired t fired us hs)

  -- No threshold equals an earlier one.
  abbrev pub IsDistinct : List R → Type 0
  IsDistinct [] = Unit
  IsDistinct (t ∷ ts) = All (λ u. ratios.same u t ≡ false) ts × IsDistinct ts

  abbrev Once : ContextWindowManager R → List R → Type 0
  Once w ts = All (Unfired w.fired_thresholds) ts × IsDistinct ts

  observed-Once :
      (w : ContextWindowManager R) (messages : List Message)
      (later : ContextWindowManager R → List R)
      → ((v : ContextWindowManager R) → Once v (later v))
      → Once w
          (also (next_threshold ratios w messages) (later (check_thresholds ratios w messages).1))
  unfolding check_thresholds
  observed-Once w messages later h =
      go (next_threshold ratios w messages) (next_threshold-Unfired w messages)
    where
      go :
          (o : Option R)
          → ((t : R) → o ≡ some t → Unfired w.fired_thresholds t)
          → Once w (
              also o (
                later
                  (elim o as (λ _. Option String × ContextWindowManager R) [
                    | none ↦ (none, w)
                    | some t ↦ (
                      w.on_context_threshold (estimate_tokens w messages) w.context_window,
                      record w { fired_thresholds = t ∷ w.fired_thresholds },
                    )
                  ]).1))
      go none fresh = h w
      go (some t) fresh =
          let v = record w { fired_thresholds = t ∷ w.fired_thresholds } in
          let (unfired, distinct) = h v in
          (
            (fresh t refl, older-Unfired t w.fired_thresholds (later v) unfired),
            (newest-Unfired t w.fired_thresholds (later v) unfired, distinct),
          )

  -- Between two compactions each threshold fires at most once, and none that had fired before,
  -- whatever is observed, whatever token counts are reported and however the ratio is set.
  pub firings-IsDistinct :
      (w : ContextWindowManager R) (es : List Event)
      → All (λ t. has_fired ratios t w.fired_thresholds ≡ false) (firings w es)
        × IsDistinct (firings w es)
  unfolding firings step set_compaction_ratio update_token_count
  firings-IsDistinct w [] = (tt, tt)
  firings-IsDistinct w (set_ratio r ∷ es) =
      firings-IsDistinct (record w { compaction_ratio = r }) es
  firings-IsDistinct w (tokens_known n ∷ es) =
      firings-IsDistinct (record w { last_known_tokens = some n }) es
  firings-IsDistinct w (observed messages ∷ es) =
      observed-Once w messages (λ v. firings v es) (λ v. firings-IsDistinct v es)
