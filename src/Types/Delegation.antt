-- ===== src/Types/Delegation.antt =====
-- What `CallerContext.delegate` keeps along a chain of delegations.
use agentware.Prelude.{◌+◌, String, ◌≡◌, ◌≢◌, none, List, [], ◌∷◌, arith, length, eq_iff, ◌↔◌}
use agentware.Prelude.Exec.{Result, ok, raise}
use agentware.Types.{CallerContext, Overrides, delegated, delegate}

-- One delegation after the other, each on the context that the last one returned.
unfoldable pub delegate_chain : CallerContext → List (String × Overrides) → Result CallerContext
delegate_chain c [] = ok c
delegate_chain c ((span, o) ∷ hops) = elim (delegate c span o) [
  | ok child ↦ delegate_chain child hops
  | raise e ↦ raise e
]

-- However deep the chain and whatever it overrides, a context that it returns names the invoking
-- subject of the first caller, and its depth has grown by the number of hops.
pub delegate_chain-invoking_subject :
    (c child : CallerContext) (hops : List (String × Overrides))
    → delegate_chain c hops ≡ ok child
    → (child.invoking_subject ≡ c.invoking_subject)
      × (child.delegation_depth ≡ c.delegation_depth + length hops)
unfolding delegate_chain delegate
delegate_chain-invoking_subject c child [] h = ground arith
delegate_chain-invoking_subject c child ((span, o) ∷ hops) h =
    ground (arith, delegate_chain-invoking_subject (delegated c span o) child hops)

-- A hop fails exactly where it would give a keyword of the delegation itself a second time.
pub delegate-ok_iff :
    (c : CallerContext) (span : String) (o : Overrides)
    → (delegate c span o ≡ ok (delegated c span o))
      ↔ ((o.parent_span ≡ none) × (o.delegation_depth ≡ none) × (o.span_id ≡ none))
unfolding delegate
delegate-ok_iff c span o = ground arith

-- The parent span of a child is the span given, else the span of the call that delegates, else
-- the parent span of the delegating context.
pub parent_span-delegate :
    (c child : CallerContext) (span : String) (o : Overrides)
    → delegate c span o ≡ ok child
    → ((span ≢ "") → child.parent_span ≡ span)
      × ((span ≡ "") → (c.span_id ≢ "") → child.parent_span ≡ c.span_id)
      × ((span ≡ "") → (c.span_id ≡ "") → child.parent_span ≡ c.parent_span)
      × (child.span_id ≡ "")
unfolding delegate
parent_span-delegate c child span o h = ground (arith, eq_iff span "", eq_iff c.span_id "")
