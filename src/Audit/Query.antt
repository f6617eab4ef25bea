-- ===== src/Audit/Query.antt =====
-- What a query of the in-memory auditor returns.
use agentware.Prelude.{
  ℕ, zero, suc, ◌+◌, ◌≤◌, String, ◌≡◌, ◌≢◌, ◌↔◌, refl, true, false, not, Option, none, some, List,
  [], ◌∷◌, ◌++◌, arith, length, length-append, keep, take, eq_iff, sym,
}
use mathlib.Core.List.{append_assoc, append-nil}
use agentware.Types.{Action, allow, deny, filter, action_eq}
use agentware.Audit.{
  skips_text, skips_action, skips_time, AuditRecord, AuditFilter, Auditor, skipped, query_loop,
  query,
}

-- What each field of the filter asks of a record.
pub record Matches (f : AuditFilter) (r : AuditRecord) : Type 0 where
  pub session : f.session_id ≢ "" → r.session_id ≡ f.session_id
  pub tool : f.tool_name ≢ "" → r.tool_name ≡ f.tool_name
  pub action : (a : Action) → f.action ≡ some a → r.decision.action ≡ a
  pub since : (t : ℕ) → f.since ≡ some t → t ≤ r.timestamp
  pub parent : f.parent_span ≢ "" → r.parent_span ≡ f.parent_span
  pub subject : f.invoking_subject ≢ "" → r.invoking_subject ≡ f.invoking_subject

-- a decision that is equal to the wanted one
action_eq-true : (a b : Action) → action_eq a b ≡ true → a ≡ b
action_eq-true allow b h = ground arith
action_eq-true deny b h = ground arith
action_eq-true filter b h = ground arith

action_eq_refl : (a : Action) → action_eq a a ≡ true
action_eq_refl allow = refl
action_eq_refl deny = refl
action_eq_refl filter = refl

module _ (wanted got : String) where
  skips_text-false : skips_text wanted got ≡ false → wanted ≢ "" → got ≡ wanted
  skips_text-false h n = ground (arith, eq_iff wanted "", eq_iff got wanted)

  skips_text_of : (wanted ≢ "" → got ≡ wanted) → skips_text wanted got ≡ false
  skips_text_of h = ground (arith, eq_iff wanted "", eq_iff got wanted)

skips_action-false :
    (o : Option Action) (got : Action)
    → skips_action o got ≡ false
    → (a : Action) → o ≡ some a
    → got ≡ a
skips_action-false none got h a e = cc
skips_action-false (some w) got h a e = ground (arith, action_eq-true got w)

skips_action_of :
    (o : Option Action) (got : Action)
    → ((a : Action) → o ≡ some a → got ≡ a)
    → skips_action o got ≡ false
skips_action_of none got h = refl
skips_action_of (some w) got h = rw (h w refl, action_eq_refl w)

skips_time-false :
    (o : Option ℕ) (got : ℕ) → skips_time o got ≡ false → (t : ℕ) → o ≡ some t → t ≤ got
skips_time-false none got h t e = cc
skips_time-false (some s) got h t e = ground arith

skips_time_of :
    (o : Option ℕ) (got : ℕ) → ((t : ℕ) → o ≡ some t → t ≤ got) → skips_time o got ≡ false
skips_time_of none got h = refl
skips_time_of (some s) got h = ground (arith, h s refl)

-- The tests of the loop let a record through exactly when it matches the filter.
pub skipped_iff : (f : AuditFilter) (r : AuditRecord) → (skipped f r ≡ false) ↔ Matches f r
unfolding skipped
skipped_iff f r = (
  λ h. record {
    session = skips_text-false f.session_id r.session_id (ground arith);
    tool = skips_text-false f.tool_name r.tool_name (ground arith);
    action = skips_action-false f.action r.decision.action (ground arith);
    since = skips_time-false f.since r.timestamp (ground arith);
    parent = skips_text-false f.parent_span r.parent_span (ground arith);
    subject = skips_text-false f.invoking_subject r.invoking_subject (ground arith);
  },
  λ m.
      rw
        (
          skips_text_of f.session_id r.session_id m.session,
          skips_text_of f.tool_name r.tool_name m.tool,
          skips_action_of f.action r.decision.action m.action,
          skips_time_of f.since r.timestamp m.since,
          skips_text_of f.parent_span r.parent_span m.parent,
        )
        (skips_text_of f.invoking_subject r.invoking_subject m.subject),
)

abbrev matching : AuditFilter → List AuditRecord → List AuditRecord
matching f records = keep (λ r. not (skipped f r)) records

query_loop-unlimited :
    (f : AuditFilter) (acc records : List AuditRecord)
    → f.limit ≡ 0
    → query_loop f acc records ≡ acc ++ matching f records
unfolding query_loop
query_loop-unlimited f acc [] h = sym (append-nil acc)
query_loop-unlimited f acc (r ∷ records) h = ground (
  arith,
  query_loop-unlimited f acc records h,
  query_loop-unlimited f (acc ++ r ∷ []) records h,
  append_assoc acc (r ∷ []) (matching f records),
)

query_loop-limited :
    (f : AuditFilter) (acc records : List AuditRecord) (room : ℕ)
    → f.limit ≡ length acc + suc room
    → query_loop f acc records ≡ acc ++ take (suc room) (matching f records)
unfolding query_loop
query_loop-limited f acc [] room h = sym (append-nil acc)
query_loop-limited f acc (r ∷ records) zero h = ground (
  arith,
  query_loop-limited f acc records zero h,
  length-append acc (r ∷ []),
  append_assoc acc (r ∷ []) (matching f records),
)
query_loop-limited f acc (r ∷ records) (suc room) h = ground (
  arith,
  query_loop-limited f acc records (suc room) h,
  query_loop-limited f (acc ++ r ∷ []) records room,
  length-append acc (r ∷ []),
  append_assoc acc (r ∷ []) (take (suc room) (matching f records)),
)

-- the first `n` of the records, or all of them for the limit 0
abbrev pub limited : ℕ → List AuditRecord → List AuditRecord
limited zero records = records
limited (suc n) records = take (suc n) records

query-limited :
    (f : AuditFilter) (records : Auditor) → query f records ≡ limited f.limit (matching f records)
unfolding query
query-limited f records = go f.limit refl
  where
    go : (n : ℕ) → f.limit ≡ n → query_loop f [] records ≡ limited f.limit (matching f records)
    go zero e = simp e (query_loop-unlimited f [] records e)
    go (suc n) e = simp e (query_loop-limited f [] records n (omega arith))

-- A query returns, in the order in which they were recorded, the records that the loop does not
-- skip: all of them without a limit, and the first `limit` of them with one. A record is not
-- skipped exactly when it agrees with every field that the filter sets.
pub query-eq-limited :
    (f : AuditFilter) (records : Auditor)
    → (query f records ≡ limited f.limit (keep (λ r. not (skipped f r)) records))
      × ((r : AuditRecord) → (skipped f r ≡ false) ↔ Matches f r)
query-eq-limited f records = (query-limited f records, skipped_iff f)
