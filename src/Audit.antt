-- ===== src/Audit.antt =====
-- python/src/haikeilabs/agentware/middleware/audit.py: audit records, the filter, and the in-memory
-- auditor, whose state is the list of its records.
pub mod Query
use agentware.Prelude.{
  ℕ, String, Bool, true, false, not, ◌&&◌, Option, none, some, List, [], ◌∷◌, ◌++◌, length, ltb,
  leb, ◌==◌, if◌then◌else◌,
}
use agentware.Prelude.Exec.{Exec, ok}
use agentware.Types.{Action, action_eq, Args, Decision}

pub record AuditRecord : Type 0 where
  pub session_id : String
  pub tool_name : String
  pub args : Args
  pub decision : Decision
  pub timestamp : ℕ
  pub invoking_subject : String
  pub parent_span : String
  pub delegation_depth : ℕ
  pub framework : String

-- An empty text, `none` and a limit of 0 ask for nothing. A negative limit acts as 0 does.
pub record AuditFilter : Type 0 where
  pub session_id : String
  pub tool_name : String
  pub action : Option Action
  pub since : Option ℕ
  pub limit : ℕ
  pub parent_span : String
  pub invoking_subject : String

abbrev pub Auditor : Type 0
Auditor = List AuditRecord

unfoldable pub record_entry : AuditRecord → Exec Auditor (Unit {0})
record_entry r records = (ok tt, records ++ r ∷ [])

-- `wanted and got != wanted`, a reason to skip the record
abbrev pub skips_text : String → String → Bool
skips_text wanted got = not (wanted == "") && not (got == wanted)

abbrev pub skips_action : Option Action → Action → Bool
skips_action none got = false
skips_action (some wanted) got = not (action_eq got wanted)

abbrev pub skips_time : Option ℕ → ℕ → Bool
skips_time none got = false
skips_time (some since) got = ltb got since

-- the `continue` tests of the loop of `query`, in order
unfoldable pub skipped : AuditFilter → AuditRecord → Bool
skipped f r =
    if skips_text f.session_id r.session_id
    then true
    else if skips_text f.tool_name r.tool_name
    then true
    else if skips_action f.action r.decision.action
    then true
    else if skips_time f.since r.timestamp
    then true
    else if skips_text f.parent_span r.parent_span
    then true
    else skips_text f.invoking_subject r.invoking_subject

unfoldable pub query_loop : AuditFilter → List AuditRecord → List AuditRecord → List AuditRecord
query_loop f results [] = results
query_loop f results (r ∷ records) =
    let next = query_loop f results records in
    let taken = results ++ r ∷ [] in
    let more = query_loop f taken records in
    if skipped f r
    then next
    else if ltb 0 f.limit && leb f.limit (length taken)
    then taken
    else more

unfoldable pub query : AuditFilter → Auditor → List AuditRecord
unfolding query_loop
query f records = query_loop f [] records

unfoldable pub clear : Auditor → Auditor
clear records = []
