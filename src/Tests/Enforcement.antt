-- ===== src/Tests/Enforcement.antt =====
-- The middleware and the tool client with a policy that denies one tool and redacts the arguments of
-- the others, and with the in-memory auditor.
use agentware.Prelude.{
  String, ◌≡◌, ◌↔◌, refl, none, some, List, [], ◌∷◌, true, false, keep, not, if◌then◌else◌, ◌==◌,
}
use agentware.Prelude.Value.{Value, str}
use agentware.Prelude.Exec.{ok, Exec}
use agentware.Types.{
  deny, filter, Args, CallerContext, Decision, new_decision, Overrides, delegate, delegated,
}
use agentware.Types.Delegation.{delegate_chain, delegate_chain-invoking_subject}
use agentware.Audit.{AuditRecord, AuditFilter, Auditor, record_entry, query, skipped}
use agentware.Audit.Query.{Matches, limited, query-eq-limited}
use agentware.Middleware.{Evaluate, ExecuteTool, Request, record_of}
use agentware.Middleware.Journal.{IsGuarded}
use agentware.Middleware.Enforcement.{serve, serve-IsGuarded}
use agentware.ToolClient
use agentware.ToolClient.{AuditedToolClient, Call, call_record, effective_caller}
use agentware.ToolClient.Enforcement
use agentware.ToolClient.Enforcement.{client_serve-IsGuarded}
use agentware.Tests.Fixtures.{alice, no_overrides, file_args}

abbrev run_tool : ExecuteTool Auditor
run_tool tool args w = (ok (str tool, true, ""), w)

abbrev redacting : Decision
redacting = record (new_decision filter "hide" "paths are hidden" 1) {
  redacted_args = ("path", str "***") ∷ [];
}

abbrev refusal : Decision
refusal = new_decision deny "no-rm" "rm is not allowed" 1

abbrev policy : Evaluate Auditor
policy tool args caller w = (ok (if tool == "rm" then refusal else redacting), w)

abbrev request : String → Request
request tool = record {
  tool_name = tool;
  args = file_args;
  caller = alice;
  framework = "crew";
  decided_at = 1;
  recorded_at = 2;
}

serve-IsGuarded_example :
    IsGuarded
      (serve run_tool (some policy) record_entry ([], []) (request "cat" ∷ request "rm" ∷ [])).1
serve-IsGuarded_example =
    serve-IsGuarded run_tool (some policy) record_entry [] [] (request "cat" ∷ request "rm" ∷ []) tt

abbrev client : AuditedToolClient Auditor
client = record {
  middleware_url = "http://localhost";
  source = "bot";
  auditor = record_entry;
  evaluator = some policy;
  executor = none;
}

abbrev tool_function : Args → Exec Auditor Value
tool_function args w = (ok (str "done"), w)

abbrev call : String → Call Auditor
call tool = record {
  tool_name = tool;
  tool_args = file_args;
  user_id = "bob";
  channel_id = "c1";
  guild_id = none;
  func = some tool_function;
  caller = none;
  decided_at = 1;
  recorded_at = 2;
  uuid = "u1";
}

client_serve-IsGuarded_example :
    IsGuarded (ToolClient.Enforcement.serve client ([], []) (call "cat" ∷ call "rm" ∷ [])).1
client_serve-IsGuarded_example =
    client_serve-IsGuarded client [] [] (call "cat" ∷ call "rm" ∷ []) tt

abbrev only_rm : AuditFilter
only_rm = record {
  session_id = "";
  tool_name = "rm";
  action = some deny;
  since = none;
  limit = 1;
  parent_span = "";
  invoking_subject = "";
}

abbrev three_records : Auditor
three_records =
    record_of (request "cat") redacting
    ∷ record_of (request "rm") refusal
    ∷ record_of (request "rm") refusal
    ∷ []

query-eq-limited_example :
    (query only_rm three_records ≡ limited 1 (keep (λ r. not (skipped only_rm r)) three_records))
    × ((r : AuditRecord) → (skipped only_rm r ≡ false) ↔ Matches only_rm r)
query-eq-limited_example = query-eq-limited only_rm three_records

-- A delegation that overrides nothing but the subject, which it may not.
abbrev hops : List (String × Overrides)
hops = ("span1", no_overrides) ∷ ("", no_overrides) ∷ []

abbrev child : CallerContext
child = delegated alice "span1" no_overrides

delegate_chain-invoking_subject_example :
    ((delegated child "" no_overrides).invoking_subject ≡ "alice@corp")
    × ((delegated child "" no_overrides).delegation_depth ≡ 2)
unfolding delegate_chain delegate
delegate_chain-invoking_subject_example =
    delegate_chain-invoking_subject alice (delegated child "" no_overrides) hops refl

abbrev root : String
root = "span1"
