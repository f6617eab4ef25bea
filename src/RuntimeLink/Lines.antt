-- ===== src/RuntimeLink/Lines.antt =====
-- kei/runtime_link.py: `parse_child_line_counted`, one line of the output of the child. The patterns
-- and the JSON parser are given from outside; a line is a text of its bytes.
pub mod Agents
pub mod Valid
use Prim.Native.Char.{Char, code}
use agentware.Prelude.{
  ℕ, zero, suc, ◌+◌, ◌-◌, ◌^◌, String, Bool, true, false, not, ◌&&◌, ◌||◌, Option, none, some, List,
  [], ◌∷◌, Dict, lookup, default, leb, ltb, nat_eq, text_length, ◌==◌, if◌then◌else◌,
}
use agentware.Prelude.Value.{Value, pos, negsuc, null, bool, int, str, list, dict, items, fields}
use agentware.Prelude.Checks.{◌>>=◌, ◌>>◌, require}
use agentware.Prelude.Exec.{
  Result, ok, raise, line_too_long, malformed_line, contract_mismatch_line,
}
use agentware.RuntimeLink.{
  BeatOutcome, ok_beat, unreachable, timeout, error, backpressure, rejected, unauthorized,
  AssignedAgent, RuntimeIdentity, BeatEvent, TerminalEvent, ChildEvent, identity, beat, terminating,
  ignored,
}

-- the matches of `_ID_RE`, `_TIMESTAMP_RE` and `_REASON_RE`, and `json.loads`, with `none` for an error
pub record Patterns : Type 0 where
  pub ident : String → Bool
  pub timestamp : String → Bool
  pub reason : String → Bool
  pub loads : String → Option Value

abbrev pub max_child_line_bytes : ℕ
max_child_line_bytes = 4096

abbrev pub max_seq : ℕ
max_seq = 2 ^ 53 - 1

abbrev pub max_ms : ℕ
max_ms = 3600000

-- `_Fields.text`
abbrev pub text_in : String → Bool → Option Value → Result String
text_in key true none = raise (malformed_line key)
text_in key false none = ok ""
text_in key required (some (str s)) = ok s
text_in key required (some _) = raise (malformed_line key)

abbrev pub text : String → Bool → Dict Value → Result String
text key required raw = text_in key required (lookup key raw)

-- `_Fields.integer`, with a lower bound of 0 and for a key that is not required
abbrev pub integer_in : String → ℕ → Option Value → Result ℕ
integer_in key hi none = ok 0
integer_in key hi (some (int (pos n))) = if leb n hi then ok n else raise (malformed_line key)
integer_in key hi (some _) = raise (malformed_line key)

abbrev pub integer : String → ℕ → Dict Value → Result ℕ
integer key hi raw = integer_in key hi (lookup key raw)

-- `BeatOutcome(outcome)`
abbrev pub outcome_of : String → Result BeatOutcome
outcome_of s =
    if s == "ok"
    then ok ok_beat
    else if s == "catalog_unreachable"
    then ok unreachable
    else if s == "catalog_timeout"
    then ok timeout
    else if s == "catalog_error"
    then ok error
    else if s == "catalog_backpressure"
    then ok backpressure
    else if s == "catalog_rejected"
    then ok rejected
    else if s == "unauthorized"
    then ok unauthorized
    else raise (contract_mismatch_line "outcome")

-- `s.removesuffix(c)` for one character
abbrev drop_last : ℕ → String → String
drop_last c String.[] = ""
drop_last c (String.◌∷◌ d String.[]) = if nat_eq (code d) c then "" else String.◌∷◌ d String.[]
drop_last c (String.◌∷◌ d (String.◌∷◌ e s)) = String.◌∷◌ d (drop_last c (String.◌∷◌ e s))

-- the line without its end
abbrev pub line_bytes : String → String
line_bytes line = drop_last 13 (drop_last 10 line)

-- the default agent, the agents, and how many entries were dropped
abbrev pub Agents : Type 0
Agents = Option String × List AssignedAgent × ℕ

abbrev pub flag : Option Value → Option Bool
flag none = some false
flag (some (bool b)) = some b
flag (some _) = none

abbrev pub agent_with : String → Option Bool → Option AssignedAgent
agent_with agent_id none = none
agent_with agent_id (some is_default) =
    some (record { agent_id = agent_id; is_default = is_default })

-- `default is None and agent.is_default`
abbrev pub default_with : Option String → AssignedAgent → Option String
default_with (some chosen) agent = some chosen
default_with none agent = if agent.is_default then some agent.agent_id else none

abbrev pub beat_of :
    (run_id : String) (seq : ℕ) (at : String) (latency_ms next_in_ms http_status : ℕ)
    → BeatOutcome
    → ChildEvent × ℕ
beat_of run_id seq at latency_ms next_in_ms http_status outcome = (
  beat (record {
    run_id = run_id;
    seq = seq;
    at = at;
    outcome = outcome;
    http_status = http_status;
    latency_ms = latency_ms;
    next_in_ms = next_in_ms;
  }),
  0,
)

-- Entries that were dropped are counted beside the identity.
abbrev pub identity_of :
    Agents
    → (run_id installation_id org_id workspace_id platform status binding_status : String)
    → (runtime_version : String) → ChildEvent × ℕ
identity_of (chosen, agents, dropped) run installation org workspace platform status binding
      version =
    (
      identity (record {
        run_id = run;
        installation_id = installation;
        org_id = org;
        workspace_id = workspace;
        platform = platform;
        status = status;
        binding_status = binding;
        runtime_version = version;
        default_agent_id = chosen;
        agents = agents;
      }),
      dropped,
    )

module _ (p : Patterns) where
  -- `_Fields.ident`
  abbrev pub ident : String → Bool → Dict Value → Result String
  ident key required raw = text key required raw >>= λ s.
      require (not ((not (s == "") || required) && not (p.ident s))) (malformed_line key) >> ok s

  abbrev pub timestamp : String → Dict Value → Result String
  timestamp key raw =
      text key true raw >>= λ s. require (p.timestamp s) (malformed_line key) >> ok s

  abbrev pub agent_in : Dict Value → Option Value → Option AssignedAgent
  agent_in entry (some (str s)) =
      if p.ident s then agent_with s (flag (lookup "is_default" entry)) else none
  agent_in entry _ = none

  abbrev pub parse_agent_entry : Value → Option AssignedAgent
  parse_agent_entry (dict fs) = agent_in (fields fs) (lookup "agent_id" (fields fs))
  parse_agent_entry _ = none

  -- The loop over the entries: what it makes of a default, with the agents and the dropped entries.
  unfoldable pub read_agents : Option String → List Value → Agents
  read_agents chosen [] = (chosen, [], 0)
  read_agents chosen (v ∷ vs) = elim (parse_agent_entry v) [
    | none ↦ let (found, agents, dropped) = read_agents chosen vs in (found, agents, suc dropped)
    | some agent ↦
        let (found, agents, dropped) = read_agents (default_with chosen agent) vs in
        (found, agent ∷ agents, dropped)
  ]

  -- the default agent of the identity itself, and whether a bad one was dropped
  abbrev pub own_agent : Option Value → Option String × ℕ
  own_agent none = (none, 0)
  own_agent (some (str s)) = if p.ident s then (some s, 0) else (none, 1)
  own_agent (some _) = (none, 1)

  abbrev pub with_agents : Option String × ℕ → Option Value → Agents
  with_agents (chosen, dropped) none = (chosen, [], dropped)
  with_agents (chosen, dropped) (some (list vs)) =
      let (found, agents, more) = read_agents chosen (items vs) in (found, agents, dropped + more)
  with_agents (chosen, dropped) (some _) = (chosen, [], suc dropped)

  unfoldable pub parse_agents : Dict Value → Agents
  unfolding read_agents
  parse_agents raw = with_agents (own_agent (lookup "agent_id" raw)) (lookup "agents" raw)

  unfoldable pub parse_identity : Dict Value → Result (ChildEvent × ℕ)
  parse_identity raw =
      let parsed = parse_agents raw in
      ident "run_id" true raw >>= λ run_id. ident "installation_id" true raw >>= λ installation_id.
      ident "org_id" true raw >>= λ org_id. ident "workspace_id" false raw >>= λ workspace_id.
      ident "platform" false raw >>= λ platform. ident "status" false raw >>= λ status.
      ident "binding_status" false raw >>= λ binding_status.
      ident "runtime_version" false raw >>= λ runtime_version. ok (
        identity_of parsed run_id installation_id org_id workspace_id platform status binding_status
          runtime_version)

  unfoldable pub parse_beat : Dict Value → Result (ChildEvent × ℕ)
  parse_beat raw = ident "run_id" true raw >>= λ run_id. integer "seq" max_seq raw >>= λ seq.
      timestamp "at" raw >>= λ at. text "outcome" true raw >>= λ outcome.
      integer "latency_ms" max_ms raw >>= λ latency_ms.
      integer "next_in_ms" max_ms raw >>= λ next_in_ms.
      integer "http_status" 599 raw >>= λ http_status.
      require (not (ltb 0 http_status && ltb http_status 100)) (malformed_line "http_status")
      >> (outcome_of outcome >>= λ outcome.
          ok (beat_of run_id seq at latency_ms next_in_ms http_status outcome))

  unfoldable pub parse_terminal : Dict Value → Result (ChildEvent × ℕ)
  parse_terminal raw = ident "run_id" true raw >>= λ run_id. text "reason" true raw >>= λ reason.
      require (p.reason reason) (malformed_line "reason")
      >> ok (terminating (record { run_id = run_id; reason = reason }), 0)

  -- `type(v) is int and v == CONTRACT_VERSION`
  abbrev pub is_version : Option Value → Bool
  is_version (some (int (pos n))) = nat_eq n 1
  is_version _ = false

  abbrev pub by_event : Dict Value → Option Value → Result (ChildEvent × ℕ)
  by_event raw (some (str event)) =
      if event == "identity"
      then parse_identity raw
      else if event == "beat"
      then parse_beat raw
      else if event == "terminal"
      then parse_terminal raw
      else ok (ignored, 0)
  by_event raw _ = raise (malformed_line "event")

  abbrev pub parse_object : Option Value → Result (ChildEvent × ℕ)
  parse_object none = raise (malformed_line "not json")
  parse_object (some (dict fs)) =
      require (is_version (lookup "v" (fields fs))) (contract_mismatch_line "v")
      >> by_event (fields fs) (lookup "event" (fields fs))
  parse_object (some _) = raise (malformed_line "not an object")

  unfoldable pub parse_child_line_counted : String → Result (ChildEvent × ℕ)
  unfolding parse_identity parse_beat parse_terminal
  parse_child_line_counted line =
      let bytes = line_bytes line in
      require (leb (text_length bytes) max_child_line_bytes) (line_too_long "line too long")
      >> parse_object (p.loads bytes)
