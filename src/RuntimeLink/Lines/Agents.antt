-- ===== src/RuntimeLink/Lines/Agents.antt =====
-- The agents of an identity have identifiers that match their pattern.
use agentware.Prelude.{
  ℕ, suc, String, ◌≡◌, ◌⊎◌, Bool, true, Option, none, some, List, [], ◌∷◌, Dict, All, lookup,
  if_ind,
}
use agentware.Prelude.Value.{Value, str, list, dict, items, fields}
use agentware.RuntimeLink.{AssignedAgent}
use agentware.RuntimeLink.Lines.{
  Patterns, Agents, default_with, agent_in, agent_with, flag, parse_agent_entry, read_agents,
  own_agent, with_agents, parse_agents,
}

abbrev pub IsIdent : Patterns → String → Type 0
IsIdent p s = p.ident s ≡ true

-- An identifier that may be left out, as the empty text.
abbrev pub IsBlankOrIdent : Patterns → String → Type 0
IsBlankOrIdent p s = (s ≡ "") ⊎ IsIdent p s

abbrev pub IsIdentIf : Patterns → Option String → Type 0
IsIdentIf p none = Unit
IsIdentIf p (some s) = IsIdent p s

abbrev pub AreAgents : Patterns → Agents → Type 0
AreAgents p (chosen, agents, dropped) =
    IsIdentIf p chosen × All (λ agent. IsIdent p agent.agent_id) agents

-- An entry that is kept.
abbrev IsEntry : Patterns → Option AssignedAgent → Type 0
IsEntry p none = Unit
IsEntry p (some agent) = IsIdent p agent.agent_id

module _ (p : Patterns) where
  agent_with-IsEntry : (s : String) (o : Option Bool) → IsIdent p s → IsEntry p (agent_with s o)
  agent_with-IsEntry s none h = tt
  agent_with-IsEntry s (some b) h = h

  agent_in-IsEntry : (entry : Dict Value) (o : Option Value) → IsEntry p (agent_in p entry o)
  agent_in-IsEntry entry none = tt
  agent_in-IsEntry entry (some (str s)) =
      if_ind (IsEntry p) (p.ident s)
        (λ e. agent_with-IsEntry s (flag (lookup "is_default" entry)) e) (λ _. tt)
  agent_in-IsEntry entry (some _) = tt

  IsEntry-parse_agent_entry : (v : Value) → IsEntry p (parse_agent_entry p v)
  IsEntry-parse_agent_entry (dict fs) = agent_in-IsEntry (fields fs) (lookup "agent_id" (fields fs))
  IsEntry-parse_agent_entry _ = tt

  default_with-IsIdentIf :
      (chosen : Option String) (agent : AssignedAgent)
      → IsIdentIf p chosen
      → IsIdent p agent.agent_id
      → IsIdentIf p (default_with chosen agent)
  default_with-IsIdentIf (some s) agent h e = h
  default_with-IsIdentIf none agent h e = if_ind (IsIdentIf p) agent.is_default (λ _. e) (λ _. tt)

  agents-AreAgents :
      (vs : List Value) (chosen : Option String)
      → IsIdentIf p chosen
      → AreAgents p (read_agents p chosen vs)
  unfolding read_agents
  agents-AreAgents [] chosen h = (h, tt)
  agents-AreAgents (v ∷ vs) chosen h =
      go (parse_agent_entry p v) (IsEntry-parse_agent_entry v)
        (λ chosen h. agents-AreAgents vs chosen h)
    where
      go :
          (o : Option AssignedAgent)
          → IsEntry p o
          → ((chosen : Option String) → IsIdentIf p chosen → AreAgents p (read_agents p chosen vs))
          → AreAgents p (elim o as (λ _. Agents) [
            | none ↦
                let (found, agents, dropped) = read_agents p chosen vs in
                (found, agents, suc dropped)
            | some agent ↦
                let (found, agents, dropped) = read_agents p (default_with chosen agent) vs in
                (found, agent ∷ agents, dropped)
          ])
      go none e again = again chosen h
      go (some agent) e again =
          let (found, agents) =
            again (default_with chosen agent) (default_with-IsIdentIf chosen agent h e) in
          (found, (e, agents))

  own_agent-IsIdentIf : (o : Option Value) → IsIdentIf p (own_agent p o).0
  own_agent-IsIdentIf none = tt
  own_agent-IsIdentIf (some (str s)) =
      if_ind (λ (found : Option String × ℕ). IsIdentIf p found.0) (p.ident s) (λ e. e) (λ _. tt)
  own_agent-IsIdentIf (some _) = tt

  with_agents-AreAgents :
      (chosen : Option String) (dropped : ℕ) (o : Option Value)
      → IsIdentIf p chosen
      → AreAgents p (with_agents p (chosen, dropped) o)
  with_agents-AreAgents chosen dropped none h = (h, tt)
  with_agents-AreAgents chosen dropped (some (list vs)) h = agents-AreAgents (items vs) chosen h
  with_agents-AreAgents chosen dropped (some _) h = (h, tt)

  pub parse_agents-AreAgents : (raw : Dict Value) → AreAgents p (parse_agents p raw)
  unfolding parse_agents
  parse_agents-AreAgents raw =
      let (chosen, dropped) = own_agent p (lookup "agent_id" raw) in
      with_agents-AreAgents chosen dropped (lookup "agents" raw)
        (own_agent-IsIdentIf (lookup "agent_id" raw))
