-- ===== src/Guardrails/Nudge.antt =====
-- guardrails/nudge.py: the messages that a guardrail puts into the conversation.
use agentware.Prelude.{ℕ, zero, suc, String, List, [], ◌∷◌, join, ◌<+>◌, ltb, if◌then◌else◌}

pub data NudgeKind : Type 0 where
  retry unknown_tool step prerequisite : NudgeKind

pub record Nudge : Type 0 where
  pub role : String
  pub content : String
  pub kind : NudgeKind
  pub tier : ℕ

-- `names[:-1]` and `names[-1]` of a list that is not empty
abbrev init : String → List String → List String
init n [] = []
init n (m ∷ ms) = n ∷ init m ms

abbrev last : String → List String → String
last n [] = n
last n (m ∷ ms) = last m ms

unfoldable pub join_tool_names : List String → String
join_tool_names [] = "(no tools available)"
join_tool_names (n ∷ []) = n
join_tool_names (n ∷ m ∷ []) = n <+> " and " <+> m
join_tool_names (n ∷ m ∷ k ∷ ks) =
    join ", " (init n (m ∷ k ∷ ks)) <+> ", and " <+> last n (m ∷ k ∷ ks)

abbrev pub user_nudge : String → NudgeKind → ℕ → Nudge
user_nudge content kind tier = record { role = "user"; content = content; kind = kind; tier = tier }

unfoldable pub retry_nudge : String → List String → Nudge
unfolding join_tool_names
retry_nudge raw_response names =
    user_nudge
      ("Your previous response was not a valid tool call. "
        <+> "You must respond with a tool call, not free text. Available tools: "
        <+> join_tool_names names
        <+> ". Please try again with a valid tool call.")
      retry 0

unfoldable pub unknown_tool_nudge : String → List String → Nudge
unfolding join_tool_names
unknown_tool_nudge tool names =
    user_nudge
      ("Tool '"
        <+> tool
        <+> "' does not exist. Available tools: "
        <+> join_tool_names names
        <+> ". Call one of them.")
      unknown_tool 0

-- `max(1, min(3, tier))`
abbrev pub clamp_tier : ℕ → ℕ
clamp_tier tier = if ltb tier 1 then 1 else if ltb 3 tier then 3 else tier

abbrev step_text : ℕ → String → String → String
step_text (suc zero) terminal steps =
    "You cannot call " <+> terminal <+> " yet. You must first complete these required steps: "
    <+> steps <+> ". Call one of them now."
step_text (suc (suc zero)) terminal steps =
    "You must call one of these tools now: " <+> steps <+> ". Pick one."
step_text _ terminal steps =
    "STOP. You MUST call one of: " <+> steps <+> ". Do NOT call " <+> terminal
    <+> ". Your next response MUST be a tool call to one of: " <+> steps <+> "."

unfoldable pub step_nudge : String → List String → ℕ → Nudge
unfolding join_tool_names
step_nudge terminal pending tier =
    let level = clamp_tier tier in
    user_nudge (step_text level terminal (join_tool_names pending)) step level

unfoldable pub prerequisite_nudge : String → List String → Nudge
unfolding join_tool_names
prerequisite_nudge tool missing =
    user_nudge
      ("You cannot call "
        <+> tool
        <+> " yet. You must first call: "
        <+> join_tool_names missing
        <+> ". Call the prerequisite tool now.")
      prerequisite 0
