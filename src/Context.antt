-- ===== src/Context.antt =====
-- python/src/haikeilabs/agentware/llmcontext/strategies.py: tiered compaction, and the default token
-- counter of context_window.py. A step index and `keep_recent` are natural numbers.
pub mod Compaction
pub mod Window
use agentware.Prelude.{
  ℕ, zero, suc, ◌+◌, ◌-◌, ◌/◌, String, Bool, true, false, not, ◌||◌, Option, none, some, List, [],
  ◌∷◌, ◌++◌, length, drop, is_empty, nat_eq, ltb, leb, text_length, text_take, if◌then◌else◌,
}
use agentware.Types.{
  MessageType, tool_result, reasoning, text_response, step_nudge, prerequisite_nudge, retry_nudge,
  MessageMeta,
}
use agentware.Llm.{Role, system, user, assistant, tool, ToolCall, Message}

abbrev pub TokenCounter : Type 0
TokenCounter = List Message → ℕ

-- `len(str(role))`, of the member's qualified name
abbrev role_length : Role → ℕ
role_length system = 11
role_length user = 9
role_length assistant = 14
role_length tool = 9

abbrev call_overhead : List ToolCall → ℕ
call_overhead [] = 0
call_overhead (tc ∷ tcs) = text_length tc.name + 1 + call_overhead tcs

abbrev pub message_tokens : Message → ℕ
message_tokens m = text_length m.content / 4 + (role_length m.role + 4 + call_overhead m.tool_calls)

unfoldable pub default_counter : TokenCounter
default_counter [] = 0
default_counter (m ∷ ms) = message_tokens m + default_counter ms

abbrev pub is_nudge_type : MessageType → Bool
is_nudge_type step_nudge = true
is_nudge_type retry_nudge = true
is_nudge_type prerequisite_nudge = true
is_nudge_type _ = false

abbrev pub is_tool_result : MessageType → Bool
is_tool_result tool_result = true
is_tool_result _ = false

abbrev pub is_thought : MessageType → Bool
is_thought reasoning = true
is_thought text_response = true
is_thought _ = false

-- The fields that `compact` reads. `phase_thresholds` is set and never read.
pub record TieredCompact : Type 0 where
  pub keep_recent : ℕ
  pub truncate_chars : ℕ
  pub last_phase : ℕ

abbrev pub mem_ℕ : ℕ → List ℕ → Bool
mem_ℕ n [] = false
mem_ℕ n (k ∷ ks) = nat_eq n k || mem_ℕ n ks

-- the distinct step indices, in the order in which they first appear
unfoldable pub distinct_steps : List ℕ → List Message → List ℕ
distinct_steps steps [] = steps
distinct_steps steps (m ∷ ms) =
    distinct_steps
      (elim m.meta.step_index [
        | none ↦ steps
        | some i ↦ if mem_ℕ i steps then steps else steps ++ i ∷ []
      ])
      ms

unfoldable pub protected_steps : TieredCompact → List Message → List ℕ
unfolding distinct_steps
protected_steps s messages =
    if nat_eq s.keep_recent 0
    then []
    else let steps = distinct_steps [] messages in
      if leb (length steps) s.keep_recent then steps else drop (length steps - s.keep_recent) steps

unfoldable pub is_protected : List ℕ → Message → Bool
is_protected protected m = elim m.meta.step_index [ none ↦ false | some i ↦ mem_ℕ i protected ]

-- What becomes of a message that is not protected: it is dropped, or appended in this form.
abbrev pub Treatment : Type 0
Treatment = Message → Option Message

abbrev pub kept : Option Message → List Message → List Message
kept none rest = rest
kept (some m) rest = m ∷ rest

-- the loop of a phase from the third message on
unfoldable pub phase_rest : Treatment → List ℕ → List Message → List Message
unfolding is_protected
phase_rest treat protected [] = []
phase_rest treat protected (m ∷ ms) =
    let rest = phase_rest treat protected ms in
    if is_protected protected m then m ∷ rest else kept (treat m) rest

-- the first two messages are appended as they are
unfoldable pub phase : Treatment → List ℕ → List Message → List Message
unfolding phase_rest
phase treat protected (m ∷ n ∷ ms) = m ∷ n ∷ phase_rest treat protected ms
phase treat protected ms = ms

abbrev pub treat1 : ℕ → Treatment
treat1 limit m =
    if is_nudge_type m.meta.type
    then none
    else if is_tool_result m.meta.type
    then (if ltb limit (text_length m.content)
        then some (record m { content = text_take limit m.content })
        else some m)
    else some m

abbrev pub treat2 : Treatment
treat2 m = if is_tool_result m.meta.type then none else some m

abbrev pub treat3 : Treatment
treat3 m = if is_thought m.meta.type then none else some m

unfoldable pub phase1_compact : TieredCompact → List Message → List Message
unfolding phase protected_steps
phase1_compact s ms = phase (treat1 s.truncate_chars) (protected_steps s ms) ms

unfoldable pub phase2_compact : TieredCompact → List Message → List Message
unfolding phase protected_steps
phase2_compact s ms = phase treat2 (protected_steps s ms) ms

unfoldable pub phase3_compact : TieredCompact → List Message → List Message
unfolding phase protected_steps
phase3_compact s ms = phase treat3 (protected_steps s ms) ms

-- The result, and the strategy with the phase that was reached. The end of the eligible range is
-- computed by the source, passed to the phases and read by none of them.
unfoldable pub compact :
    TieredCompact → List Message → ℕ → TokenCounter → List Message × TieredCompact
compact s messages target counter =
    let first = phase1_compact s messages in
    let second = phase2_compact s first in
    let third = phase3_compact s second in
    if is_empty messages
    then ([], record s { last_phase = 0 })
    else if leb (counter messages) target
    then (messages, record s { last_phase = 0 })
    else if leb (counter first) target
    then (first, record s { last_phase = 1 })
    else if leb (counter second) target
    then (second, record s { last_phase = 2 })
    else (third, record s { last_phase = 3 })
