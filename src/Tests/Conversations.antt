-- ===== src/Tests/Conversations.antt =====
-- Compaction of a short conversation.
use agentware.Prelude.{
  All, length, ◌/◌, ◌*◌, nat_eq, false, ℕ, String, ◌≡◌, ◌≤◌, ◌⊎◌, refl, none, some, Option, List,
  [], ◌∷◌, true, keep, take, leb,
}
use agentware.Types.{MessageType, system_prompt, user_input, tool_result, reasoning, step_nudge}
use agentware.Llm.{Role, system, user, assistant, tool, Message}
use agentware.Context.{
  TieredCompact, default_counter, is_protected, protected_steps, phase1_compact, phase2_compact,
  phase3_compact, compact,
}
use agentware.Context.Window
use agentware.Context.Window.{
  Ratios, ContextWindowManager, threshold, estimate_tokens, check, should_compact, has_fired,
}
use agentware.Context.Window.Thresholds.{
  tokens_known, observed, Event, firings, IsDistinct, firings-IsDistinct,
}
use agentware.Context.Window.Events.{event-compact}
use agentware.Context.Compaction.{compact-le, take-compact, compact-fits, keep-phases_compact}

abbrev message : Role → String → MessageType → Option ℕ → Message
message role content type step = record {
  role = role;
  content = content;
  tool_call_id = "";
  tool_calls = [];
  meta = record { type = type; step_index = step; original_type = none; token_estimate = none };
}

abbrev conversation : List Message
conversation =
    message system "You are an agent." system_prompt none
    ∷ message user "List the files." user_input none
    ∷ message tool "a.txt b.txt c.txt d.txt" tool_result (some 0)
    ∷ message assistant "There are four files." reasoning (some 1)
    ∷ message user "Call a tool." step_nudge (some 2)
    ∷ []

abbrev strategy : TieredCompact
strategy = record { keep_recent = 1; truncate_chars = 5; last_phase = 0 }

compact-le_example :
    default_counter ((compact strategy conversation 60 default_counter).0)
    ≤ default_counter conversation
compact-le_example = compact-le strategy conversation 60

take-compact_example :
    take 2 ((compact strategy conversation 60 default_counter).0) ≡ take 2 conversation
take-compact_example = take-compact strategy conversation 60 default_counter

compact-fits_example :
    (leb (default_counter ((compact strategy conversation 60 default_counter).0)) 60 ≡ true)
    ⊎ ((compact strategy conversation 60 default_counter).1.last_phase ≡ 3)
compact-fits_example = compact-fits strategy conversation 60 default_counter refl

keep-phases_compact_example :
    (keep
        (is_protected (protected_steps strategy conversation))
        (phase1_compact strategy conversation)
      ≡ keep (is_protected (protected_steps strategy conversation)) conversation)
    × (keep
          (is_protected (protected_steps strategy conversation))
          (phase2_compact strategy conversation)
        ≡ keep (is_protected (protected_steps strategy conversation)) conversation)
    × (keep
          (is_protected (protected_steps strategy conversation))
          (phase3_compact strategy conversation)
        ≡ keep (is_protected (protected_steps strategy conversation)) conversation)
keep-phases_compact_example = keep-phases_compact strategy conversation

-- ratios in percent
abbrev percent : Ratios ℕ
percent = record {
  scale = λ n r. n * r / 100;
  reached = λ tokens budget r. leb (budget * r) (tokens * 100);
  same = nat_eq;
}

abbrev manager : ContextWindowManager ℕ
manager = record {
  context_window = 80;
  compaction_ratio = 75;
  counter = default_counter;
  strategy = strategy;
  last_known_tokens = none;
  context_thresholds = 65 ∷ 80 ∷ [];
  on_context_threshold = λ tokens budget. some "Context is filling up.";
  fired_thresholds = [];
}

abbrev events : List (Event percent)
events =
    observed conversation ∷ tokens_known 70 ∷ observed conversation ∷ observed conversation ∷ []

firings-IsDistinct_example :
    All (λ t. has_fired percent t manager.fired_thresholds ≡ false) (firings percent manager events)
    × IsDistinct percent (firings percent manager events)
firings-IsDistinct_example = firings-IsDistinct percent manager events

abbrev done : List Message × Window.CompactEvent × ContextWindowManager ℕ
done = Window.compact percent manager conversation

event-compact_example :
    (take 2 done.0 ≡ take 2 conversation)
    × (done.1.messages_after ≡ length done.0)
    × (done.1.tokens_after ≡ default_counter done.0)
    × ((leb done.1.tokens_after (threshold percent manager) ≡ true) ⊎ (done.1.phase_reached ≡ 3))
    × (done.2.fired_thresholds ≡ [])
    × (estimate_tokens done.2 conversation ≡ default_counter conversation)
event-compact_example = event-compact percent manager conversation done.0 done.1 done.2 refl refl
