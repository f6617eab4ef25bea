-- ===== src/Context/Compaction.antt =====
-- What tiered compaction keeps, and when it stops.
use agentware.Prelude.{
  ℕ, ◌+◌, ◌≤◌, ◌≡◌, ◌⊎◌, inl, inr, refl, ap, ◌∙◌, true, false, Option, none, some, List, [], ◌∷◌,
  keep, take, is_empty, ltb, leb, text_length, text_length-take-le, arith, if_ind, subst,
  Bool-cases,
}
use agentware.Llm.{Message}
use agentware.Context.{
  TokenCounter, message_tokens, default_counter, is_nudge_type, is_tool_result, is_thought,
  TieredCompact, protected_steps, is_protected, Treatment, kept, phase_rest, phase, treat1, treat2,
  treat3, phase1_compact, phase2_compact, phase3_compact, compact,
}

-- A treatment that drops a message or leaves it no longer, with its metadata.
pub record IsReducing (treat : Treatment) : Type 0 where
  pub shorter : (m n : Message) → treat m ≡ some n → message_tokens n ≤ message_tokens m
  pub labelled : (m n : Message) → treat m ≡ some n → n.meta ≡ m.meta

-- `P` holds of what is left of a message, if anything is
abbrev OnKept : (Message → Type 0) → Option Message → Type 0
OnKept P none = Unit
OnKept P (some n) = P n

on_kept :
    (P : Message → Type 0) (o : Option Message) → OnKept P o → (n : Message) → o ≡ some n → P n
on_kept P none h n e = cc e
on_kept P (some m) h n e = subst P (cc e) h

reducing :
    (treat : Treatment)
    → ((m : Message)
        → OnKept (λ n. (message_tokens n ≤ message_tokens m) × (n.meta ≡ m.meta)) (treat m))
    → IsReducing treat
reducing treat h = record {
  shorter = λ m n e. (on_kept _ (treat m) (h m) n e).0;
  labelled = λ m n e. (on_kept _ (treat m) (h m) n e).1;
}

abbrev Shortens : Message → Option Message → Type 0
Shortens m = OnKept (λ n. (message_tokens n ≤ message_tokens m) × (n.meta ≡ m.meta))

same-Shortens : (m : Message) → Shortens m (some m)
same-Shortens m = (omega arith, refl)

treat1-IsReducing : (limit : ℕ) → IsReducing (treat1 limit)
treat1-IsReducing limit = reducing (treat1 limit) λ m.
    if_ind (Shortens m) (is_nudge_type m.meta.type) (λ _. tt)
      λ _.
        if_ind (Shortens m) (is_tool_result m.meta.type)
          (λ _.
            if_ind (Shortens m) (ltb limit (text_length m.content))
              (λ _. (omega (arith, text_length-take-le limit m.content), refl))
              (λ _. same-Shortens m))
          (λ _. same-Shortens m)

treat2-IsReducing : IsReducing treat2
treat2-IsReducing =
    reducing treat2
      λ m. if_ind (Shortens m) (is_tool_result m.meta.type) (λ _. tt) (λ _. same-Shortens m)

treat3-IsReducing : IsReducing treat3
treat3-IsReducing =
    reducing treat3
      λ m. if_ind (Shortens m) (is_thought m.meta.type) (λ _. tt) (λ _. same-Shortens m)

module _ (treat : Treatment) (r : IsReducing treat) (protected : List ℕ) where
  kept-le :
      (m : Message) (o : Option Message) (ms : List Message)
      → treat m ≡ o
      → default_counter (kept o ms) ≤ message_tokens m + default_counter ms
  unfolding default_counter
  kept-le m none ms e = omega arith
  kept-le m (some n) ms e = omega (arith, r.shorter m n e)

  phase_rest-le :
      (ms : List Message) → default_counter (phase_rest treat protected ms) ≤ default_counter ms
  unfolding default_counter phase_rest
  phase_rest-le [] = omega arith
  phase_rest-le (m ∷ ms) =
      if_ind (λ (out : List Message). default_counter out ≤ message_tokens m + default_counter ms)
        (is_protected protected m) (λ _. omega (arith, phase_rest-le ms))
        (λ _.
          omega (arith, phase_rest-le ms, kept-le m (treat m) (phase_rest treat protected ms) refl))

  phase-le : (ms : List Message) → default_counter (phase treat protected ms) ≤ default_counter ms
  unfolding default_counter phase
  phase-le [] = omega arith
  phase-le (m ∷ []) = omega arith
  phase-le (m ∷ n ∷ ms) = omega (arith, phase_rest-le ms)

  keep-kept :
      (m : Message) (o : Option Message) (ms : List Message)
      → treat m ≡ o
      → is_protected protected m ≡ false
      → keep (is_protected protected) (kept o ms) ≡ keep (is_protected protected) ms
  unfolding is_protected
  keep-kept m none ms e h = refl
  keep-kept m (some n) ms e h = rw (r.labelled m n e, h)

  keep-phase_rest :
      (ms : List Message)
      → keep (is_protected protected) (phase_rest treat protected ms)
        ≡ keep (is_protected protected) ms
  unfolding phase_rest
  keep-phase_rest [] = refl
  keep-phase_rest (m ∷ ms) = elim (Bool-cases (is_protected protected m)) [
    | inl e ↦ rw e (rw e (ap (◌∷◌ m) (keep-phase_rest ms)))
    | inr e ↦
        rw e (keep-kept m (treat m) (phase_rest treat protected ms) refl e ∙ keep-phase_rest ms)
  ]

  keep-phase :
      (ms : List Message)
      → keep (is_protected protected) (phase treat protected ms) ≡ keep (is_protected protected) ms
  unfolding phase
  keep-phase [] = refl
  keep-phase (m ∷ []) = refl
  keep-phase (m ∷ n ∷ ms) = rw (keep-phase_rest ms)

take-phase :
    (treat : Treatment) (protected : List ℕ) (ms : List Message)
    → take 2 (phase treat protected ms) ≡ take 2 ms
unfolding phase
take-phase treat protected [] = refl
take-phase treat protected (m ∷ []) = refl
take-phase treat protected (m ∷ n ∷ ms) = refl

-- Each phase keeps, in order and unchanged, every message of the steps that it protects.
pub keep-phases_compact :
    (s : TieredCompact) (ms : List Message)
    → (keep (is_protected (protected_steps s ms)) (phase1_compact s ms)
        ≡ keep (is_protected (protected_steps s ms)) ms)
      × (keep (is_protected (protected_steps s ms)) (phase2_compact s ms)
          ≡ keep (is_protected (protected_steps s ms)) ms)
      × (keep (is_protected (protected_steps s ms)) (phase3_compact s ms)
          ≡ keep (is_protected (protected_steps s ms)) ms)
unfolding phase1_compact phase2_compact phase3_compact
keep-phases_compact s ms = (
  keep-phase (treat1 s.truncate_chars) (treat1-IsReducing s.truncate_chars) (protected_steps s ms)
      ms,
  keep-phase treat2 treat2-IsReducing (protected_steps s ms) ms,
  keep-phase treat3 treat3-IsReducing (protected_steps s ms) ms,
)

-- the four results that `compact` can give
compact_cases :
    (P : List Message × TieredCompact → Type 0) (s : TieredCompact) (ms : List Message) (target : ℕ)
    (counter : TokenCounter)
    → (is_empty ms ≡ true → P ([], record s { last_phase = 0 }))
    → (leb (counter ms) target ≡ true → P (ms, record s { last_phase = 0 }))
    → (leb (counter (phase1_compact s ms)) target ≡ true
        → P (phase1_compact s ms, record s { last_phase = 1 }))
    → (leb (counter (phase2_compact s (phase1_compact s ms))) target ≡ true
        → P (phase2_compact s (phase1_compact s ms), record s { last_phase = 2 }))
    → P (phase3_compact s (phase2_compact s (phase1_compact s ms)), record s { last_phase = 3 })
    → P (compact s ms target counter)
unfolding compact
compact_cases P s ms target counter h0 h h1 h2 h3 = if_ind P (is_empty ms) h0 λ _.
    if_ind P (leb (counter ms) target) h λ _.
      if_ind P (leb (counter (phase1_compact s ms)) target) h1
        λ _. if_ind P (leb (counter (phase2_compact s (phase1_compact s ms))) target) h2 λ _. h3

phases-le :
    (s : TieredCompact) (ms : List Message)
    → (default_counter (phase1_compact s ms) ≤ default_counter ms)
      × (default_counter (phase2_compact s ms) ≤ default_counter ms)
      × (default_counter (phase3_compact s ms) ≤ default_counter ms)
unfolding phase1_compact phase2_compact phase3_compact
phases-le s ms = (
  phase-le (treat1 s.truncate_chars) (treat1-IsReducing s.truncate_chars) (protected_steps s ms) ms,
  phase-le treat2 treat2-IsReducing (protected_steps s ms) ms,
  phase-le treat3 treat3-IsReducing (protected_steps s ms) ms,
)

nothing-le : (ms : List Message) → default_counter [] ≤ default_counter ms
unfolding default_counter
nothing-le ms = omega arith

-- By the default counter, a compacted conversation has at most the tokens it had, whatever the target.
pub compact-le :
    (s : TieredCompact) (ms : List Message) (target : ℕ)
    → default_counter ((compact s ms target default_counter).0) ≤ default_counter ms
compact-le s ms target =
    let one = phase1_compact s ms in
    let a = (phases-le s ms).0 in
    let (_, b, _) = phases-le s one in
    let (_, _, c) = phases-le s (phase2_compact s one) in
    compact_cases (λ r. default_counter r.0 ≤ default_counter ms) s ms target default_counter
      (λ e. nothing-le ms) (λ _. omega arith) (λ _. a) (λ _. omega (arith, a, b))
      (omega (arith, a, b, c))

take-phases :
    (s : TieredCompact) (ms : List Message)
    → (take 2 (phase1_compact s ms) ≡ take 2 ms)
      × (take 2 (phase2_compact s ms) ≡ take 2 ms)
      × (take 2 (phase3_compact s ms) ≡ take 2 ms)
unfolding phase1_compact phase2_compact phase3_compact
take-phases s ms = (
  take-phase (treat1 s.truncate_chars) (protected_steps s ms) ms,
  take-phase treat2 (protected_steps s ms) ms,
  take-phase treat3 (protected_steps s ms) ms,
)

-- Compaction leaves the first two messages as they are, whichever phase it ends in.
pub take-compact :
    (s : TieredCompact) (ms : List Message) (target : ℕ) (counter : TokenCounter)
    → take 2 ((compact s ms target counter).0) ≡ take 2 ms
take-compact s ms target counter =
    let one = phase1_compact s ms in
    let two = phase2_compact s one in
    let a = (take-phases s ms).0 in
    let (_, b, _) = take-phases s one in
    let (_, _, c) = take-phases s two in
    compact_cases (λ r. take 2 r.0 ≡ take 2 ms) s ms target counter (nothing ms) (λ _. refl)
      (λ _. a) (λ _. b ∙ a) (c ∙ b ∙ a)
  where
    nothing : (ms : List Message) → is_empty ms ≡ true → take 2 [] ≡ take 2 ms
    nothing [] e = refl
    nothing (m ∷ ms) e = cc e

-- Of a conversation that is not empty, compaction gives one that meets the target, unless it went
-- through all three phases.
pub compact-fits :
    (s : TieredCompact) (ms : List Message) (target : ℕ) (counter : TokenCounter)
    → is_empty ms ≡ false
    → (leb (counter ((compact s ms target counter).0)) target ≡ true)
      ⊎ ((compact s ms target counter).1.last_phase ≡ 3)
compact-fits s ms target counter ne =
    compact_cases (λ r. (leb (counter r.0) target ≡ true) ⊎ (r.1.last_phase ≡ 3)) s ms target
      counter (λ e. cc (e, ne)) inl inl inl (inr refl)
