-- ===== src/Guardrails/ErrorTracker/Window.antt =====
-- What the tracker keeps of the errors of a session, and when it blocks a tool.
use agentware.Prelude.{
  ℕ, ◌+◌, ◌≤◌, ◌<◌, String, ◌≡◌, ◌≢◌, inl, inr, refl, ◌∙◌, Bool, true, List, [], ◌∷◌, ◌++◌, length,
  length-append, keep, keep-append, keep-keep, length-keep_mono, ◌&&◌, lookup, insert, leb,
  lookup-insert, arith, eq_iff, eq_refl, ◌==◌, Option-cases, if_ind, if◌then◌else◌,
}
use agentware.Types.{Args}
use agentware.Guardrails.ErrorTracker.{
  ErrorCategory, ToolError, ErrorTracker, session_errors, is_of_tool, get_error_count, is_recent,
  pruned, prune_old_errors, new_error, record_error, get_recent_errors, should_block_tool,
}

-- What pruning makes of the errors of every session.
session_errors-prune_old_errors :
    (t : ErrorTracker) (now : ℕ) (session other : String)
    → session_errors (prune_old_errors t now session) other ≡ (
        if session == other
        then pruned t now (session_errors t session)
        else session_errors t other)
unfolding prune_old_errors
session_errors-prune_old_errors t now session other =
    elim (Option-cases (lookup session t.errors)) [
      | inl e ↦ ground (arith, eq_iff session other)
      | inr (es, e) ↦
          ground
            (arith, lookup-insert session other (pruned t now es) t.errors, eq_iff session other)
    ]

-- What one recorded error makes of the errors of every session.
session_errors-record_error :
    (t : ErrorTracker) (now cutoff : ℕ) (session other tool message : String) (args : Args)
    (category : ErrorCategory)
    → session_errors (record_error t now cutoff session tool args message category) other ≡ (
        if session == other
        then pruned t cutoff
            (session_errors t session ++ new_error t now session tool args message category ∷ [])
        else session_errors t other)
unfolding record_error
session_errors-record_error t now cutoff session other tool message args category =
    let entries =
      session_errors t session ++ new_error t now session tool args message category ∷ [] in
    let recorded : ErrorTracker = record t { errors = insert session entries t.errors } in
    session_errors-prune_old_errors recorded cutoff session other
    ∙ ground (
      arith,
      lookup-insert session session entries t.errors,
      lookup-insert session other entries t.errors,
      eq_refl session,
    )

thresholds-record_error :
    (t : ErrorTracker) (now cutoff : ℕ) (session tool message : String) (args : Args)
    (category : ErrorCategory)
    → ((record_error t now cutoff session tool args message category).max_errors_per_tool
        ≡ t.max_errors_per_tool)
      × ((record_error t now cutoff session tool args message category).window_duration
          ≡ t.window_duration)
unfolding record_error prune_old_errors
thresholds-record_error t now cutoff session tool message args category =
    let entries =
      session_errors t session ++ new_error t now session tool args message category ∷ [] in
    elim (Option-cases (lookup session (insert session entries t.errors))) [
      | inl e ↦ ground arith
      | inr (es, e) ↦ ground arith
    ]

-- Recording an error drops no error of its session that is within the window, and touches no other
-- session. A look at the recent errors of a session drops none within the window either.
pub recent-record_error :
    (t : ErrorTracker) (now cutoff : ℕ) (session tool message : String) (args : Args)
    (category : ErrorCategory)
    → (keep
          (is_recent cutoff t.window_duration)
          (session_errors (record_error t now cutoff session tool args message category) session)
        ≡ keep
            (is_recent cutoff t.window_duration)
            (session_errors t session ++ new_error t now session tool args message category ∷ []))
      × ((other : String)
          → session ≢ other
          → session_errors (record_error t now cutoff session tool args message category) other
            ≡ session_errors t other)
      × (keep (is_recent cutoff t.window_duration) (get_recent_errors t cutoff session).0
          ≡ keep (is_recent cutoff t.window_duration) (session_errors t session))
unfolding get_recent_errors
recent-record_error t now cutoff session tool message args category =
    let entries =
      session_errors t session ++ new_error t now session tool args message category ∷ [] in
    (
      rw
          (
            session_errors-record_error t now cutoff session session tool message args category,
            eq_refl session,
          )
          (recent-pruned entries),
      λ other ne. ground (
        arith,
        session_errors-record_error t now cutoff session other tool message args category,
        eq_iff session other,
      ),
      rw (session_errors-prune_old_errors t cutoff session session, eq_refl session)
          (recent-pruned (session_errors t session)),
    )
  where
    recent-pruned :
        (es : List ToolError)
        → keep (is_recent cutoff t.window_duration) (pruned t cutoff es)
          ≡ keep (is_recent cutoff t.window_duration) es
    recent-pruned es =
        if_ind
          (λ (kept : List ToolError).
            keep (is_recent cutoff t.window_duration) kept
            ≡ keep (is_recent cutoff t.window_duration) es)
          (leb (length es) t.max_errors_per_tool) (λ _. refl)
          (λ _. keep-keep (is_recent cutoff t.window_duration) _ es (λ x h. h))

-- One recorded error: the two readings of the clock, and the text.
pub record Failure : Type 0 where
  pub now : ℕ
  pub cutoff : ℕ
  pub message : String

module _ (session tool : String) (args : Args) (category : ErrorCategory) where
  pub record_all : ErrorTracker → List Failure → ErrorTracker
  record_all t [] = t
  record_all t (f ∷ fs) =
      record_all (record_error t f.now f.cutoff session tool args f.message category) fs

  module _ (horizon window : ℕ) where
    -- an error of the tool that is recent at the horizon
    abbrev live : ToolError → Bool
    live e = is_recent horizon window e && is_of_tool tool e

    live-pruned :
        (t : ErrorTracker) (cutoff : ℕ) (es : List ToolError)
        → t.window_duration ≡ window
        → cutoff ≤ horizon
        → keep live (pruned t cutoff es) ≡ keep live es
    live-pruned t cutoff es w c =
        if_ind (λ (kept : List ToolError). keep live kept ≡ keep live es)
          (leb (length es) t.max_errors_per_tool) (λ _. refl)
          (λ _. keep-keep (is_recent cutoff t.window_duration) live es (λ x h. ground arith))

    live-record_error :
        (t : ErrorTracker) (f : Failure)
        → t.window_duration ≡ window
        → f.cutoff ≤ horizon
        → horizon < f.now + window
        → length (
            keep live (
              session_errors
                (record_error t f.now f.cutoff session tool args f.message category)
                session))
          ≡ length (keep live (session_errors t session)) + 1
    live-record_error t f w c r =
        let entry = new_error t f.now session tool args f.message category in
        let alive : live entry ≡ true = ground (arith, eq_refl tool) in
        rw
          (
            session_errors-record_error t f.now f.cutoff session session tool f.message args
                category,
            eq_refl session,
          )
          (rw
            (
              live-pruned t f.cutoff (session_errors t session ++ entry ∷ []) w c,
              keep-append live (session_errors t session) (entry ∷ []),
              alive,
            )
            (length-append (keep live (session_errors t session)) (entry ∷ [])))

    -- every failure is recent at the horizon, which no cutoff has passed
    abbrev pub IsBurst : List Failure → Type 0
    IsBurst [] = Unit
    IsBurst (f ∷ fs) = ((f.cutoff ≤ horizon) × (horizon < f.now + window)) × IsBurst fs

    live-record_all :
        (t : ErrorTracker) (fs : List Failure)
        → t.window_duration ≡ window
        → IsBurst fs
        → (length (keep live (session_errors (record_all t fs) session))
            ≡ length (keep live (session_errors t session)) + length fs)
          × ((record_all t fs).max_errors_per_tool ≡ t.max_errors_per_tool)
    unfolding record_all
    live-record_all t [] w h = (omega arith, refl)
    live-record_all t (f ∷ fs) w ((c, r), h) =
        let t' = record_error t f.now f.cutoff session tool args f.message category in
        let (m, w') =
          thresholds-record_error t f.now f.cutoff session tool f.message args category in
        let (l, m') = live-record_all t' fs (w' ∙ w) h in
        (omega (arith, l, live-record_error t f w c r), m' ∙ m)

  -- After at least as many failures of a tool as the threshold says, all of them within the window
  -- at one moment that no cutoff has passed, the tool is blocked in that session, whatever the
  -- tracker held before and however it pruned on the way.
  pub burst_blocks :
      (t : ErrorTracker) (horizon : ℕ) (fs : List Failure)
      → IsBurst horizon t.window_duration fs
      → t.max_errors_per_tool ≤ length fs
      → should_block_tool (record_all t fs) session tool ≡ true
  unfolding should_block_tool get_error_count
  burst_blocks t horizon fs h n =
      let window = t.window_duration in
      let (l, m) = live-record_all horizon window t fs refl h in
      let more =
        length-keep_mono (is_of_tool tool) (live horizon window)
          (session_errors (record_all t fs) session) (λ x k. ground arith) in
      ground (arith, l, m, more)
