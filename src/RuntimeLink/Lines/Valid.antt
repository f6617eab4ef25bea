-- ===== src/RuntimeLink/Lines/Valid.antt =====
-- What the supervisor may rely on in an event of the child.
use agentware.Prelude.{
  ℕ, ◌≤◌, String, ◌≡◌, ◌⊎◌, refl, arith, Bool, true, false, not, ◌&&◌, Option, none, some, Dict,
  All, lookup, leb, ltb, text_length, ◌==◌, eq_iff, if_ind,
}
use agentware.Prelude.Value.{Value, pos, negsuc, int, str, dict, fields}
use agentware.Prelude.Checks.{◌>>=◌, ◌>>◌, require, bind-Outcome}
use agentware.Prelude.Triple.{Outcome, Outcome-any}
use agentware.Prelude.Exec.{Result, ok, Error, malformed_line, line_too_long}
use agentware.RuntimeLink.{ChildEvent, identity, beat, terminating, ignored}
use agentware.RuntimeLink.Lines.{
  Patterns, max_seq, max_ms, text, integer, integer_in, line_bytes, max_child_line_bytes,
  outcome_of, beat_of, identity_of, ident, timestamp, parse_agents, parse_identity, parse_beat,
  parse_terminal, by_event, parse_object, parse_child_line_counted,
}
use agentware.RuntimeLink.Lines.Agents.{IsIdent, IsIdentIf, IsBlankOrIdent, parse_agents-AreAgents}

-- The bounds of an event.
abbrev pub IsValid : Patterns → ChildEvent × ℕ → Type 0
IsValid p (identity i, dropped) =
    IsIdent p i.run_id
    × IsIdent p i.installation_id
    × IsIdent p i.org_id
    × IsBlankOrIdent p i.workspace_id
    × IsBlankOrIdent p i.platform
    × IsBlankOrIdent p i.status
    × IsBlankOrIdent p i.binding_status
    × IsBlankOrIdent p i.runtime_version
    × IsIdentIf p i.default_agent_id
    × All (λ agent. IsIdent p agent.agent_id) i.agents
IsValid p (beat b, dropped) =
    (dropped ≡ 0)
    × IsIdent p b.run_id
    × (p.timestamp b.at ≡ true)
    × (b.seq ≤ max_seq)
    × (b.latency_ms ≤ 3600000)
    × (b.next_in_ms ≤ 3600000)
    × (b.http_status ≤ 599)
    × ((b.http_status ≡ 0) ⊎ (100 ≤ b.http_status))
IsValid p (terminating t, dropped) = (dropped ≡ 0) × IsIdent p t.run_id × (p.reason t.reason ≡ true)
IsValid p (ignored, dropped) = dropped ≡ 0

required-ok :
    {A : Type 0} (P : A → Type 0) (b : Bool) (e : Error) (k : Result A)
    → (b ≡ true → Outcome P (Unit {0}) k)
    → Outcome P (Unit {0}) (require b e >> k)
required-ok P true e k h = h refl
required-ok P false e k h = tt

integer-le :
    (key : String) (hi : ℕ) (raw : Dict Value)
    → Outcome (λ n. n ≤ hi) (Unit {0}) (integer key hi raw)
integer-le key hi raw = go (lookup key raw)
  where
    go : (o : Option Value) → Outcome (λ n. n ≤ hi) (Unit {0}) (integer_in key hi o)
    go none = omega arith
    go (some (int (pos n))) =
        if_ind (Outcome (λ n. n ≤ hi) (Unit {0})) (leb n hi) (λ e. ground arith) (λ _. tt)
    go (some (int (negsuc n))) = tt
    go (some _) = tt

module _ (p : Patterns) where
  ident-IsIdent :
      (key : String) (raw : Dict Value) → Outcome (IsIdent p) (Unit {0}) (ident p key true raw)
  ident-IsIdent key raw =
      bind-Outcome (λ _. Unit {0}) (IsIdent p) (text key true raw) _
        (Outcome-any (text key true raw))
        (λ s _. required-ok (IsIdent p) _ (malformed_line key) (ok s) (λ e. ground arith))

  ident-IsBlankOrIdent :
      (key : String) (raw : Dict Value)
      → Outcome (IsBlankOrIdent p) (Unit {0}) (ident p key false raw)
  ident-IsBlankOrIdent key raw =
      bind-Outcome (λ _. Unit {0}) (IsBlankOrIdent p) (text key false raw) _
        (Outcome-any (text key false raw))
        (λ s _.
          required-ok (IsBlankOrIdent p) _ (malformed_line key) (ok s)
            (λ e. ground (arith, eq_iff s "")))

  timestamp-ok :
      (key : String) (raw : Dict Value)
      → Outcome (λ s. p.timestamp s ≡ true) (Unit {0}) (timestamp p key raw)
  timestamp-ok key raw =
      bind-Outcome (λ _. Unit {0}) (λ s. p.timestamp s ≡ true) (text key true raw) _
        (Outcome-any (text key true raw))
        (λ s _. required-ok (λ s. p.timestamp s ≡ true) _ (malformed_line key) (ok s) (λ e. e))

  terminal-IsValid : (raw : Dict Value) → Outcome (IsValid p) (Unit {0}) (parse_terminal p raw)
  unfolding parse_terminal
  terminal-IsValid raw =
      bind-Outcome (IsIdent p) (IsValid p) (ident p "run_id" true raw) _
        (ident-IsIdent "run_id" raw)
        (λ run_id i.
          bind-Outcome (λ _. Unit {0}) (IsValid p) (text "reason" true raw) _
            (Outcome-any (text "reason" true raw))
            (λ reason _.
              required-ok (IsValid p) _ (malformed_line "reason")
                (ok (terminating (record { run_id = run_id; reason = reason }), 0))
                (λ e. (refl, i, e))))

  beat-IsValid : (raw : Dict Value) → Outcome (IsValid p) (Unit {0}) (parse_beat p raw)
  unfolding parse_beat
  beat-IsValid raw =
      bind-Outcome (IsIdent p) (IsValid p) (ident p "run_id" true raw) _
        (ident-IsIdent "run_id" raw)
        (λ run_id i.
          bind-Outcome (λ n. n ≤ max_seq) (IsValid p) (integer "seq" max_seq raw) _
            (integer-le "seq" max_seq raw)
            (λ seq s.
              bind-Outcome (λ t. p.timestamp t ≡ true) (IsValid p) (timestamp p "at" raw) _
                (timestamp-ok "at" raw)
                (λ at t.
                  bind-Outcome (λ _. Unit {0}) (IsValid p) (text "outcome" true raw) _
                    (Outcome-any (text "outcome" true raw))
                    (λ outcome _. beat_rest run_id seq at outcome i s t))))
    where
      beat_rest :
          (run_id : String) (seq : ℕ) (at outcome : String)
          → IsIdent p run_id
          → seq ≤ max_seq
          → p.timestamp at ≡ true
          → Outcome (IsValid p) (Unit {0}) (
              integer "latency_ms" max_ms raw >>= λ latency_ms.
              integer "next_in_ms" max_ms raw >>= λ next_in_ms.
              integer "http_status" 599 raw >>= λ http_status.
              require
                (not (ltb 0 http_status && ltb http_status 100))
                (malformed_line "http_status")
              >> (outcome_of outcome >>= λ outcome.
                  ok (beat_of run_id seq at latency_ms next_in_ms http_status outcome)))
      beat_rest run_id seq at outcome i s t =
          bind-Outcome (λ n. n ≤ max_ms) (IsValid p) (integer "latency_ms" max_ms raw) _
            (integer-le "latency_ms" max_ms raw)
            (λ latency l.
              bind-Outcome (λ n. n ≤ max_ms) (IsValid p) (integer "next_in_ms" max_ms raw) _
                (integer-le "next_in_ms" max_ms raw)
                (λ next n.
                  bind-Outcome (λ n. n ≤ 599) (IsValid p) (integer "http_status" 599 raw) _
                    (integer-le "http_status" 599 raw)
                    (λ status h. required-ok (IsValid p) _ (malformed_line "http_status") _ (λ e.
                      bind-Outcome (λ _. Unit {0}) (IsValid p) (outcome_of outcome)
                        (λ o. ok (beat_of run_id seq at latency next status o))
                        (Outcome-any (outcome_of outcome))
                        (λ o _. (refl, i, t, s, l, n, h, status-range status e))))))
        where
          status-range : (n : ℕ) → not (ltb 0 n && ltb n 100) ≡ true → (n ≡ 0) ⊎ (100 ≤ n)
          status-range n e = ground arith

  identity-IsValid : (raw : Dict Value) → Outcome (IsValid p) (Unit {0}) (parse_identity p raw)
  unfolding parse_identity
  identity-IsValid raw =
      bind-Outcome (IsIdent p) (IsValid p) (ident p "run_id" true raw) _
        (ident-IsIdent "run_id" raw)
        (λ run i.
          bind-Outcome (IsIdent p) (IsValid p) (ident p "installation_id" true raw) _
            (ident-IsIdent "installation_id" raw)
            (λ installation j.
              bind-Outcome (IsIdent p) (IsValid p) (ident p "org_id" true raw) _
                (ident-IsIdent "org_id" raw) (λ org k. rest run installation org i j k)))
    where
      optional :
          (key : String) (f : String → Result (ChildEvent × ℕ))
          → ((s : String) → IsBlankOrIdent p s → Outcome (IsValid p) (Unit {0}) (f s))
          → Outcome (IsValid p) (Unit {0}) (ident p key false raw >>= f)
      optional key f h =
          bind-Outcome (IsBlankOrIdent p) (IsValid p) (ident p key false raw) f
            (ident-IsBlankOrIdent key raw) h

      rest :
          (run installation org : String)
          → IsIdent p run
          → IsIdent p installation
          → IsIdent p org
          → Outcome (IsValid p) (Unit {0}) (
              ident p "workspace_id" false raw >>= λ workspace.
              ident p "platform" false raw >>= λ platform. ident p "status" false raw >>= λ status.
              ident p "binding_status" false raw >>= λ binding.
              ident p "runtime_version" false raw >>= λ version. ok (
                identity_of
                  (parse_agents p raw)
                  run
                  installation
                  org
                  workspace
                  platform
                  status
                  binding
                  version))
      rest run installation org i j k =
          let (chosen, agents) = parse_agents-AreAgents p raw in
          optional "workspace_id" _ (λ workspace a. optional "platform" _ (λ platform b.
            optional "status" _ (λ status c. optional "binding_status" _ (λ binding d.
              optional "runtime_version" _
                (λ version e. (i, j, k, a, b, c, d, e, chosen, agents))))))

  event-IsValid :
      (raw : Dict Value) (o : Option Value) → Outcome (IsValid p) (Unit {0}) (by_event p raw o)
  event-IsValid raw (some (str event)) =
      if_ind (Outcome (IsValid p) (Unit {0})) (event == "identity") (λ _. identity-IsValid raw)
        (λ _.
          if_ind (Outcome (IsValid p) (Unit {0})) (event == "beat") (λ _. beat-IsValid raw)
            (λ _.
              if_ind (Outcome (IsValid p) (Unit {0})) (event == "terminal")
                (λ _. terminal-IsValid raw) (λ _. refl)))
  event-IsValid raw none = tt
  event-IsValid raw (some _) = tt

  object-IsValid : (o : Option Value) → Outcome (IsValid p) (Unit {0}) (parse_object p o)
  object-IsValid none = tt
  object-IsValid (some (dict fs)) =
      required-ok (IsValid p) _ _ _ (λ _. event-IsValid (fields fs) (lookup "event" (fields fs)))
  object-IsValid (some _) = tt

  -- A line that parses has identifiers, a timestamp and a reason that match their patterns, where the
  -- identifiers of an identity other than its run, installation and organization may be empty. It
  -- has a sequence number below 2 ^ 53, times of at most an hour, and an HTTP status that is 0 or
  -- from 100 to 599. The agents of an identity, and its default agent where it has one, have
  -- identifiers that match their pattern. Only an identity drops entries.
  pub parse_child_line_counted-IsValid :
      (line : String) → Outcome (IsValid p) (Unit {0}) (parse_child_line_counted p line)
  unfolding parse_child_line_counted
  parse_child_line_counted-IsValid line =
      required-ok (IsValid p) (leb (text_length (line_bytes line)) max_child_line_bytes)
        (line_too_long "line too long") (parse_object p (p.loads (line_bytes line)))
        (λ _. object-IsValid (p.loads (line_bytes line)))
