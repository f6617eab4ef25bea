-- ===== src/ToolSync/Attempts/Retry.antt =====
-- A sync against a control plane whose answers are given: when it registers, and when it gives up.
use agentware.Prelude.{
  ℕ, zero, suc, ◌≤◌, ◌<◌, ◌≡◌, refl, arith, String, Bool, true, false, Option, none, List, [], ◌∷◌,
  ◌++◌, append_assoc, append-nil, ap, ◌∙◌, Dict, All, length, nat_eq, ◌<+>◌, text_take, inl, inr,
}
use agentware.Prelude.Value.{Value, int, pos}
use agentware.Prelude.Python.{Python}
use agentware.Prelude.Exec.{Exec, Result, ok, raise, tool_manifest_sync_error, other}
use agentware.ToolSync.{
  ToolManifestSyncConfig, ToolManifestSyncResult, mapping, Answer, network_error, answered, Outside,
  Urls, manifest_tool_count, delay, registered, scrub, is_success, error_body_limit,
}
use agentware.ToolSync.Attempts.{
  judge, again, decided, attempt_put, attempts_of, sync_tool_manifest,
}

-- the answers to come, and the delays that were waited for
abbrev pub Script : Type 0
Script = List Answer × List ℕ

abbrev next_answer : List Answer → List ℕ → Result Answer × Script
next_answer [] delays = (raise (other "no answer"), ([], delays))
next_answer (a ∷ answers) delays = (ok a, (answers, delays))

abbrev pub scripted : Outside Script
scripted = record {
  put = λ client req s. next_answer s.0 s.1;
  sleep = λ ms s. (ok tt, (s.0, s.1 ++ ms ∷ []));
  read = λ path s. (ok none, s);
}

abbrev pub IsFailure : Answer → Type 0
IsFailure (network_error name) = Unit
IsFailure (answered status body json) = is_success status ≡ false

-- the delays after so many attempts, from an attempt on
abbrev pub delays_from : ToolManifestSyncConfig → ℕ → ℕ → List ℕ
delays_from config attempt zero = []
delays_from config attempt (suc n) = delay config attempt ∷ delays_from config (suc attempt) n

module _ (py : Python) (urls : Urls) (config : ToolManifestSyncConfig) (document : Dict Value) where
  failure_reason :
      (a : Answer)
      → IsFailure a
      → (reason : String) × (judge py urls scripted config document a ≡ inr reason)
  unfolding judge
  failure_reason (network_error name) h = (_, refl)
  failure_reason (answered status body json) h = (
    "HTTP " <+> py.to_text (int (pos status)) <+> ": " <+> text_take error_body_limit body,
    rw h refl,
  )

  judge-success :
      (status : ℕ) (body : String) (json : Option Value)
      → is_success status ≡ true
      → judge py urls scripted config document (answered status body json)
        ≡ inl (registered document json)
  unfolding judge
  judge-success status body json h = rw h refl

  again-suc :
      (left attempt : ℕ) (rest : Exec Script ToolManifestSyncResult) (answers : List Answer)
      (waited : List ℕ)
      → again py urls scripted config (suc left) attempt rest (answers, waited)
        ≡ rest (answers, waited ++ delay config attempt ∷ [])
  again-suc left attempt rest answers waited =
      let h : nat_eq (suc left) 0 ≡ false = ground arith in rw h refl

  -- what follows a failed attempt
  abbrev go_on : ℕ → ℕ → String → Exec Script ToolManifestSyncResult
  go_on left attempt reason =
      again py urls scripted config left attempt (
        attempt_put py urls scripted config left (suc attempt) (scrub reason config.token) document)

  attempt_put_step :
      (left attempt : ℕ) (last : String) (a : Answer) (answers : List Answer) (waited : List ℕ)
      → attempt_put py urls scripted config (suc left) attempt last document (a ∷ answers, waited)
        ≡ decided py urls scripted config
            (go_on left attempt)
            (judge py urls scripted config document a)
            (answers, waited)
  unfolding attempt_put
  attempt_put_step left attempt last a answers waited = refl

  attempt_put_failed :
      (left attempt : ℕ) (last : String) (a : Answer) (answers : List Answer) (waited : List ℕ)
      → IsFailure a
      → (reason : String) × (attempt_put py urls scripted config
            (suc left)
            attempt
            last
            document
            (a ∷ answers, waited)
          ≡ go_on left attempt reason (answers, waited))
  attempt_put_failed left attempt last a answers waited f =
      let (reason, e) = failure_reason a f in
      (
        reason,
        attempt_put_step left attempt last a answers waited
            ∙ ap (λ o. decided py urls scripted config (go_on left attempt) o (answers, waited)) e,
      )

  attempt_put_registers :
      (fails : List Answer) (status : ℕ) (body : String) (json : Option Value) (rest : List Answer)
      (left attempt : ℕ) (last : String) (waited : List ℕ)
      → All IsFailure fails
      → is_success status ≡ true
      → length fails < left
      → attempt_put py urls scripted config left attempt last document
          (fails ++ answered status body json ∷ rest, waited)
        ≡ (
          ok (registered document json),
          (rest, waited ++ delays_from config attempt (length fails)),
        )
  attempt_put_registers fails status body json rest zero attempt last waited f h b =
      absurd (omega (arith, b))
  attempt_put_registers [] status body json rest (suc left) attempt last waited f h b =
      attempt_put_step left attempt last (answered status body json) rest waited
      ∙ rw (judge-success status body json h, append-nil waited) refl
  attempt_put_registers (a ∷ fails) status body json rest (suc zero) attempt last waited f h b =
      absurd (omega (arith, b))
  attempt_put_registers (a ∷ fails) status body json rest (suc (suc left)) attempt last waited
        (f, fs) h b =
      let (reason, e) =
        attempt_put_failed (suc left) attempt last a (fails ++ answered status body json ∷ rest)
          waited f in
      e
      ∙ again-suc left attempt _ (fails ++ answered status body json ∷ rest) waited
      ∙ (attempt_put_registers fails status body json rest (suc left) (suc attempt)
            (scrub reason config.token) (waited ++ delay config attempt ∷ []) fs h
            (omega (arith, b))
          ∙ ap (λ ds. (ok (registered document json), (rest, ds)))
              (append_assoc waited (delay config attempt ∷ [])
                (delays_from config (suc attempt) (length fails))))

  raised :
      (reason : String) (attempt : ℕ) (s : Script)
      → (message : String) × (attempt_put py urls scripted config zero attempt reason document s
          ≡ (raise (tool_manifest_sync_error message), s))
  unfolding attempt_put
  raised reason attempt s = (_, refl)

  attempt_put_gives_up :
      (fails rest : List Answer) (left attempt : ℕ) (last : String) (waited : List ℕ)
      → All IsFailure fails
      → length fails ≡ suc left
      → (message : String) × (attempt_put py urls scripted config
            (suc left)
            attempt
            last
            document
            (fails ++ rest, waited)
          ≡ (
            raise (tool_manifest_sync_error message),
            (rest, waited ++ delays_from config attempt left),
          ))
  attempt_put_gives_up [] rest left attempt last waited f b = absurd (omega (arith, b))
  attempt_put_gives_up (a ∷ []) rest zero attempt last waited (f, fs) b =
      let (reason, e) = attempt_put_failed zero attempt last a rest waited f in
      let (message, k) = raised (scrub reason config.token) (suc attempt) (rest, waited) in
      (message, e ∙ (k ∙ rw (append-nil waited) refl))
  attempt_put_gives_up (a ∷ c ∷ fails) rest zero attempt last waited f b = absurd (omega (arith, b))
  attempt_put_gives_up (a ∷ fails) rest (suc left) attempt last waited (f, fs) b =
      let (reason, e) = attempt_put_failed (suc left) attempt last a (fails ++ rest) waited f in
      let (message, k) =
        attempt_put_gives_up fails rest left (suc attempt) (scrub reason config.token)
          (waited ++ delay config attempt ∷ []) fs (omega (arith, b)) in
      (
        message,
        e
            ∙ again-suc left attempt _ (fails ++ rest) waited
            ∙ (k
                ∙ ap (λ ds. (raise (tool_manifest_sync_error message), (rest, ds)))
                    (append_assoc waited (delay config attempt ∷ [])
                      (delays_from config (suc attempt) left))),
      )

  module _ (loads : String → Option Value) (expect_tools : Option Bool)
      (count : 1 ≤ manifest_tool_count document) where
    unfold_sync :
        (s : Script)
        → sync_tool_manifest py urls scripted config loads expect_tools (mapping document) s
          ≡ attempt_put py urls scripted config
              (attempts_of py urls scripted config)
              1
              "no attempt made"
              document
              s
    unfolding sync_tool_manifest
    unfold_sync s = rw (nonzero (manifest_tool_count document) count) refl
      where
        nonzero : (n : ℕ) → 1 ≤ n → nat_eq n 0 ≡ false
        nonzero n h = ground arith

    -- A sync of a manifest with at least one tool registers it where a successful answer comes within
    -- the attempts: it returns the counts of the first such answer, reads no answer after it, and has
    -- waited once after each answer that failed, for the delay of that attempt.
    pub sync_tool_manifest_registers :
        (fails : List Answer) (status : ℕ) (body : String) (json : Option Value)
        (rest : List Answer)
        → All IsFailure fails
        → is_success status ≡ true
        → length fails < attempts_of py urls scripted config
        → sync_tool_manifest py urls scripted config loads expect_tools
            (mapping document)
            (fails ++ answered status body json ∷ rest, [])
          ≡ (ok (registered document json), (rest, delays_from config 1 (length fails)))
    sync_tool_manifest_registers fails status body json rest f h b =
        rw (unfold_sync (fails ++ answered status body json ∷ rest, [])) (
          attempt_put_registers fails status body json rest (attempts_of py urls scripted config) 1
            "no attempt made" [] f h b)

    -- A sync whose attempts all fail raises after as many answers as there are attempts, and has waited
    -- after each of them but the last.
    pub sync_tool_manifest_gives_up :
        (fails rest : List Answer) (left : ℕ)
        → All IsFailure fails
        → length fails ≡ suc left
        → attempts_of py urls scripted config ≡ suc left
        → (message : String) × (sync_tool_manifest py urls scripted config loads expect_tools
              (mapping document)
              (fails ++ rest, [])
            ≡ (raise (tool_manifest_sync_error message), (rest, delays_from config 1 left)))
    sync_tool_manifest_gives_up fails rest left f b e =
        let (message, k) = attempt_put_gives_up fails rest left 1 "no attempt made" [] f b in
        (message, rw (unfold_sync (fails ++ rest, []), e) k)
