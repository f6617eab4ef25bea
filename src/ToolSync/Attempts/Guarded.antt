-- ===== src/ToolSync/Attempts/Guarded.antt =====
-- What a sync sends, whichever of the three functions begins it.
use agentware.Prelude.{
  ℕ, ◌≤◌, ◌≡◌, ◌⊎◌, inl, inr, arith, String, Bool, true, false, some, lookup, ◌<+>◌,
}
use agentware.Prelude.Value.{Value}
use agentware.Prelude.Python.{Python}
use agentware.Prelude.Exec.{Exec, Result}
use agentware.Prelude.Triple.{Triple, Outcome}
use agentware.ToolSpec.{ToolSpec}
use agentware.ToolSync.{
  ToolManifestSyncConfig, ToolManifestSyncResult, Manifest, Request, Outside, Urls, tools_url,
  client_of, manifest_tool_count, delay,
}

-- A request that registers at least one tool, at the URL and with the token of the configuration.
abbrev pub IsRegistering : ToolManifestSyncConfig → Request → Type 0
IsRegistering config req =
    (req.url ≡ tools_url config)
    × (1 ≤ manifest_tool_count req.content)
    × (lookup "Authorization" req.headers ≡ some ("Bearer " <+> config.token))

-- A sync that sent has registered at least one tool; one that did not was not to expect tools.
abbrev pub IsSync : Bool → ToolManifestSyncResult → Type 0
IsSync expected r =
    ((r.sent ≡ true) × (1 ≤ r.tool_count))
    ⊎ ((r.sent ≡ false) × (r.tool_count ≡ 0) × (expected ≡ false))

-- How a sync ends: with a result that is one, or with an exception; and with a state that has `I`.
abbrev pub IsEnd {ℓ μ} :
    {W : Type ℓ} → (W → Type μ) → Bool → Result ToolManifestSyncResult × W → Type μ
IsEnd I expected (r, w) = Outcome (IsSync expected) Unit r × I w

pub delay-le : (config : ToolManifestSyncConfig) (attempt : ℕ) → delay config attempt ≤ 16000
delay-le config attempt = ground arith

module _ {ℓ μ} {W : Type ℓ} (py : Python) (urls : Urls) (out : Outside W)
    (config : ToolManifestSyncConfig) (I : W → Type μ)
    (put-Triple : (req : Request)
      → IsRegistering config req
      → Triple I (λ _. Unit {0}) Unit (out.put (client_of urls config) req))
    (sleep-Triple : (ms : ℕ) → ms ≤ 16000 → Triple I (λ _. Unit {0}) Unit (out.sleep ms))
    (read-Triple : (path : String) → Triple I (λ _. Unit {0}) Unit (out.read path)) where
  abbrev Syncs : Bool → Exec W ToolManifestSyncResult → Type (ℓ ⊔ μ)
  Syncs expected m = Triple I (IsSync expected) Unit m

  -- What an attempt returns is a sync.
  abbrev IsJudged : Bool → ToolManifestSyncResult ⊎ String → Type 0
  IsJudged expected (inl r) = IsSync expected r
  IsJudged expected (inr reason) = Unit
