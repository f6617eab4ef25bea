-- ===== src/ToolSync/Attempts.antt =====
-- kei/tool_sync.py: the attempts of a sync, and the three functions that begin one.
pub mod Guarded
pub mod Retry
use Prim.Native.Char.{code}
use agentware.Prelude.{
  ◌⊎◌, inl, inr, ℕ, zero, suc, ◌-◌, ◌*◌, ◌^◌, String, Bool, true, false, not, ◌&&◌, Option, none,
  some, List, [], ◌∷◌, Dict, lookup, default, length, nat_eq, ltb, leb, is_prefix, text_length,
  text_take, strip, ◌<+>◌, ◌==◌, if◌then◌else◌,
}
use agentware.Prelude.Value.{Value, int, pos, list, dict, items, fields}
use agentware.Prelude.Python.{Python}
use agentware.Prelude.Exec.{
  Exec, Result, ok, raise, tool_manifest_sync_error, throw, lift, pure, ◌>>=◌, ◌>>◌,
}
use agentware.ToolSpec.{ToolSpec, serialize_tool_specs}
use agentware.ToolSpec.Manifest.{parse_manifest_v3}
use agentware.ToolSync.{
  tools_path, media_type, max_backoff, error_body_limit, ToolManifestSyncConfig,
  ToolManifestSyncResult, Manifest, Client, Request, Answer, Outside, Urls, variable, from_env,
  rstrip_slash, tools_url, proxy, client_of, tools_length, manifest_tool_count, parsed_document,
  document_of, counts_of, replace_from, scrub, is_success, request_of, delay, registered,
  skipped_sync, network_error, answered, text, mapping,
}

module _ {ℓ} {W : Type ℓ} (py : Python) (urls : Urls) (out : Outside W)
    (config : ToolManifestSyncConfig) where
  -- What an answer means: the result, or why the attempt failed.
  unfoldable pub judge : Dict Value → Answer → ToolManifestSyncResult ⊎ String
  judge document (network_error name) = inr ("network error: " <+> name)
  judge document (answered status body json) =
      if is_success status
      then inl (registered document json)
      else inr
          ("HTTP " <+> py.to_text (int (pos status)) <+> ": " <+> text_take error_body_limit body)

  abbrev pub give_up : String → Exec W ToolManifestSyncResult
  give_up last = throw (
      tool_manifest_sync_error (
        "PUT "
        <+> tools_path
        <+> " failed after "
        <+> py.to_text (int (pos (if leb 1 config.attempts then config.attempts else 1)))
        <+> " attempt(s): "
        <+> last))

  -- `sleep(delay)`, but after the last attempt
  abbrev pub again : ℕ → ℕ → Exec W ToolManifestSyncResult → Exec W ToolManifestSyncResult
  again left attempt rest = if nat_eq left 0 then rest else out.sleep (delay config attempt) >> rest

  -- the return of a result, or what follows a failed attempt
  abbrev pub decided :
      (String → Exec W ToolManifestSyncResult)
      → ToolManifestSyncResult ⊎ String
      → Exec W ToolManifestSyncResult
  decided go_on (inl result) = pure result
  decided go_on (inr reason) = go_on reason

  -- the attempts that are left, and the number of the next
  unfoldable pub attempt_put : ℕ → ℕ → String → Dict Value → Exec W ToolManifestSyncResult
  unfolding judge
  attempt_put zero attempt last document = give_up last
  attempt_put (suc left) attempt last document =
      out.put (client_of urls config) (request_of config document) >>= λ answer.
      decided
        (λ reason.
          again left attempt (attempt_put left (suc attempt) (scrub reason config.token) document))
        (judge document answer)

  -- `max(1, config.attempts)`
  abbrev pub attempts_of : ℕ
  attempts_of = if leb 1 config.attempts then config.attempts else 1

  abbrev pub sync_document : Bool → Dict Value → Exec W ToolManifestSyncResult
  sync_document expected document =
      if nat_eq (manifest_tool_count document) 0
      then (if expected
          then throw (
              tool_manifest_sync_error (
                "refusing to PUT an empty manifest to " <+> tools_path
                <+> ": it would unregister every tool"))
          else pure skipped_sync)
      else attempt_put attempts_of 1 "no attempt made" document

  unfoldable pub sync_tool_manifest :
      (String → Option Value) → Option Bool → Manifest → Exec W ToolManifestSyncResult
  unfolding attempt_put
  sync_tool_manifest loads expect_tools manifest = lift (document_of loads manifest) >>= λ document.
      sync_document (default config.expect_tools expect_tools) document

  abbrev pub as_mapping : Value → Manifest
  as_mapping (dict fs) = mapping (fields fs)
  as_mapping v = mapping []

  unfoldable pub sync_tool_specs :
      (String → Option Value) → Option Bool → List ToolSpec → Exec W ToolManifestSyncResult
  unfolding sync_tool_manifest
  sync_tool_specs loads expect_tools specs = lift (serialize_tool_specs specs) >>= λ wire.
      sync_tool_manifest loads expect_tools (as_mapping wire)

  unfoldable pub sync_manifest_path :
      (String → Option Value) → Option Bool → String → Exec W ToolManifestSyncResult
  unfolding sync_tool_specs
  sync_manifest_path loads expect_tools path = out.read path >>= λ document.
      lift (parse_manifest_v3 py document) >>= λ specs. sync_tool_specs loads expect_tools specs
