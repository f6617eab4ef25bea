-- ===== src/Tests/Syncs.antt =====
-- A control plane that registers at the second attempt, one that never does, and one that is watched.
use agentware.Prelude.{
  ◌≡◌, refl, arith, String, true, false, Option, none, List, [], ◌∷◌, ◌++◌, Dict, lookup,
}
use agentware.Prelude.Value.{Value, str, array, object}
use agentware.Prelude.Exec.{ok, raise, tool_manifest_sync_error}
use agentware.Tests.Fixtures.{plain_python}
use agentware.ToolSync.{
  ToolManifestSyncConfig, mapping, Request, network_error, answered, Outside, Urls, registered,
}
use agentware.ToolSync.Attempts.{sync_tool_manifest}
use agentware.ToolSync.Attempts.Retry.{
  scripted, delays_from, sync_tool_manifest_registers, sync_tool_manifest_gives_up,
}

abbrev urls : Urls
urls = record { is_http = λ s. true; hostname = λ s. s; bypasses = λ h n. false }

abbrev config : ToolManifestSyncConfig
config = record {
  control_plane_url = "https://kei.example/";
  token = "t0";
  egress_proxy = "";
  no_proxy = "";
  attempts = 2;
  backoff = 1000;
  expect_tools = true;
}

abbrev one_tool : Dict Value
one_tool = ("tools", array (object (("name", str "search") ∷ []) ∷ [])) ∷ []

abbrev no_json : String → Option Value
no_json s = none

-- the requests that were sent, all of which succeed
abbrev watched : Outside (List Request)
watched = record {
  put = λ client req w. (ok (answered 200 "" none), w ++ req ∷ []);
  sleep = λ ms w. (ok tt, w);
  read = λ path w. (ok none, w);
}

sync_tool_manifest_registers_example :
    sync_tool_manifest plain_python urls scripted config no_json none
      (mapping one_tool)
      (network_error "ConnectError" ∷ answered 204 "" none ∷ [], [])
    ≡ (ok (registered one_tool none), ([], delays_from config 1 1))
unfolding lookup
sync_tool_manifest_registers_example =
    sync_tool_manifest_registers plain_python urls config one_tool no_json none (omega arith)
      (network_error "ConnectError" ∷ []) 204 "" none [] (tt, tt) refl (omega arith)

sync_tool_manifest_gives_up_example :
    (message : String) × (sync_tool_manifest plain_python urls scripted config no_json none
        (mapping one_tool)
        (network_error "ConnectError" ∷ answered 503 "busy" none ∷ [], [])
      ≡ (raise (tool_manifest_sync_error message), ([], delays_from config 1 1)))
unfolding lookup
sync_tool_manifest_gives_up_example =
    sync_tool_manifest_gives_up plain_python urls config one_tool no_json none (omega arith)
      (network_error "ConnectError" ∷ answered 503 "busy" none ∷ []) [] 1 (tt, (refl, tt)) refl refl
