-- ===== src/ToolSync.antt =====
-- kei/tool_sync.py: the configuration of a sync, its client, its documents and its requests. httpx,
-- URLs, the bypass of a proxy, `json.loads` and the reading of a file are given from outside; a delay
-- is a number of milliseconds, and `attempts` is not negative. The log and the transport that tests
-- put in are left out.
pub mod Attempts
use Prim.Native.Char.{code}
use agentware.Prelude.{
  ◌⊎◌, inl, inr, ℕ, zero, suc, ◌-◌, ◌*◌, ◌^◌, String, Bool, true, false, not, ◌&&◌, Option, none,
  some, List, [], ◌∷◌, Dict, lookup, default, length, nat_eq, ltb, leb, is_prefix, text_length,
  text_take, strip, ◌<+>◌, ◌==◌, if◌then◌else◌,
}
use agentware.Prelude.Value.{Value, int, pos, list, dict, items, fields}
use agentware.Prelude.Python.{Python}
use agentware.Prelude.Exec.{
  Exec, Result, ok, raise, tool_manifest_sync_error, throw, lift, pure, ◌>>=◌, ◌>>◌,
}
use agentware.ToolSpec.{ToolSpec, serialize_tool_specs}
use agentware.ToolSpec.Manifest.{parse_manifest_v3}

abbrev pub tools_path : String
tools_path = "/api/v1/runtime/tools"

abbrev pub media_type : String
media_type = "application/vnd.kei.tool-manifest.v3+json"

abbrev pub max_backoff : ℕ
max_backoff = 16000

abbrev pub error_body_limit : ℕ
error_body_limit = 300

pub record ToolManifestSyncConfig : Type 0 where
  pub control_plane_url : String
  pub token : String
  pub egress_proxy : String
  pub no_proxy : String
  pub attempts : ℕ
  pub backoff : ℕ
  pub expect_tools : Bool

pub record ToolManifestSyncResult : Type 0 where
  pub sent : Bool
  pub tool_count : ℕ
  pub counts : Dict Value

-- JSON text, or a mapping
pub data Manifest : Type 0 where
  text : String → Manifest
  mapping : Dict Value → Manifest

-- how the client is set up: its proxy, and whether it reads the environment's own proxy settings
pub record Client : Type 0 where
  pub proxy : Option String
  pub trust_env : Bool

pub record Request : Type 0 where
  pub url : String
  pub content : Dict Value
  pub headers : Dict String

-- What httpx makes of a request: an `HTTPError` with the name of its class, or a response with its
-- status, its text and its JSON, if it has one.
pub data Answer : Type 0 where
  network_error : String → Answer
  answered : (status_code : ℕ) (text : String) (json : Option Value) → Answer

-- Calls that leave the code. `read` gives the JSON of a file, `none` where it is no JSON.
pub record Outside {ℓ} (W : Type ℓ) : Type ℓ where
  pub put : Client → Request → Exec W Answer
  pub sleep : ℕ → Exec W (Unit {0})
  pub read : String → Exec W (Option Value)

pub record Urls : Type 0 where
  -- `urlsplit(url).scheme in ("https", "http") and urlsplit(url).netloc`
  pub is_http : String → Bool
  -- `urlsplit(url).hostname or ""`
  pub hostname : String → String
  -- `proxy_bypass_environment(host, {"no": no_proxy})`
  pub bypasses : String → String → Bool

-- `env.get(name, "").strip()`
abbrev pub variable : String → Dict String → String
variable name env = strip (default "" (lookup name env))

unfoldable pub from_env : Urls → Dict String → Result ToolManifestSyncConfig
from_env urls env =
    let url = variable "KEI_RUNTIME_CONTROL_PLANE_URL" env in
    let token = variable "KEI_RUNTIME_TOKEN" env in
    if url == ""
    then raise (tool_manifest_sync_error "KEI_RUNTIME_CONTROL_PLANE_URL is not set")
    else if token == ""
    then raise (tool_manifest_sync_error "KEI_RUNTIME_TOKEN is not set")
    else if not (urls.is_http url)
    then raise (tool_manifest_sync_error "KEI_RUNTIME_CONTROL_PLANE_URL is not an http(s) URL")
    else ok (record {
      control_plane_url = url;
      token = token;
      egress_proxy = variable "KEI_PROXY_EGRESS_PROXY" env;
      no_proxy = variable "KEI_PROXY_NO_PROXY" env;
      attempts = 5;
      backoff = 1000;
      expect_tools = true;
    })

-- `s.rstrip("/")`
abbrev pub rstrip_slash : String → String
rstrip_slash String.[] = ""
rstrip_slash (String.◌∷◌ c s) =
    let rest = rstrip_slash s in
    if nat_eq (code c) b'/' && rest == "" then "" else String.◌∷◌ c rest

abbrev pub tools_url : ToolManifestSyncConfig → String
tools_url config = rstrip_slash config.control_plane_url <+> tools_path

abbrev pub proxy : Urls → ToolManifestSyncConfig → Option String
proxy urls config =
    if config.egress_proxy == ""
    then none
    else if not (config.no_proxy == "")
        && urls.bypasses (urls.hostname config.control_plane_url) config.no_proxy
    then none
    else some config.egress_proxy

abbrev pub client_of : Urls → ToolManifestSyncConfig → Client
client_of urls config =
    if config.egress_proxy == ""
    then record { proxy = none; trust_env = true }
    else record { proxy = proxy urls config; trust_env = false }

abbrev pub tools_length : Option Value → ℕ
tools_length (some (list vs)) = length (items vs)
tools_length _ = 0

-- `manifest_tool_count` of a document
abbrev pub manifest_tool_count : Dict Value → ℕ
manifest_tool_count document = tools_length (lookup "tools" document)

abbrev pub parsed_document : Option Value → Result (Dict Value)
parsed_document none = raise (tool_manifest_sync_error "the tool manifest is not JSON")
parsed_document (some (dict fs)) = ok (fields fs)
parsed_document (some _) = raise (tool_manifest_sync_error "the tool manifest is not a JSON object")

abbrev pub document_of : (String → Option Value) → Manifest → Result (Dict Value)
document_of loads (text s) = parsed_document (loads s)
document_of loads (mapping document) = ok document

-- `_counts`
abbrev pub counts_of : Option Value → Dict Value
counts_of (some (dict fs)) = fields fs
counts_of _ = []

-- `s.replace(old, new)` for an `old` that is not empty; so many characters are part of the last match
unfoldable pub replace_from : ℕ → String → String → String → String
replace_from skip old new String.[] = ""
replace_from (suc skip) old new (String.◌∷◌ c s) = replace_from skip old new s
replace_from zero old new (String.◌∷◌ c s) =
    let matched = replace_from (text_length old - 1) old new s in
    let rest = replace_from 0 old new s in
    if is_prefix old (String.◌∷◌ c s) then new <+> matched else String.◌∷◌ c rest

abbrev pub scrub : String → String → String
scrub s token = if token == "" then s else replace_from 0 token "[redacted]" s

abbrev pub is_success : ℕ → Bool
is_success status = leb 200 status && ltb status 300

abbrev pub request_of : ToolManifestSyncConfig → Dict Value → Request
request_of config document = record {
  url = tools_url config;
  content = document;
  headers =
      ("Authorization", "Bearer " <+> config.token)
      ∷ ("Content-Type", media_type)
      ∷ ("Accept", media_type)
      ∷ [];
}

-- the delay after an attempt
abbrev pub delay : ToolManifestSyncConfig → ℕ → ℕ
delay config attempt =
    let grown = config.backoff * 2 ^ (attempt - 1) in
    if leb grown max_backoff then grown else max_backoff

abbrev pub registered : Dict Value → Option Value → ToolManifestSyncResult
registered document json = record {
  sent = true;
  tool_count = manifest_tool_count document;
  counts = counts_of json;
}

abbrev pub skipped_sync : ToolManifestSyncResult
skipped_sync = record { sent = false; tool_count = 0; counts = [] }
