-- ===== src/Bundle/Lifecycle.antt =====
-- `PolicyBundleLifecycle` of kei/policy_bundle.py, and the resolution of its credentials. What comes
-- from outside is an argument: the environment, the clocks, what the fetch function returns or
-- raises, and whether a write to disk succeeds. The cached file is part of the state.
pub mod FailClosed
pub mod Refresh
use agentware.Prelude.{
  ℕ, ◌+◌, ◌-◌, String, Bool, true, false, not, ◌||◌, Option, none, some, List, [], ◌∷◌, ltb,
  is_some, ◌==◌, if◌then◌else◌,
}
use agentware.Prelude.Value.{Value}
use agentware.Prelude.Python.{Python}
use agentware.Prelude.Exec.{
  Error, Result, ok, raise, bundle_fetch_error, bundle_parse_error, os_error,
}
use agentware.Types.{Action, allow, deny, Args, CallerContext, Decision, new_decision}
use agentware.Bundle.{PolicyBundleData, is_expired, evaluate_bundle}
use agentware.Bundle.Wire.{from_wire, to_dict}

-- `os.environ.get` of the four variables
pub record Environment : Type 0 where
  pub control_plane_url : Option String
  pub abac_url : Option String
  pub kei_api_url : Option String
  pub runtime_token : Option String

-- a text that is set and not empty
abbrev pub present : Option String → Option String
present none = none
present (some s) = if s == "" then none else some s

unfoldable pub resolve_control_plane_url : Environment → Result String
resolve_control_plane_url env = elim (present env.control_plane_url) [
  | some url ↦ ok url
  | none ↦ elim (present env.abac_url) [
    | some url ↦ ok url
    | none ↦ elim (present env.kei_api_url) [
      | some url ↦ ok url
      | none ↦ raise (bundle_fetch_error "Control-plane URL not configured.")
    ]
  ]
]

unfoldable pub resolve_runtime_token : Environment → Result String
resolve_runtime_token env = elim (present env.runtime_token) [
  | some token ↦ ok token
  | none ↦ raise (bundle_fetch_error "Runtime token not configured.")
]

-- The cached file: not there, not readable as JSON, or a document.
pub data CacheFile : Type 0 where
  absent unreadable : CacheFile
  document : Value → CacheFile

pub record Lifecycle : Type 0 where
  pub bundle : Option PolicyBundleData
  pub loaded : Bool
  pub last_refresh_attempt : ℕ
  pub local_only : Bool
  pub resolved_url : Option String
  pub resolved_token : Option String
  pub cache : CacheFile

-- `x = given or resolve()`, with a `BundleFetchError` passed over
abbrev pub resolved : Option String → Result String → Option String
resolved given found = elim (present given) [
  | some s ↦ some s
  | none ↦ elim found [ ok s ↦ some s | raise _ ↦ none ]
]

unfoldable pub new_lifecycle : Option String → Option String → Environment → CacheFile → Lifecycle
unfolding resolve_control_plane_url resolve_runtime_token
new_lifecycle url token env cache =
    let resolved_url = resolved url (resolve_control_plane_url env) in
    let resolved_token = resolved token (resolve_runtime_token env) in
    record {
      bundle = none;
      loaded = false;
      last_refresh_attempt = 0;
      local_only = not (is_some (present resolved_url)) || not (is_some (present resolved_token));
      resolved_url = resolved_url;
      resolved_token = resolved_token;
      cache = cache;
    }

-- in milliseconds of the monotonic clock
abbrev pub min_refresh_interval : ℕ
min_refresh_interval = 30000

-- What one `start` or `refresh` meets outside: the time, the answer of the fetch function, and
-- whether the disk takes the write.
pub record Outside : Type 0 where
  pub monotonic : ℕ
  pub now : ℕ
  pub fetched : Result Value
  pub writable : Bool

abbrev pub is_bundle_error : Error → Bool
is_bundle_error (bundle_fetch_error _) = true
is_bundle_error (bundle_parse_error _) = true
is_bundle_error _ = false

module _ (py : Python) where
  -- a `BundleParseError` is logged; any other exception of the parser is passed on
  unfoldable pub load_bundle_from_disk : ℕ → CacheFile → Result (Option PolicyBundleData)
  load_bundle_from_disk now absent = ok none
  load_bundle_from_disk now unreadable = ok none
  load_bundle_from_disk now (document v) = elim (from_wire py now v) [
    | ok b ↦ ok (some b)
    | raise (bundle_parse_error _) ↦ ok none
    | raise e ↦ raise e
  ]

  unfoldable pub do_fetch : Lifecycle → Outside → Result PolicyBundleData
  do_fetch s o =
      if not (is_some (present s.resolved_url)) || not (is_some (present s.resolved_token))
      then raise (bundle_fetch_error "Control-plane credentials not resolved")
      else elim o.fetched [
        | raise _ ↦ raise (bundle_fetch_error "Fetch failed")
        | ok raw ↦ from_wire py o.now raw
      ]

  -- The bundle is in force before it is written to disk.
  unfoldable pub activate : Lifecycle → Outside → PolicyBundleData → Result (Unit {0}) × Lifecycle
  activate s o b =
      if o.writable
      then (ok tt, record s { bundle = some b; loaded = true; cache = document (to_dict py b) })
      else (raise (os_error "write failed"), record s { bundle = some b; loaded = true })

  -- the `try` statement of `start`
  unfoldable pub start_fetch : Lifecycle → Outside → Result (Unit {0}) × Lifecycle
  unfolding do_fetch activate
  start_fetch s o = elim (do_fetch s o) [
    | ok b ↦ activate s o b
    | raise e ↦
        if is_bundle_error e
        then (if is_some s.bundle then (ok tt, record s { loaded = true }) else (ok tt, s))
        else (raise e, s)
  ]

  unfoldable pub start : Lifecycle → Outside → Result (Unit {0}) × Lifecycle
  unfolding load_bundle_from_disk start_fetch
  start s o =
      if s.local_only
      then (ok tt, record s { loaded = true })
      else elim (load_bundle_from_disk o.now s.cache) [
        | raise e ↦ (raise e, s)
        | ok none ↦ start_fetch s o
        | ok (some cached) ↦ start_fetch (record s { bundle = some cached }) o
      ]

  abbrev returned : PolicyBundleData → Result (Unit {0}) → Result (Option PolicyBundleData)
  returned b (ok _) = ok (some b)
  returned b (raise e) = raise e

  -- the `try` statement of `refresh`
  unfoldable pub refresh_fetch : Lifecycle → Outside → Result (Option PolicyBundleData) × Lifecycle
  unfolding do_fetch activate
  refresh_fetch s o = elim (do_fetch s o) [
    | ok b ↦ let (done, s') = activate s o b in (returned b done, s')
    | raise e ↦ if is_bundle_error e then (ok none, s) else (raise e, s)
  ]

  unfoldable pub refresh : Lifecycle → Outside → Result (Option PolicyBundleData) × Lifecycle
  unfolding refresh_fetch
  refresh s o =
      if s.local_only
      then (ok none, s)
      else if ltb (o.monotonic - s.last_refresh_attempt) min_refresh_interval
      then (ok s.bundle, s)
      else refresh_fetch (record s { last_refresh_attempt = o.monotonic }) o

  abbrev pub local_decision : ℕ → Decision
  local_decision now =
      new_decision allow "local-only" "local-only mode (no control plane configured)" now

  abbrev pub no_bundle_decision : ℕ → Decision
  no_bundle_decision now =
      new_decision deny "no-bundle"
        "no policy bundle loaded; all tool calls denied until a valid bundle is fetched" now

  -- The message of an expired bundle also names its version and date.
  abbrev pub expired_decision : ℕ → Decision
  expired_decision now = new_decision deny "expired-bundle" "policy bundle expired" now

  abbrev evaluate_with :
      Lifecycle → Option PolicyBundleData → Bool → String → Args → CallerContext → ℕ → Decision
  evaluate_with s (some b) true tool args caller now =
      if is_expired b now then expired_decision now else evaluate_bundle py b tool args caller now
  evaluate_with s _ _ tool args caller now =
      if s.local_only then local_decision now else no_bundle_decision now

  unfoldable pub evaluate : Lifecycle → String → Args → CallerContext → ℕ → Decision
  unfolding is_expired
  evaluate s tool args caller now = evaluate_with s s.bundle s.loaded tool args caller now
