-- ===== src/RuntimeLink/Config.antt =====
-- kei/runtime_link.py: `RuntimeLinkConfig`, `normalize_config` and `Backoff.delay_ms`. Durations are
-- whole milliseconds, not negative. Patterns and URLs are given from outside.
pub mod Normal
use Prim.Native.Char.{code}
use agentware.Prelude.{
  ℕ, zero, suc, ◌*◌, ◌^◌, String, Bool, true, false, not, ◌&&◌, ◌||◌, List, [], ◌∷◌, elem, ltb, leb,
  nat_eq, ◌==◌, if◌then◌else◌, ◌<+>◌,
}
use agentware.Prelude.Checks.{Check, ◌>>◌, ◌>>=◌, require}
use agentware.Prelude.Exec.{Result, ok, Error, value_error}

pub record Backoff : Type 0 where
  pub min : ℕ
  pub max : ℕ
  pub stable_reset : ℕ

-- the binary, the name of the token's variable, and the declared harness, flat
pub record RuntimeLinkConfig : Type 0 where
  pub enabled : Bool
  pub binary_path : String
  pub binary_sha256 : String
  pub control_plane_url : String
  pub token_env : String
  pub interval : ℕ
  pub beat_timeout : ℕ
  pub grace : ℕ
  pub restart : Backoff
  pub stop_timeout : ℕ
  pub log_count : ℕ
  pub harness_kind : String
  pub harness_version : String
  pub deployment_env : String

-- The matches of three patterns, and what `_validate_control_plane_url` finds in a URL: an http or
-- https scheme, a host, and no user.
pub record Matches : Type 0 where
  pub version : String → Bool
  pub env_name : String → Bool
  pub sha256 : String → Bool
  pub url : String → Bool

abbrev pub harness_kinds : List String
harness_kinds = "assistant" ∷ "pde" ∷ "chat-discord" ∷ "chat-slack" ∷ "chat-teams" ∷ "cli" ∷ []

abbrev pub config_error : String → String → Error
config_error name field_name =
    value_error ("runtime_link: invalid config: " <+> field_name <+> ": " <+> name)

abbrev pub min_of : ℕ → ℕ → ℕ
min_of a b = if leb a b then a else b

abbrev pub max_of : ℕ → ℕ → ℕ
max_of a b = if leb a b then b else a

-- `min(max(interval, MIN_INTERVAL), MAX_INTERVAL)`
abbrev pub clamp_interval : ℕ → ℕ
clamp_interval interval = min_of (max_of interval 15000) 300000

-- `"\x00" in s`
abbrev pub has_nul : String → Bool
has_nul String.[] = false
has_nul (String.◌∷◌ c s) = nat_eq (code c) 0 || has_nul s

abbrev pub between : ℕ → ℕ → ℕ → Bool
between lo hi n = leb lo n && leb n hi

abbrev pub blank_or : String → Bool → Bool
blank_or s b = s == "" || b

unfoldable pub check_enabled : Matches → RuntimeLinkConfig → Check
check_enabled m cfg =
    require (cfg.token_env == "KEI_RUNTIME_TOKEN") (config_error "invalid_value" "token")
    >> require (m.url cfg.control_plane_url) (config_error "control_plane_url" "control_plane_url")
    >> require (not (cfg.binary_path == "") && not (has_nul cfg.binary_path))
        (config_error "binary" "binary.path")
    >> require (not (cfg.binary_sha256 == "" && cfg.deployment_env == "prod"))
        (config_error "binary" "binary.sha256")

unfoldable pub check_declared : Matches → RuntimeLinkConfig → Check
check_declared m cfg =
    require
      (blank_or cfg.harness_kind (elem cfg.harness_kind harness_kinds)
        && not (cfg.enabled && cfg.harness_kind == ""))
      (config_error "harness_kind" "harness.kind")
    >> require (blank_or cfg.harness_version (m.version cfg.harness_version))
        (config_error "envelope" "harness.version")
    >> require (blank_or cfg.deployment_env (m.env_name cfg.deployment_env))
        (config_error "envelope" "harness.deployment_env")

unfoldable pub check_binary : Matches → RuntimeLinkConfig → Check
check_binary m cfg =
    require (blank_or cfg.binary_sha256 (m.sha256 cfg.binary_sha256))
      (config_error "binary" "binary.sha256")

-- the durations, against an interval
unfoldable pub check_durations : ℕ → RuntimeLinkConfig → Check
check_durations interval cfg =
    require (not (leb cfg.beat_timeout 0 || leb interval (2 * cfg.beat_timeout)))
      (config_error "beat_timeout" "beat_timeout")
    >> require (leb cfg.grace 300000) (config_error "out_of_range" "grace")
    >> require
        (not (
          ltb cfg.restart.min 1000
          || ltb 3600000 cfg.restart.max
          || ltb cfg.restart.max cfg.restart.min))
        (config_error "out_of_range" "restart")
    >> require (between 1000 3600000 cfg.restart.stable_reset)
        (config_error "out_of_range" "restart.stable_reset")
    >> require (between 1000 60000 cfg.stop_timeout) (config_error "out_of_range" "stop_timeout")
    >> require (leb cfg.log_count 100) (config_error "out_of_range" "log_count")

unfoldable pub normalize_config : Matches → RuntimeLinkConfig → Result RuntimeLinkConfig
normalize_config m cfg =
    let interval = clamp_interval cfg.interval in
    check_declared m cfg
    >> (if cfg.enabled then check_enabled m cfg else ok tt)
    >> check_binary m cfg
    >> check_durations interval cfg
    >> ok (record cfg { interval = interval })

-- the cap of an attempt, `min(max, min << attempt)`
abbrev pub cap_ms : Backoff → ℕ → ℕ
cap_ms b attempt = min_of b.max (b.min * 2 ^ min_of attempt 30)

-- `floor(r * cap)` is given from outside, for the clamped `r`.
unfoldable pub delay_ms : (ℕ → ℕ) → Backoff → ℕ → ℕ
delay_ms floor_times b attempt = floor_times (cap_ms b attempt)
