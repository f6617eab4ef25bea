-- ===== src/Tests/Links.antt =====
-- A configuration, a line and a run of the supervisor of a runtime child.
use agentware.Prelude.{ℕ, ◌≤◌, ◌≡◌, refl, none, some, [], ◌∷◌, true}
use agentware.Prelude.Value.{pos, int, str, object}
use agentware.Prelude.Exec.{ok}
use agentware.Prelude.Triple.{Outcome}
use agentware.RuntimeLink.{starting, link_started}
use agentware.RuntimeLink.Config.{
  RuntimeLinkConfig, Matches, normalize_config, check_declared, check_enabled, check_binary,
  check_durations, delay_ms,
}
use agentware.RuntimeLink.Config.Normal.{IsNormal, normalize_config-IsNormal}
use agentware.RuntimeLink.Lines.{Patterns, parse_child_line_counted}
use agentware.RuntimeLink.Lines.Valid.{IsValid, parse_child_line_counted-IsValid}
use agentware.RuntimeLink.Machine.{
  Link, new_link, transition, begin_round, emit_lifecycle_event, handle_child_exit,
}
use agentware.RuntimeLink.Machine.Supervisor.{
  Supervisor, after, start, back_off, begin, spawned, exited, Reached, new, more,
}
use agentware.RuntimeLink.Machine.Invariant.{IsConsistent, Reached-IsConsistent}

abbrev matches : Matches
matches = record { version = λ s. true; env_name = λ s. true; sha256 = λ s. true; url = λ s. true }

abbrev quick : RuntimeLinkConfig
quick = record {
  enabled = true;
  binary_path = "kei-proxy";
  binary_sha256 = "";
  control_plane_url = "https://kei.example";
  token_env = "KEI_RUNTIME_TOKEN";
  interval = 1000;
  beat_timeout = 5000;
  grace = 15000;
  restart = record { min = 1000; max = 300000; stable_reset = 300000 };
  stop_timeout = 10000;
  log_count = 3;
  harness_kind = "cli";
  harness_version = "";
  deployment_env = "dev";
}

abbrev slow : RuntimeLinkConfig
slow = record quick { interval = 15000 }

normalize_config-IsNormal_example :
    IsNormal slow
    × (normalize_config matches slow ≡ ok slow)
    × ((floor_times : ℕ → ℕ) (attempt : ℕ)
        → ((cap : ℕ) → floor_times cap ≤ cap)
        → delay_ms floor_times slow.restart attempt ≤ 3600000)
unfolding normalize_config check_declared check_enabled check_binary check_durations
normalize_config-IsNormal_example = normalize_config-IsNormal matches quick slow refl

abbrev patterns : Patterns
patterns = record {
  ident = λ s. true;
  timestamp = λ s. true;
  reason = λ s. true;
  loads = λ s. some (
      object (
        ("v", int (pos 1))
        ∷ ("event", str "beat")
        ∷ ("run_id", str "r1")
        ∷ ("at", str "2026-01-01T00:00:00Z")
        ∷ ("outcome", str "ok")
        ∷ []));
}

parse_child_line_counted-IsValid_example :
    Outcome (IsValid patterns) (Unit {0}) (parse_child_line_counted patterns "{}\n")
parse_child_line_counted-IsValid_example = parse_child_line_counted-IsValid patterns "{}\n"

abbrev spawning_link : Link
spawning_link = transition 5 starting none (begin_round 5 new_link)

-- a child that was spawned and then exited with code 3
abbrev ended : Supervisor
ended =
    after
      (handle_child_exit 9 (some 3) (emit_lifecycle_event 6 link_started starting spawning_link))

ended-Reached : Reached true ended
ended-Reached =
    more _ _
      (more _ _
        (more _ _ (more _ _ (more _ _ new (start new_link refl)) (back_off new_link 5))
          (begin (begin_round 5 new_link) 5))
        (spawned spawning_link 6))
      (exited (emit_lifecycle_event 6 link_started starting spawning_link) 9 (some 3))

Reached-IsConsistent_example : IsConsistent ended
Reached-IsConsistent_example = Reached-IsConsistent true ended ended-Reached
