-- ===== src/Tests/Bundles.antt =====
-- Policy bundles: a bundle with two rules, its life on disk, and a control plane out of reach.
use agentware.Prelude.{◌≡◌, refl, arith, none, some, [], ◌∷◌, true, ap, text_length, lookup, strip}
use agentware.Prelude.Value.{str, int, pos}
use agentware.Prelude.Exec.{ok, raise, other}
use agentware.Types.{allow, deny, filter}
use agentware.Bundle.{
  eq, Condition, Rule, PolicyBundleData, evaluate_bundle, is_expired, evaluate_rules, matches_tool,
  evaluate_conditions, evaluate_condition, get_value, compare_value,
}
use agentware.Bundle.Wire.{from_wire, to_dict}
use agentware.Bundle.Wire.RoundTrip.{IsBundle, from_wire-to_dict}
use agentware.Bundle.Lifecycle.{
  Environment, CacheFile, absent, unreadable, document, Lifecycle, Outside, new_lifecycle, start,
  refresh, evaluate, start_fetch, do_fetch, activate, load_bundle_from_disk, refresh_fetch,
}
use agentware.Bundle.Lifecycle.FailClosed.{
  start_op, refresh_op, run, step, Permitted, evaluate-Permitted,
}
use agentware.Bundle.Lifecycle.Refresh.{headless, evaluate_offline, start_from_cache}
use agentware.Tests.Fixtures.{plain_python, plain-IsPython, alice, file_args}

abbrev devs_only : Condition
devs_only = record { field = "caller.role"; operator = eq; value = "dev" }

abbrev read_rule : Rule
read_rule = record {
  name = str "readers";
  tools = str "cat" ∷ str "ls" ∷ [];
  action = allow;
  conditions = devs_only ∷ [];
  max_rate = some (record { count = 5; window = 60 });
  redact_fields = [];
}

abbrev hide_rule : Rule
hide_rule = record {
  name = str "hide";
  tools = str "*" ∷ [];
  action = filter;
  conditions = [];
  max_rate = none;
  redact_fields = str "path" ∷ [];
}

abbrev bundle : PolicyBundleData
bundle = record {
  rules = read_rule ∷ hide_rule ∷ [];
  version = str "v1";
  bundle_id = "b1";
  default_deny = true;
  expires_at = some 50;
  fetched_at = 3;
}

bundle-IsBundle : IsBundle bundle
bundle-IsBundle = record {
  versioned = refl;
  rules = (
    record {
      named = refl;
      fielded = (λ h. omega (arith, ap text_length h), tt);
      limit = (omega arith, omega arith, omega arith);
    },
    (record { named = refl; fielded = tt; limit = tt }, tt),
  );
}

from_wire-to_dict_example :
    from_wire plain_python 9 (to_dict plain_python bundle) ≡ ok (record bundle { fetched_at = 9 })
from_wire-to_dict_example = from_wire-to_dict plain-IsPython 9 bundle bundle-IsBundle

abbrev environment : Environment
environment = record {
  control_plane_url = some "https://control";
  abac_url = none;
  kei_api_url = none;
  runtime_token = some "t0";
}

abbrev fresh : CacheFile → Lifecycle
fresh cache = new_lifecycle none none environment cache

-- a control plane that cannot be reached, and one that answers with the bundle
abbrev unreachable : Outside
unreachable = record {
  monotonic = 40000;
  now = 9;
  fetched = raise (other "timed out");
  writable = true;
}

abbrev reachable : Outside
reachable = record {
  monotonic = 40000;
  now = 9;
  fetched = ok (to_dict plain_python bundle);
  writable = true;
}

abbrev started : Lifecycle
started = run plain_python (fresh absent) (start_op reachable ∷ refresh_op unreachable ∷ [])

started_allows : (evaluate plain_python started "cat" file_args alice 10).action ≡ allow
unfolding new_lifecycle run step start start_fetch do_fetch activate load_bundle_from_disk refresh
    refresh_fetch from_wire to_dict evaluate is_expired evaluate_bundle evaluate_rules matches_tool
    evaluate_conditions evaluate_condition get_value compare_value lookup strip
started_allows = refl

evaluate-Permitted_example : Permitted plain_python started "cat" file_args alice 10
evaluate-Permitted_example =
    evaluate-Permitted plain_python none none environment absent
      (start_op reachable ∷ refresh_op unreachable ∷ []) "cat" file_args alice 10
      (λ h. ground (arith, started_allows))

evaluate_offline_example :
    (evaluate plain_python
      (run plain_python (fresh unreadable) (start_op unreachable ∷ refresh_op unreachable ∷ []))
      "cat"
      file_args
      alice
      10).action
    ≡ deny
unfolding new_lifecycle
evaluate_offline_example =
    evaluate_offline plain_python (fresh unreadable)
      (start_op unreachable ∷ refresh_op unreachable ∷ []) "cat" file_args alice 10
      (record { managed = refl; bundle = refl; cache = tt })
      ((other "timed out", refl), ((other "timed out", refl), tt))

abbrev cached : Lifecycle
cached = fresh (document (to_dict plain_python bundle))

start_from_cache_example :
    start plain_python cached unreachable
    ≡ (ok tt, record cached { bundle = some (record bundle { fetched_at = 9 }); loaded = true })
unfolding new_lifecycle
start_from_cache_example =
    start_from_cache plain_python cached unreachable (other "timed out") bundle plain-IsPython
      bundle-IsBundle refl refl refl

abbrev spoiled : Lifecycle
spoiled = fresh (document (headless plain_python "v1" (int (pos 3)) []))
