-- ===== src/Tests/Fixtures.antt =====
-- A Python whose laws hold, and inputs that several tests share.
use agentware.Prelude.{
  ℕ, zero, suc, String, ◌≡◌, ◌≢◌, refl, ap, Option, none, some, [], ◌∷◌, true, false, text_length,
  arith,
}
use agentware.Prelude.Value.{Value, null, bool, int, float, str, ℤ}
use agentware.Prelude.Python.{Python, IsPython}
use agentware.Prelude.Exec.{Result, ok, raise, value_error}
use agentware.Types.{Args, CallerContext, Overrides}

abbrev text_of : Value → String
text_of null = "None"
text_of (bool true) = "True"
text_of (bool false) = "False"
text_of (float r) = r
text_of (str s) = s
text_of _ = "..."

abbrev int_of : Value → Result ℤ
int_of (int z) = ok z
int_of _ = raise (value_error "invalid literal")

-- dates as tallies
abbrev tally : ℕ → String
tally zero = "|"
tally (suc n) = String.◌∷◌ "|" (tally n)

abbrev count_tally : String → Option ℕ
count_tally String.[] = none
count_tally (String.◌∷◌ c s) = some (text_length s)

abbrev pub plain_python : Python
plain_python = record {
  to_text = text_of;
  to_int = int_of;
  lower = λ s. s;
  re_match = λ pattern s. none;
  from_iso = count_tally;
  iso = tally;
}

text_length-tally : (n : ℕ) → text_length (tally n) ≡ suc n
text_length-tally zero = refl
text_length-tally (suc n) = ap suc (text_length-tally n)

count_tally-tally : (n : ℕ) → count_tally (tally n) ≡ some n
count_tally-tally zero = refl
count_tally-tally (suc n) = ap some (text_length-tally n)

tally-ne-nil : (n : ℕ) → tally n ≢ ""
tally-ne-nil n h = ground (arith, count_tally-tally n, ap count_tally h)

pub plain-IsPython : IsPython plain_python
plain-IsPython = record {
  to_text-str = λ s. refl;
  to_int-int = λ z. refl;
  from_iso-iso = count_tally-tally;
  iso-ne-nil = tally-ne-nil;
  lower-lower = λ s h. refl;
}

abbrev pub alice : CallerContext
alice = record {
  user_id = "alice";
  session_id = "s1";
  role = "dev";
  source = "cli";
  trusted = true;
  metadata = [];
  invoking_subject = "alice@corp";
  parent_span = "p0";
  delegation_depth = 0;
  span_id = "a1";
  agent_version = "1";
  framework = "";
  workspace_id = "w";
}

abbrev pub no_overrides : Overrides
no_overrides = record {
  user_id = none;
  session_id = none;
  role = none;
  source = none;
  trusted = none;
  metadata = none;
  invoking_subject = some "mallory";
  parent_span = none;
  delegation_depth = none;
  span_id = none;
  agent_version = none;
  framework = none;
  workspace_id = none;
}

abbrev pub file_args : Args
file_args = ("path", str "/etc/passwd") ∷ []
