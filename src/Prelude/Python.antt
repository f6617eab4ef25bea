-- ===== src/Prelude/Python.antt =====
-- Parts of Python that the source calls on values of any kind, and that the model takes as given:
-- `str`, `int`, case mapping, regular expressions and dates in ISO format.
use Prim.Native.Nat.{ℕ}
use Prim.Native.Char.{code}
use Prim.Native.String.{String, [], ◌∷◌}
use mathlib.Core.Path.{◌≡◌}
use mathlib.Core.Logic.{◌≢◌}
use mathlib.Core.Bool.{Bool, true, ◌&&◌, ◌||◌}
use mathlib.Core.Option.{Option, some}
use agentware.Prelude.Tests.{leb, nat_eq}
use agentware.Prelude.Value.{ℤ, Value, int, str}
use agentware.Prelude.Exec.{Result, ok}

pub record Python : Type 0 where
  -- `str(v)`
  pub to_text : Value → String
  -- `int(v)`, which may raise
  pub to_int : Value → Result ℤ
  -- `s.lower()`
  pub lower : String → String
  -- `bool(re.match(pattern, s))`, or `none` for `re.error`
  pub re_match : String → String → Option Bool
  -- `datetime.fromisoformat`, or `none` for `ValueError`, and `isoformat`
  pub from_iso : String → Option ℕ
  pub iso : ℕ → String

-- ASCII lower-case letters and underscores
abbrev pub is_lower : String → Bool
is_lower [] = true
is_lower (c ∷ s) = ((leb b'a' (code c) && leb (code c) b'z') || nat_eq (code c) b'_') && is_lower s

-- What the documentation of these functions promises.
pub record IsPython (py : Python) : Type 0 where
  pub to_text-str : (s : String) → py.to_text (str s) ≡ s
  pub to_int-int : (z : ℤ) → py.to_int (int z) ≡ ok z
  pub from_iso-iso : (t : ℕ) → py.from_iso (py.iso t) ≡ some t
  pub iso-ne-nil : (t : ℕ) → py.iso t ≢ ""
  pub lower-lower : (s : String) → is_lower s ≡ true → py.lower s ≡ s
