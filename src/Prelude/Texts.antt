-- ===== src/Prelude/Texts.antt =====
-- Text operations that the source uses: concatenation, prefixes, substrings, trimming.
use Prim.Native.Nat.{ℕ, zero, suc, ◌≤◌}
use Prim.Native.Char.{Char, code}
use Prim.Native.String
use Prim.Native.String.{String, [], ◌∷◌}
use mathlib.Core.Bool.{Bool, true, false, ◌&&◌, ◌||◌}
use mathlib.Core.Option.{Option, none, some}
use mathlib.Core.List.{List, [], ◌∷◌}
use native.Mathlib.Omega.{arith}
use agentware.Prelude.Tests.{nat_eq, leb, if◌then◌else◌}

-- `s + t`, and the parts of an f-string
infixr 64 ◌<+>◌
abbrev pub ◌<+>◌ : String → String → String
s <+> t = String.◌++◌ s t

-- `sep.join(parts)`
abbrev pub join : String → List String → String
join sep [] = ""
join sep (p ∷ []) = p
join sep (p ∷ q ∷ ps) = p <+> sep <+> join sep (q ∷ ps)

-- `s.startswith(p)` with `s[len(p):]`
abbrev pub strip_prefix? : String → String → Option String
strip_prefix? [] s = some s
strip_prefix? (c ∷ p) [] = none
strip_prefix? (c ∷ p) (d ∷ s) =
    let rest = strip_prefix? p s in if nat_eq (code c) (code d) then rest else none

abbrev pub is_prefix : String → String → Bool
is_prefix p s = elim (strip_prefix? p s) [ none ↦ false | some _ ↦ true ]

-- `t in s`
abbrev pub contains : String → String → Bool
contains t [] = is_prefix t []
contains t (c ∷ s) = is_prefix t (c ∷ s) || contains t s

-- the characters that `str.strip` removes
abbrev pub is_space : ℕ → Bool
is_space c =
    (leb 9 c && leb c 13)
    || (leb 28 c && leb c 32)
    || nat_eq c 0x85
    || nat_eq c 0xa0
    || nat_eq c 0x1680
    || (leb 0x2000 c && leb c 0x200a)
    || nat_eq c 0x2028
    || nat_eq c 0x2029
    || nat_eq c 0x202f
    || nat_eq c 0x205f
    || nat_eq c 0x3000

pub strip_left : String → String
strip_left [] = []
strip_left (c ∷ s) = let rest = strip_left s in if is_space (code c) then rest else c ∷ s

pub strip_right : String → String
strip_right [] = []
strip_right (c ∷ s) = cut c (strip_right s)
  where
    cut : Char → String → String
    cut c [] = if is_space (code c) then [] else c ∷ []
    cut c (d ∷ r) = c ∷ d ∷ r

unfoldable pub strip : String → String
unfolding strip_left strip_right
strip s = strip_right (strip_left s)

-- `len(s)` and `s[:n]`, in code points
abbrev pub text_length : String → ℕ
text_length [] = 0
text_length (c ∷ s) = suc (text_length s)

abbrev pub text_take : ℕ → String → String
text_take zero s = []
text_take (suc n) [] = []
text_take (suc n) (c ∷ s) = c ∷ text_take n s

pub text_length-take-le : (n : ℕ) (s : String) → text_length (text_take n s) ≤ text_length s
text_length-take-le zero s = omega arith
text_length-take-le (suc n) [] = omega arith
text_length-take-le (suc n) (c ∷ s) = omega (arith, text_length-take-le n s)
