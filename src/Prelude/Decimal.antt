-- ===== src/Prelude/Decimal.antt =====
-- `f"{n:04d}"`: decimal digits, and zeros before them.
use Prim.Native.Nat.{ℕ, zero, suc, ◌+◌, ◌-◌, ◌*◌, ◌/◌, ◌%◌, ◌≤◌, ◌<◌, Ordering, compare}
use Prim.Native.Char.{Char, char, IsScalar, code}
use Prim.Native.String.{String, [], ◌∷◌}
use mathlib.Core.Path.{◌≡◌, refl, sym, ap, ◌∙◌}
use mathlib.Core.Bool.{Bool, true, false}
use native.Mathlib.Omega.{arith}
use text.Mathlib.TextLemmas.{cons-append, nil-append}
use agentware.Prelude.Tests.{nat_eq}
use agentware.Prelude.Texts.{text_length, ◌<+>◌}

IsScalar-small : (n : ℕ) → n < 55296 → IsScalar n
IsScalar-small n h = let e : compare n 55296 ≡ Ordering.lt = ground arith in rw e tt

-- the last digit
digit : ℕ → Char
unfolding IsScalar-small
digit n = char (48 + n % 10) (IsScalar-small (48 + n % 10) (omega arith))

-- The digits of `n` before `out`. Fuel `n` is enough, since `n / 10` is below a positive `n`.
emit : (fuel n : ℕ) → String → String
emit zero n out = out
emit (suc fuel) n out = elim (nat_eq n 0) [
  | true ↦ out
  | false ↦ emit fuel (n / 10) (digit n ∷ out)
]

unfoldable pub decimal : ℕ → String
unfolding emit digit
decimal n = elim (nat_eq n 0) [ true ↦ "0" | false ↦ emit n n "" ]

abbrev zeros : ℕ → String → String
zeros zero s = s
zeros (suc n) s = "0" ∷ zeros n s

-- zeros up to a width
abbrev pub pad_zeros : ℕ → String → String
pad_zeros width s = zeros (width - text_length s) s

-- the number that digits spell behind `n`
abbrev value : ℕ → String → ℕ
value n [] = n
value n (c ∷ s) = value (n * 10 + (code c - 48)) s

value-emit : (fuel n : ℕ) (out : String) → n ≤ fuel → value 0 (emit fuel n out) ≡ value n out
unfolding emit digit
value-emit zero n out h = let e : n ≡ 0 = omega (arith, h) in rw e refl
value-emit (suc fuel) n out h = go (nat_eq n 0) refl (value-emit fuel (n / 10) (digit n ∷ out))
  where
    go :
        (b : Bool)
        → nat_eq n 0 ≡ b
        → (n / 10 ≤ fuel
            → value 0 (emit fuel (n / 10) (digit n ∷ out)) ≡ value (n / 10) (digit n ∷ out))
        → value 0
            (elim b as (λ _. String) [ true ↦ out | false ↦ emit fuel (n / 10) (digit n ∷ out) ])
          ≡ value n out
    go true e again = let z : n ≡ 0 = ground arith in rw z refl
    go false e again =
        let last : n / 10 * 10 + (code (digit n) - 48) ≡ n = omega arith in
        again (ground arith) ∙ ap (λ k. value k out) last

value-decimal : (n : ℕ) → value 0 (decimal n) ≡ n
unfolding decimal
value-decimal n = go (nat_eq n 0) refl
  where
    go :
        (b : Bool)
        → nat_eq n 0 ≡ b
        → value 0 (elim b as (λ _. String) [ true ↦ "0" | false ↦ emit n n "" ]) ≡ n
    go true e = ground arith
    go false e = value-emit n n "" (omega arith)

value-zeros : (k : ℕ) (s : String) → value 0 (zeros k s) ≡ value 0 s
value-zeros zero s = refl
value-zeros (suc k) s = value-zeros k s

-- A number is read back from its padded digits.
pub pad_zeros_injective :
    (width n k : ℕ) → pad_zeros width (decimal n) ≡ pad_zeros width (decimal k) → n ≡ k
pad_zeros_injective width n k h =
    sym (value-decimal n)
    ∙ sym (value-zeros (width - text_length (decimal n)) (decimal n))
    ∙ ap (value 0) h
    ∙ value-zeros (width - text_length (decimal k)) (decimal k)
    ∙ value-decimal k

-- A text of digits only.
abbrev pub IsDigits : String → Type 0
IsDigits [] = Unit
IsDigits (c ∷ s) = (48 ≤ code c) × (code c ≤ 57) × IsDigits s

abbrev after_dash : String → String
after_dash [] = []
after_dash (c ∷ s) = elim (nat_eq (code c) 45) [ true ↦ s | false ↦ after_dash s ]

-- What stands behind the dash that ends a text of digits.
after_dash-append : (t s : String) → IsDigits t → after_dash (t <+> "-" <+> s) ≡ s
after_dash-append [] s h = rw (nil-append ("-" <+> s), cons-append "-" [] s, nil-append s) refl
after_dash-append (c ∷ t) s (lo, hi, h) =
    ap after_dash (cons-append c t ("-" <+> s))
    ∙ go (nat_eq (code c) 45) refl (after_dash-append t s h)
  where
    rest : String
    rest = t <+> "-" <+> s

    go :
        (b : Bool)
        → nat_eq (code c) 45 ≡ b
        → after_dash rest ≡ s
        → elim b as (λ _. String) [ true ↦ rest | false ↦ after_dash rest ] ≡ s
    go true e behind = absurd (ground arith)
    go false e behind = behind

-- Texts of digits that stand before a dash do not change what stands behind it.
pub dash_injective :
    (t u s r : String) → IsDigits t → IsDigits u → t <+> "-" <+> s ≡ u <+> "-" <+> r → s ≡ r
dash_injective t u s r h k e =
    sym (after_dash-append t s h) ∙ ap after_dash e ∙ after_dash-append u r k
