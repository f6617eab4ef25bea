-- ===== src/Guardrails/Validator/Scanner.antt =====
-- The scan for brace-delimited candidates in a text.
use Prim.Native.Char.{Char}
use agentware.Prelude.{
  ℕ, zero, suc, ◌+◌, ◌-◌, ◌≤◌, ◌≡◌, refl, ap, true, false, Option, some, List, [], ◌∷◌, ◌++◌, All,
  sym, ◌∙◌, length, length-append, nat_eq, arith,
}
use mathlib.Core.List.{append_assoc}
use agentware.Guardrails.Validator.{is_open, is_close, with_char, close, candidates}

-- Texts in which braces match: every brace that is opened is closed, and none is closed before.
pub data Balanced : List Char → Type 0 where
  nothing : Balanced []
  plain :
      (c : Char) {s : List Char}
      → is_open c ≡ false
      → is_close c ≡ false
      → Balanced s
      → Balanced (c ∷ s)
  braces :
      (o c : Char) (s t : List Char) {u : List Char}
      → is_open o ≡ true
      → is_open c ≡ false
      → is_close c ≡ true
      → Balanced s
      → Balanced t
      → u ≡ s ++ c ∷ t
      → Balanced (o ∷ u)

with_chars : List Char → Option (List Char × List Char) → Option (List Char × List Char)
with_chars [] r = r
with_chars (c ∷ s) r = with_char c (with_chars s r)

with_chars-append :
    (s t : List Char) (r : Option (List Char × List Char))
    → with_chars (s ++ t) r ≡ with_chars s (with_chars t r)
unfolding with_chars
with_chars-append [] t r = refl
with_chars-append (c ∷ s) t r = ap (with_char c) (with_chars-append s t r)

with_chars-some : (s a b : List Char) → with_chars s (some (a, b)) ≡ some (s ++ a, b)
unfolding with_chars
with_chars-some [] a b = refl
with_chars-some (c ∷ s) a b = ap (with_char c) (with_chars-some s a b)

module _ (c : Char) (s : List Char) where
  close-open :
      (depth : ℕ) → is_open c ≡ true → close depth (c ∷ s) ≡ with_char c (close (suc depth) s)
  unfolding close
  close-open depth e = rw e

  close-plain :
      (depth : ℕ)
      → is_open c ≡ false
      → is_close c ≡ false
      → close depth (c ∷ s) ≡ with_char c (close depth s)
  unfolding close
  close-plain depth e k = rw (e, k)

  close-inner :
      (depth : ℕ)
      → is_open c ≡ false
      → is_close c ≡ true
      → close (suc (suc depth)) (c ∷ s) ≡ with_char c (close (suc depth) s)
  unfolding close
  close-inner depth e k =
      let deep : nat_eq (suc (suc depth)) 1 ≡ false = ground arith in
      let up : suc (suc depth) - 1 ≡ suc depth = omega arith in rw (e, k, deep, up)

  close-outer : is_open c ≡ false → is_close c ≡ true → close 1 (c ∷ s) ≡ some (c ∷ [], s)
  unfolding close
  close-outer e k = rw (e, k)

-- Inside a brace the scan passes over balanced text at an unchanged depth.
close-Balanced :
    {s : List Char} (depth : ℕ) (rest : List Char)
    → Balanced s
    → close (suc depth) (s ++ rest) ≡ with_chars s (close (suc depth) rest)
unfolding with_chars
close-Balanced depth rest nothing = refl
close-Balanced depth rest (plain c {s} no_open no_close b) =
    close-plain c (s ++ rest) (suc depth) no_open no_close
    ∙ ap (with_char c) (close-Balanced depth rest b)
close-Balanced depth rest (braces o c s t {u} opens not_open closes bs bt e) =
    let tail = t ++ rest in
    close-open o (u ++ rest) (suc depth) opens
    ∙ ap (with_char o) (
        rw (e, append_assoc s (c ∷ t) rest)
          (close-Balanced (suc depth) (c ∷ tail) bs
            ∙ ap (with_chars s) (
                close-inner c tail depth not_open closes
                ∙ ap (with_char c) (close-Balanced depth rest bt))
            ∙ sym (with_chars-append s (c ∷ t) (close (suc depth) rest))))

-- A candidate: balanced text between an opening and a closing brace.
pub record Block : Type 0 where
  pub opening : Char
  pub body : List Char
  pub closing : Char
  pub opens : is_open opening ≡ true
  pub not_open : is_open closing ≡ false
  pub closes : is_close closing ≡ true
  pub balanced : Balanced body

abbrev pub block_text : Block → List Char
block_text b = b.opening ∷ (b.body ++ b.closing ∷ [])

close-body :
    (b : Block) (rest : List Char)
    → close 1 ((b.body ++ b.closing ∷ []) ++ rest) ≡ some (b.body ++ b.closing ∷ [], rest)
close-body b rest = rw (append_assoc b.body (b.closing ∷ []) rest) (
    close-Balanced 0 (b.closing ∷ rest) b.balanced
    ∙ ap (with_chars b.body) (close-outer b.closing rest b.not_open b.closes)
    ∙ with_chars-some b.body (b.closing ∷ []) rest)

close-Block :
    (b : Block) (rest : List Char) → close 0 (block_text b ++ rest) ≡ some (block_text b, rest)
close-Block b rest =
    close-open b.opening ((b.body ++ b.closing ∷ []) ++ rest) 0 b.opens
    ∙ ap (with_char b.opening) (close-body b rest)

-- A text that is made of blocks, each behind some text without an opening brace, and an end without one.
abbrev pub NoOpen : List Char → Type 0
NoOpen s = All (λ c. is_open c ≡ false) s

abbrev pub page_text : List (List Char × Block) → List Char → List Char
page_text [] end = end
page_text ((gap, b) ∷ bs) end = gap ++ (block_text b ++ page_text bs end)

candidates-NoOpen : (fuel : ℕ) (s : List Char) → NoOpen s → candidates fuel s ≡ []
unfolding candidates
candidates-NoOpen zero s h = refl
candidates-NoOpen (suc fuel) [] h = refl
candidates-NoOpen (suc fuel) (c ∷ s) (e, h) = rw e (candidates-NoOpen fuel s h)

-- a gap costs one round for each of its characters
candidates-gap :
    (gap s : List Char) (fuel : ℕ)
    → NoOpen gap
    → candidates (length gap + fuel) (gap ++ s) ≡ candidates fuel s
unfolding candidates
candidates-gap [] s fuel h = ap (λ (n : ℕ). candidates n s) (omega arith)
candidates-gap (c ∷ gap) s fuel (e, h) =
    let more : suc (length gap) + fuel ≡ suc (length gap + fuel) = omega arith in
    rw more (rw e (candidates-gap gap s fuel h))

candidates_step :
    (fuel : ℕ) (c : Char) (s found rest : List Char)
    → is_open c ≡ true
    → close 0 (c ∷ s) ≡ some (found, rest)
    → candidates (suc fuel) (c ∷ s) ≡ found ∷ candidates fuel rest
unfolding candidates
candidates_step fuel c s found rest e k = rw (e, k)

candidates-Block :
    (fuel : ℕ) (b : Block) (rest : List Char)
    → candidates (suc fuel) (block_text b ++ rest) ≡ block_text b ∷ candidates fuel rest
candidates-Block fuel b rest =
    candidates_step fuel b.opening ((b.body ++ b.closing ∷ []) ++ rest) (block_text b) rest b.opens
      (close-Block b rest)

-- the gaps have no opening brace
abbrev pub IsPage : List (List Char × Block) → Type 0
IsPage [] = Unit
IsPage ((gap, b) ∷ bs) = NoOpen gap × IsPage bs

-- one round for each gap character and each block
abbrev rounds : List (List Char × Block) → ℕ
rounds [] = 0
rounds ((gap, b) ∷ bs) = length gap + suc (rounds bs)

abbrev pub texts : List (List Char × Block) → List (List Char)
texts [] = []
texts ((gap, b) ∷ bs) = block_text b ∷ texts bs

candidates-page :
    (bs : List (List Char × Block)) (end : List Char) (more : ℕ)
    → IsPage bs
    → NoOpen end
    → candidates (rounds bs + more) (page_text bs end) ≡ texts bs
candidates-page [] end more h k = candidates-NoOpen (0 + more) end k
candidates-page ((gap, b) ∷ bs) end more (g, h) k =
    let fuel : length gap + suc (rounds bs) + more ≡ length gap + suc (rounds bs + more) =
      omega arith in
    rw fuel (
      candidates-gap gap (block_text b ++ page_text bs end) (suc (rounds bs + more)) g
      ∙ candidates-Block (rounds bs + more) b (page_text bs end)
      ∙ ap (◌∷◌ (block_text b)) (candidates-page bs end more h k))

rounds-le :
    (bs : List (List Char × Block)) (end : List Char) → rounds bs ≤ length (page_text bs end)
rounds-le [] end = omega arith
rounds-le ((gap, b) ∷ bs) end = omega (
  arith,
  rounds-le bs end,
  length-append gap (block_text b ++ page_text bs end),
  length-append (b.body ++ b.closing ∷ []) (page_text bs end),
)

-- From a text in which brace-delimited blocks stand between gaps without an opening brace, the scan
-- that starts with the length of the text as its bound takes exactly the blocks, whole and in order,
-- however deep the braces inside them.
pub candidates_complete :
    (bs : List (List Char × Block)) (end : List Char)
    → IsPage bs
    → NoOpen end
    → candidates (length (page_text bs end)) (page_text bs end) ≡ texts bs
candidates_complete bs end h k =
    let more = length (page_text bs end) - rounds bs in
    let enough : length (page_text bs end) ≡ rounds bs + more = omega (arith, rounds-le bs end) in
    ap (λ (n : ℕ). candidates n (page_text bs end)) enough ∙ candidates-page bs end more h k
