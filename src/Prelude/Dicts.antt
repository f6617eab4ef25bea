-- ===== src/Prelude/Dicts.antt =====
-- Python dictionaries with text keys, as association lists in insertion order.
use Prim.Native.String.{String}
use mathlib.Core.Path.{◌≡◌, refl}
use mathlib.Core.Option.{Option, none, some}
use mathlib.Core.List.{List, [], ◌∷◌, map}
use native.Mathlib.Omega.{arith}
use text.Mathlib.Text.{◌==◌}
use text.Mathlib.TextEquality.{eq_iff}
use text.Mathlib.TextPositions.{eq_refl}
use agentware.Prelude.Tests.{if◌then◌else◌}

abbrev pub Dict {ℓ} : Type ℓ → Type ℓ
Dict V = List (String × V)

abbrev pub keys {ℓ} : {V : Type ℓ} → Dict V → List String
keys dict = map (λ e. e.0) dict

module _ {ℓ} {V : Type ℓ} where
  -- `m.get(k)`
  unfoldable pub lookup : String → Dict V → Option V
  lookup key [] = none
  lookup key ((other, value) ∷ dict) = if other == key then some value else lookup key dict

  -- `m[k] = v`: an old key keeps its place, a new one goes to the end
  unfoldable pub insert : String → V → Dict V → Dict V
  insert key value [] = (key, value) ∷ []
  insert key value ((other, kept) ∷ dict) =
      if other == key then (key, value) ∷ dict else (other, kept) ∷ insert key value dict

  -- `m.pop(k, None)`
  unfoldable pub remove : String → Dict V → Dict V
  remove key [] = []
  remove key ((other, value) ∷ dict) =
      let rest = remove key dict in if other == key then rest else (other, value) ∷ rest

  -- `{**m, **n}`
  unfoldable pub merge : Dict V → Dict V → Dict V
  merge dict [] = dict
  merge dict ((key, value) ∷ news) = merge (insert key value dict) news

  -- No key stands twice, as in every Python dictionary.
  abbrev pub IsDict : Dict V → Type ℓ
  IsDict [] = Unit
  IsDict ((key, value) ∷ dict) = (lookup key dict ≡ none) × IsDict dict

  pub lookup-insert :
      (key other : String) (value : V) (dict : Dict V)
      → lookup other (insert key value dict)
        ≡ (if key == other then some value else lookup other dict)
  unfolding lookup insert
  lookup-insert key other value [] = refl
  lookup-insert key other value ((head, kept) ∷ dict) = ground (
    arith,
    eq_iff key other,
    eq_iff head key,
    eq_iff head other,
    lookup-insert key other value dict,
  )

  pub lookup-insert_self :
      (key : String) (value : V) (dict : Dict V) → lookup key (insert key value dict) ≡ some value
  lookup-insert_self key value dict = simp (lookup-insert, eq_refl)

  pub lookup-remove :
      (key other : String) (dict : Dict V)
      → lookup other (remove key dict) ≡ (if key == other then none else lookup other dict)
  unfolding lookup remove
  lookup-remove key other [] = ground arith
  lookup-remove key other ((head, kept) ∷ dict) =
      ground
        (arith, eq_iff key other, eq_iff head key, eq_iff head other, lookup-remove key other dict)

  -- what a merge shows at a key: the right side first
  abbrev pub first_of_two : Option V → Option V → Option V
  first_of_two none b = b
  first_of_two (some a) b = some a

  pub lookup-merge :
      (other : String) (dict news : Dict V)
      → IsDict news
      → lookup other (merge dict news) ≡ first_of_two (lookup other news) (lookup other dict)
  unfolding lookup merge
  lookup-merge other dict [] h = refl
  lookup-merge other dict ((key, value) ∷ news) (fresh, h) = ground (
    arith,
    lookup-merge other (insert key value dict) news h,
    lookup-insert key other value dict,
    eq_iff key other,
  )

  pub insert-IsDict :
      (key : String) (value : V) (dict : Dict V) → IsDict dict → IsDict (insert key value dict)
  unfolding lookup insert
  insert-IsDict key value [] h = (refl, tt)
  insert-IsDict key value ((other, kept) ∷ dict) (fresh, h) = ground (
    arith,
    eq_iff other key,
    eq_iff key other,
    insert-IsDict key value dict h,
    lookup-insert key other value dict,
  )

  pub remove-IsDict : (key : String) (dict : Dict V) → IsDict dict → IsDict (remove key dict)
  unfolding lookup remove
  remove-IsDict key [] h = tt
  remove-IsDict key ((other, kept) ∷ dict) (fresh, h) =
      ground (arith, eq_iff other key, remove-IsDict key dict h, lookup-remove key other dict)

pub ruleset dict_laws = (lookup-insert, lookup-remove)
