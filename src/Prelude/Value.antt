-- ===== src/Prelude/Value.antt =====
-- Values of the dynamic language, as far as the source inspects them.
use Prim.Native.Nat.{ℕ}
use Prim.Native.String.{String}
use mathlib.Core.Path.{◌≡◌, refl, ap}
use mathlib.Core.Bool.{Bool, true, false}
use mathlib.Core.List.{List, [], ◌∷◌}
use text.Mathlib.Text.{◌==◌}
use agentware.Prelude.Tests.{nat_eq}
use agentware.Prelude.Dicts.{Dict}

-- `negsuc n` is -(n + 1).
pub data ℤ : Type 0 where
  pos negsuc : ℕ → ℤ

-- A float is its `repr`, which determines it.
mutual
  pub data Value : Type 0 where
    null : Value
    bool : Bool → Value
    int : ℤ → Value
    float str : String → Value
    list : Items → Value
    dict : Fields → Value

  pub data Items : Type 0 where
    nil : Items
    cons : Value → Items → Items

  pub data Fields : Type 0 where
    end : Fields
    field : String → Value → Fields → Fields

abbrev pub items : Items → List Value
items nil = []
items (cons v vs) = v ∷ items vs

abbrev pub fields : Fields → Dict Value
fields end = []
fields (field k v fs) = (k, v) ∷ fields fs

-- `bool(v)`
abbrev pub truthy : Value → Bool
truthy null = false
truthy (bool b) = b
truthy (int (pos n)) = elim (nat_eq n 0) [ true ↦ false | false ↦ true ]
truthy (int (negsuc n)) = true
truthy (float r) = elim (r == "0.0") [
  | true ↦ false
  | false ↦ elim (r == "-0.0") [ true ↦ false | false ↦ true ]
]
truthy (str s) = elim (s == "") [ true ↦ false | false ↦ true ]
truthy (list nil) = false
truthy (list (cons v vs)) = true
truthy (dict end) = false
truthy (dict (field k v fs)) = true

-- `0 < z`
abbrev pub is_positive : ℤ → Bool
is_positive (pos n) = elim (nat_eq n 0) [ true ↦ false | false ↦ true ]
is_positive (negsuc n) = false

-- lists and dictionaries as values
abbrev pub to_items : List Value → Items
to_items [] = nil
to_items (v ∷ vs) = cons v (to_items vs)

abbrev pub to_fields : Dict Value → Fields
to_fields [] = end
to_fields ((k, v) ∷ m) = field k v (to_fields m)

abbrev pub array : List Value → Value
array vs = list (to_items vs)

abbrev pub object : Dict Value → Value
object m = dict (to_fields m)

pub items-to_items : (vs : List Value) → items (to_items vs) ≡ vs
items-to_items [] = refl
items-to_items (v ∷ vs) = ap (◌∷◌ v) (items-to_items vs)

pub fields-to_fields : (m : Dict Value) → fields (to_fields m) ≡ m
fields-to_fields [] = refl
fields-to_fields ((k, v) ∷ m) = ap (◌∷◌ (k, v)) (fields-to_fields m)

-- `v == "text"`
abbrev pub is_text : String → Value → Bool
is_text s (str t) = t == s
is_text s _ = false
