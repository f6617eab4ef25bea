-- ===== src/Bundle/Wire/RoundTrip.antt =====
-- A bundle that is written to disk and read back is the same bundle.
use agentware.Prelude.{
  ◌≤◌, ltb, ℕ, ◌<◌, ◌≡◌, ◌≢◌, refl, true, false, Option, none, some, List, [], ◌∷◌, map, All, arith,
  strip, eq_iff, ◌==◌,
}
use agentware.Prelude.Value.{Value, pos, str, truthy, items-to_items, is_positive}
use agentware.Prelude.Python.{Python, IsPython}
use agentware.Prelude.Exec.{Result, ok}
use agentware.Types.{Action, allow, deny, filter}
use agentware.Bundle.{
  Operator, eq, not_eq, contains_op, not_contains, matches, not_matches, exists, not_exists,
  Condition, RateLimit, Rule, PolicyBundleData,
}
use agentware.Bundle.Wire.{
  max_window, action_of, action_text, operator_of, operator_text, parse_condition,
  condition_to_dict, parse_all, parse_rate, rate_to_dict, parse_rule, rule_to_dict, from_wire,
  to_dict, parse_expiry, expiry_to_dict,
}

abbrev pub IsLimit : Option RateLimit → Type 0
IsLimit none = Unit
IsLimit (some r) = (0 < r.count) × (0 < r.window) × (r.window ≤ max_window)

-- A bundle as the control plane issues it: a version, named rules, conditions on some field, and
-- limits that are positive and fit a `timedelta`.
pub record IsRule (r : Rule) : Type 0 where
  pub named : truthy r.name ≡ true
  pub fielded : All (λ c. Condition.field c ≢ "") r.conditions
  pub limit : IsLimit r.max_rate

pub record IsBundle (b : PolicyBundleData) : Type 0 where
  pub versioned : truthy b.version ≡ true
  pub rules : All IsRule b.rules

operator_of-operator_text : (o : Operator) → operator_of (strip (operator_text o)) ≡ some o
unfolding operator_of strip
operator_of-operator_text eq = refl
operator_of-operator_text not_eq = refl
operator_of-operator_text contains_op = refl
operator_of-operator_text not_contains = refl
operator_of-operator_text matches = refl
operator_of-operator_text not_matches = refl
operator_of-operator_text exists = refl
operator_of-operator_text not_exists = refl

parse_all-map :
    {A : Type 0} (parse : Value → Result A) (print : A → Value) (P : A → Type 0)
    → ((a : A) → P a → parse (print a) ≡ ok a)
    → (xs : List A) → All P xs
    → parse_all parse (map print xs) ≡ ok xs
unfolding parse_all
parse_all-map parse print P inv [] h = refl
parse_all-map parse print P inv (a ∷ xs) (h, hs) =
    rw (inv a h, parse_all-map parse print P inv xs hs)

module _ {py : Python} (lawful : IsPython py) where
  lower-operator_text :
      (o : Operator) → py.lower (strip (operator_text o)) ≡ strip (operator_text o)
  unfolding strip
  lower-operator_text eq = lawful.lower-lower _ refl
  lower-operator_text not_eq = lawful.lower-lower _ refl
  lower-operator_text contains_op = lawful.lower-lower _ refl
  lower-operator_text not_contains = lawful.lower-lower _ refl
  lower-operator_text matches = lawful.lower-lower _ refl
  lower-operator_text not_matches = lawful.lower-lower _ refl
  lower-operator_text exists = lawful.lower-lower _ refl
  lower-operator_text not_exists = lawful.lower-lower _ refl

  action_of-lower : (a : Action) → action_of (py.lower (strip (action_text a))) ≡ some a
  unfolding action_of strip
  action_of-lower allow = rw (lawful.lower-lower "allow" refl)
  action_of-lower deny = rw (lawful.lower-lower "deny" refl)
  action_of-lower filter = rw (lawful.lower-lower "filter" refl)

  token-operator :
      (o : Operator) → operator_of (py.lower (strip (py.to_text (str (operator_text o))))) ≡ some o
  token-operator o = rw (lawful.to_text-str, lower-operator_text) (operator_of-operator_text o)

  token-action :
      (a : Action) → action_of (py.lower (strip (py.to_text (str (action_text a))))) ≡ some a
  token-action a = rw lawful.to_text-str (action_of-lower a)

  parse_condition-to_dict :
      (c : Condition) → c.field ≢ "" → parse_condition py (condition_to_dict c) ≡ ok c
  unfolding parse_condition condition_to_dict
  parse_condition-to_dict c h =
      let fielded : (c.field == "") ≡ false = ground (arith, eq_iff c.field "") in
      rw (lawful.to_text-str c.field, fielded, token-operator c.operator) (rw lawful.to_text-str)

  parse_rate-to_dict :
      (o : Option RateLimit) → IsLimit o → parse_rate py (some (rate_to_dict o)) ≡ ok o
  unfolding parse_rate
  parse_rate-to_dict none h = refl
  parse_rate-to_dict (some r) h =
      let count : is_positive (pos r.count) ≡ true = ground arith in
      let window : is_positive (pos r.window) ≡ true = ground arith in
      let fits : ltb max_window r.window ≡ false = ground arith in
      simp (lawful.to_int-int, count, window, fits)

  parse_rule-to_dict : (r : Rule) → IsRule r → parse_rule py (rule_to_dict r) ≡ ok r
  unfolding parse_rule rule_to_dict
  parse_rule-to_dict r h =
      rw
        (
          h.named,
          items-to_items r.tools,
          token-action r.action,
          items-to_items (map condition_to_dict r.conditions),
          parse_all-map (parse_condition py) condition_to_dict (λ c. c.field ≢ "")
              parse_condition-to_dict r.conditions h.fielded,
          parse_rate-to_dict r.max_rate h.limit,
        )
        (rw items-to_items)

  parse_expiry-to_dict : (o : Option ℕ) → parse_expiry py (some (expiry_to_dict py o)) ≡ ok o
  parse_expiry-to_dict none = refl
  parse_expiry-to_dict (some t) =
      let dated : truthy (str (py.iso t)) ≡ true =
        ground (arith, eq_iff (py.iso t) "", lawful.iso-ne-nil t) in
      rw (dated, lawful.to_text-str (py.iso t), lawful.from_iso-iso t)

  -- With the laws of `Python`, a bundle with a version, whose rules have names, conditions on some
  -- field and positive limits that fit a `timedelta`,
  -- is read back from its JSON form as it was, but for the time at which it was fetched, which
  -- becomes the time of reading.
  pub from_wire-to_dict :
      (now : ℕ) (b : PolicyBundleData)
      → IsBundle b
      → from_wire py now (to_dict py b) ≡ ok (record b { fetched_at = now })
  unfolding from_wire to_dict
  from_wire-to_dict now b h = simp (
    h.versioned,
    items-to_items,
    lawful.to_text-str,
    parse_expiry-to_dict b.expires_at,
    parse_all-map (parse_rule py) rule_to_dict IsRule parse_rule-to_dict b.rules h.rules,
  )
