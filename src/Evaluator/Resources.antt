-- ===== src/Evaluator/Resources.antt =====
-- The resources that an authorization request names.
use agentware.Prelude.{
  ℕ, ◌≤◌, suc, String, ◌≡◌, refl, true, false, List, [], ◌∷◌, ◌++◌, All, elem, length,
  length-append, All-append, arith, eq_iff, ◌==◌, strip, ◌<+>◌, if_ind, if◌then◌else◌,
}
use agentware.Prelude.Value.{Value, null, str, truthy}
use agentware.Prelude.Python.{Python}
use agentware.Types.{Args}
use agentware.Evaluator.{
  add_resource, add_repo, resource_type, resources_touched, get_arg, or_value,
}

-- No text stands twice.
abbrev pub IsDistinct : List String → Type 0
IsDistinct [] = Unit
IsDistinct (s ∷ ss) = (elem s ss ≡ false) × IsDistinct ss

elem-append :
    (s t : String) (ss : List String) → elem s (ss ++ t ∷ []) ≡ (if elem s ss then true else s == t)
elem-append s t [] = ground arith
elem-append s t (u ∷ ss) = ground (arith, elem-append s t ss)

IsDistinct-append :
    (t : String) (ss : List String) → elem t ss ≡ false → IsDistinct ss → IsDistinct (ss ++ t ∷ [])
IsDistinct-append t [] h d = (refl, tt)
IsDistinct-append t (s ∷ ss) h (fresh, d) = (
  ground (arith, elem-append s t ss, eq_iff s t, eq_iff t s),
  IsDistinct-append t ss (ground arith) d,
)

module _ (py : Python) (type : String) where
  -- The entry is the type, a colon and more.
  abbrev pub IsOfType : String → Type 0
  IsOfType s = (more : String) × (s ≡ type <+> ":" <+> more)

  -- Distinct entries of the type, at most so many.
  abbrev pub Bounded : ℕ → List String → Type 0
  Bounded n ss = IsDistinct ss × All IsOfType ss × (length ss ≤ n)

  entry-Bounded :
      (n : ℕ) (kind value : String) (ss : List String)
      → Bounded n ss
      → Bounded (suc n) (
          let entry = type <+> ":" <+> kind <+> ":" <+> value in
          if value == "" then ss else if elem entry ss then ss else ss ++ entry ∷ [])
  entry-Bounded n kind value ss (d, t, l) =
      let entry = type <+> ":" <+> kind <+> ":" <+> value in
      let kept : Bounded (suc n) ss = (d, t, omega arith) in
      if_ind (Bounded (suc n)) (value == "") (λ _. kept)
        λ _.
          if_ind (Bounded (suc n)) (elem entry ss) (λ _. kept)
            λ fresh. (
              IsDistinct-append entry ss fresh d,
              All-append IsOfType ss (entry ∷ []) t ((kind <+> ":" <+> value, refl), tt),
              omega (arith, length-append ss (entry ∷ [])),
            )

  add_resource-Bounded :
      (n : ℕ) (kind : String) (v : Value) (ss : List String)
      → Bounded n ss
      → Bounded (suc n) (add_resource py type kind v ss)
  unfolding add_resource
  add_resource-Bounded n kind null ss (d, t, l) = (d, t, omega arith)
  add_resource-Bounded n kind v ss h = entry-Bounded n kind (strip (py.to_text v)) ss h

  add_repo-Bounded : (owner repo : Value) → Bounded 1 (add_repo py type owner repo)
  add_repo-Bounded owner repo =
      let empty : Bounded 0 [] = (tt, tt, omega arith) in
      if_ind (Bounded 1) (truthy repo)
        (λ _.
          if_ind (Bounded 1) (truthy owner)
            (λ _.
              add_resource-Bounded 0 "repo" (str (py.to_text owner <+> "/" <+> py.to_text repo)) []
                empty)
            (λ _. add_resource-Bounded 0 "repo" repo [] empty))
        (λ _. (tt, tt, omega arith))

  adds-Bounded :
      (owner repo issue pull branch file : Value)
      → Bounded 5 (
          add_resource py type "file" file (
            add_resource py type "branch" branch (
              add_resource py type "pull_request" pull
                (add_resource py type "issue" issue (add_repo py type owner repo)))))
  adds-Bounded owner repo issue pull branch file =
      let repos = add_repo py type owner repo in
      let issues = add_resource py type "issue" issue repos in
      let pulls = add_resource py type "pull_request" pull issues in
      let branches = add_resource py type "branch" branch pulls in
      add_resource-Bounded 4 "file" file branches (
        add_resource-Bounded 3 "branch" branch pulls (
          add_resource-Bounded 2 "pull_request" pull issues
            (add_resource-Bounded 1 "issue" issue repos (add_repo-Bounded owner repo))))

-- The resources of a call are distinct, at most five, and each begins with the type that the tool's
-- name gives; where the name gives none there are no resources.
pub resources_touched-Bounded :
    (py : Python) (tool : String) (args : Args)
    → Bounded py (resource_type py tool) 5 (resources_touched py tool args)
      × (resource_type py tool ≡ "" → resources_touched py tool args ≡ [])
unfolding resources_touched
resources_touched-Bounded py tool args =
    let type = resource_type py tool in
    let arg = get_arg py args in
    (
      if_ind (Bounded py type 5) (type == "") (λ _. (tt, tt, omega arith))
          (λ _.
            adds-Bounded py type (arg "owner") (or_value py (arg "repo") (arg "repository"))
              (arg "issue_number") (or_value py (arg "pull_number") (arg "pr_number"))
              (or_value py (arg "branch") (arg "ref"))
              (or_value py (arg "path") (arg "file_path"))),
      λ h. ground (arith, eq_iff type ""),
    )
