-- ===== src/Jobs/Ids.antt =====
-- A new job never takes the id of an old one.
use agentware.Prelude.{
  ℕ, suc, ◌≤◌, String, ◌≡◌, refl, arith, none, some, List, [], ◌∷◌, lookup, lookup-insert,
  lookup-insert_self, Option-cases, Bool-cases, inl, inr, ◌==◌, eq_iff,
}
use agentware.Prelude.Decimal.{IsDigits, pad_zeros_injective, dash_injective}
use agentware.Jobs.{Job, JobManager, new_job_manager, new_job, job_id, create}
use agentware.Jobs.Changes.{Change, apply, lookup-apply}

pub data Op : Type 0 where
  created : (stamp now : ℕ) (description : String) → Op
  applied : (now : ℕ) (id : String) → Change → Op

lookup_empty : (id : String) → lookup id new_job_manager.jobs ≡ none
unfolding lookup
lookup_empty id = refl

-- Ids are equal only for equal counters.
job_id_injective :
    (strftime : ℕ → String) (s t n k : ℕ)
    → ((stamp : ℕ) → IsDigits (strftime stamp))
    → job_id strftime s n ≡ job_id strftime t k
    → n ≡ k
unfolding job_id
job_id_injective strftime s t n k h e =
    pad_zeros_injective 4 n k (dash_injective (strftime s) (strftime t) _ _ (h s) (h t) e)

module _ (strftime : ℕ → String) where
  unfoldable pub step : JobManager → Op → JobManager
  step m (created stamp now description) = (create strftime m stamp now description).1
  step m (applied now id c) = (apply m now id c).1

  unfoldable pub run : JobManager → List Op → JobManager
  run m [] = m
  run m (op ∷ ops) = run (step m op) ops

  -- every id is that of a counter which the manager has reached
  abbrev IsNumbered : JobManager → Type 0
  IsNumbered m =
      (id : String) (job : Job)
      → lookup id m.jobs ≡ some job
      → (stamp : ℕ) × (n : ℕ) × (n ≤ m.counter) × (id ≡ job_id strftime stamp n)

  create-IsNumbered :
      (m : JobManager) (stamp now : ℕ) (description : String)
      → IsNumbered m
      → IsNumbered (create strftime m stamp now description).1
  unfolding create
  create-IsNumbered m stamp now description h id job e =
      let new = job_id strftime stamp (suc m.counter) in
      let found = lookup-insert new id (new_job new description now) m.jobs in
      elim (Bool-cases (new == id)) [
        | inl k ↦ (stamp, suc m.counter, omega arith, ground (arith, eq_iff new id))
        | inr k ↦ let (s, n, le, eq) = h id job (ground arith) in (s, n, omega arith, eq)
      ]

  apply-IsNumbered :
      (m : JobManager) (now : ℕ) (id : String) (c : Change)
      → IsNumbered m
      → IsNumbered (apply m now id c).1
  apply-IsNumbered m now id c h other job e =
      let (_, found, same) = lookup-apply m id other c now in
      elim (Bool-cases (id == other)) [
        | inr k ↦ let (s, n, le, eq) = h other job (ground arith) in (s, n, omega arith, eq)
        | inl k ↦ elim (Option-cases (lookup id m.jobs)) [
          | inl none_there ↦ absurd (ground arith)
          | inr (old, there) ↦
              let (s, n, le, eq) = h id old there in
              (s, n, omega arith, ground (arith, eq_iff id other))
        ]
      ]

  run-IsNumbered : (m : JobManager) (ops : List Op) → IsNumbered m → IsNumbered (run m ops)
  unfolding run step
  run-IsNumbered m [] h = h
  run-IsNumbered m (created stamp now description ∷ ops) h =
      run-IsNumbered (create strftime m stamp now description).1 ops
        (create-IsNumbered m stamp now description h)
  run-IsNumbered m (applied now id c ∷ ops) h =
      run-IsNumbered (apply m now id c).1 ops (apply-IsNumbered m now id c h)

  -- If `strftime` gives digits for this format, then whatever was created and changed before, and
  -- whatever the clock shows, the id of a new job names no job yet, and the new job is under it.
  pub create_fresh :
      (ops : List Op) (stamp now : ℕ) (description : String)
      → ((stamp : ℕ) → IsDigits (strftime stamp))
      → (lookup
            (create strftime (run new_job_manager ops) stamp now description).0
            (run new_job_manager ops).jobs
          ≡ none)
        × (lookup
              (create strftime (run new_job_manager ops) stamp now description).0
              (create strftime (run new_job_manager ops) stamp now description).1.jobs
            ≡ some (
                new_job
                  (create strftime (run new_job_manager ops) stamp now description).0
                  description
                  now))
  unfolding create
  create_fresh ops stamp now description digits =
      let m = run new_job_manager ops in
      let new = job_id strftime stamp (suc m.counter) in
      (
        elim (Option-cases (lookup new m.jobs)) [
          | inl free ↦ free
          | inr (job, taken) ↦
              let (s, n, le, eq) = run-IsNumbered new_job_manager ops empty new job taken in
              absurd (omega (arith, job_id_injective strftime stamp s (suc m.counter) n digits eq))
        ],
        lookup-insert_self new (new_job new description now) m.jobs,
      )
    where
      empty : IsNumbered new_job_manager
      empty id job e = absurd (ground (arith, lookup_empty id, e))
