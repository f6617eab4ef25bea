-- ===== src/Tests/Tasks.antt =====
-- The job manager: one job is created, started and canceled, and a second one is created.
use agentware.Prelude.{
  ℕ, ◌≡◌, refl, arith, String, none, some, [], ◌∷◌, List, lookup, ◌==◌, if◌then◌else◌,
}
use agentware.Prelude.Decimal.{IsDigits}
use agentware.Jobs.{new_job_manager, new_job, job_id, create, JobManager}
use agentware.Jobs.Changes.{
  started, canceled_by_user, completed, apply, Answers, changed_if, lookup-apply,
}
use agentware.Jobs.Ids.{Op, created, applied, run, create_fresh}

-- a clock that stands still
abbrev strftime : ℕ → String
strftime stamp = "20260102030405"

digits : IsDigits "20260102030405"
digits = ground arith

job_id-strftime : job_id strftime 5 7 ≡ "20260102030405-0007"
unfolding job_id
job_id-strftime = refl

job_id_of_many : job_id strftime 5 12345 ≡ "20260102030405-12345"
unfolding job_id
job_id_of_many = refl

abbrev history : List Op
history =
    created 5 5 "index the docs"
    ∷ applied 6 "20260102030405-0001" started
    ∷ applied 7 "20260102030405-0001" canceled_by_user
    ∷ applied 8 "none" started
    ∷ []

abbrev later : JobManager
later = run strftime new_job_manager history

create_fresh_example :
    (lookup (create strftime later 9 9 "deploy").0 later.jobs ≡ none)
    × (lookup (create strftime later 9 9 "deploy").0 (create strftime later 9 9 "deploy").1.jobs
        ≡ some (new_job (create strftime later 9 9 "deploy").0 "deploy" 9))
create_fresh_example = create_fresh strftime history 9 9 "deploy" (λ stamp. digits)

lookup-apply_example :
    Answers later "20260102030405-0001" (apply later 10 "20260102030405-0001" (completed "done"))
    × (lookup "20260102030405-0001" (apply later 10 "20260102030405-0001" (completed "done")).1.jobs
        ≡ (if "20260102030405-0001" == "20260102030405-0001"
            then changed_if (completed "done") 10 (lookup "20260102030405-0001" later.jobs)
            else lookup "20260102030405-0001" later.jobs))
    × ((apply later 10 "20260102030405-0001" (completed "done")).1.counter ≡ later.counter)
lookup-apply_example =
    lookup-apply later "20260102030405-0001" "20260102030405-0001" (completed "done") 10
