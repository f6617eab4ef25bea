-- ===== src/Jobs/Changes.antt =====
-- The four changes of a job.
use agentware.Prelude.{
  ℕ, String, ◌≡◌, refl, arith, Option, none, some, lookup, lookup-insert, ◌==◌, if◌then◌else◌,
  eq_iff, ◌<+>◌,
}
use agentware.Prelude.Exec.{Result, ok, raise, key_error}
use agentware.Jobs.{
  running, complete, failed, canceled, Job, JobManager, updated, update, start, complete_job, fail,
  cancel,
}

pub data Change : Type 0 where
  started canceled_by_user : Change
  completed : (result : String) → Change
  broken : (error : String) → Change

unfoldable pub apply : JobManager → ℕ → String → Change → Result (Unit {0}) × JobManager
apply m now id started = start m now id
apply m now id canceled_by_user = cancel m now id
apply m now id (completed result) = complete_job m now id result
apply m now id (broken error) = fail m now id error

-- What a change makes of a job: its status and time, and what the change brings.
abbrev pub changed : Change → ℕ → Job → Job
changed started now job = record job { status = running; updated_at = now }
changed canceled_by_user now job = record job { status = canceled; updated_at = now }
changed (completed result) now job = record job {
  status = complete;
  result = result;
  updated_at = now;
}
changed (broken error) now job = record job { status = failed; error = error; updated_at = now }

abbrev pub changed_if : Change → ℕ → Option Job → Option Job
changed_if c now none = none
changed_if c now (some job) = some (changed c now job)

-- A change of an id that names no job raises and leaves the manager as it is; any other returns.
abbrev pub AnswersFor : Option Job → JobManager → String → Result (Unit {0}) × JobManager → Type 0
AnswersFor none m id r = r ≡ (raise (key_error ("job not found: " <+> id)), m)
AnswersFor (some job) m id r = r.0 ≡ ok tt

abbrev pub Answers : JobManager → String → Result (Unit {0}) × JobManager → Type 0
Answers m id r = AnswersFor (lookup id m.jobs) m id r

update-lookup :
    (m : JobManager) (id other : String) (c : Change) (now : ℕ)
    → Answers m id (update m id (changed c now))
      × (lookup other (update m id (changed c now)).1.jobs
          ≡ (if id == other then changed_if c now (lookup id m.jobs) else lookup other m.jobs))
      × ((update m id (changed c now)).1.counter ≡ m.counter)
unfolding update
update-lookup m id other c now = go (lookup id m.jobs) refl
  where
    go :
        (o : Option Job)
        → lookup id m.jobs ≡ o
        → AnswersFor o m id (updated m id (changed c now) o)
          × (lookup other (updated m id (changed c now) o).1.jobs
              ≡ (if id == other then changed_if c now o else lookup other m.jobs))
          × ((updated m id (changed c now) o).1.counter ≡ m.counter)
    go none e = (refl, ground (arith, eq_iff id other), refl)
    go (some job) e = (refl, lookup-insert id other (changed c now job) m.jobs, refl)

-- A change gives the job that the id names the new status, time, and result or error, and touches
-- no other job and no counter. Where the id names no job it raises `KeyError` and nothing changes.
pub lookup-apply :
    (m : JobManager) (id other : String) (c : Change) (now : ℕ)
    → Answers m id (apply m now id c)
      × (lookup other (apply m now id c).1.jobs
          ≡ (if id == other then changed_if c now (lookup id m.jobs) else lookup other m.jobs))
      × ((apply m now id c).1.counter ≡ m.counter)
unfolding apply start complete_job fail cancel
lookup-apply m id other started now = update-lookup m id other started now
lookup-apply m id other canceled_by_user now = update-lookup m id other canceled_by_user now
lookup-apply m id other (completed result) now = update-lookup m id other (completed result) now
lookup-apply m id other (broken error) now = update-lookup m id other (broken error) now
