-- ===== src/Jobs.antt =====
-- python/src/haikeilabs/agentware/jobs: the in-memory job manager. A clock is read by the caller of
-- the code, and `strftime` is a function from outside.
pub mod Ids
pub mod Changes
use agentware.Prelude.{
  ℕ, suc, String, Bool, true, false, Option, none, some, List, [], ◌∷◌, Dict, lookup, insert, map,
  keep, ◌<+>◌,
}
use agentware.Prelude.Decimal.{decimal, pad_zeros}
use agentware.Prelude.Exec.{Result, ok, raise, key_error}

pub data JobStatus : Type 0 where
  pending running complete failed canceled : JobStatus

abbrev pub status_eq : JobStatus → JobStatus → Bool
status_eq pending pending = true
status_eq running running = true
status_eq complete complete = true
status_eq failed failed = true
status_eq canceled canceled = true
status_eq _ _ = false

pub record Job : Type 0 where
  pub id : String
  pub status : JobStatus
  pub description : String
  pub created_at : ℕ
  pub updated_at : ℕ
  pub result : String
  pub error : String

pub record JobManager : Type 0 where
  pub jobs : Dict Job
  pub counter : ℕ

abbrev pub new_job_manager : JobManager
new_job_manager = record { jobs = []; counter = 0 }

abbrev pub new_job : String → String → ℕ → Job
new_job id description now = record {
  id = id;
  status = pending;
  description = description;
  created_at = now;
  updated_at = now;
  result = "";
  error = "";
}

-- `f"{datetime.now().strftime('%Y%m%d%H%M%S')}-{self._counter:04d}"`
unfoldable pub job_id : (strftime : ℕ → String) → (stamp counter : ℕ) → String
unfolding decimal
job_id strftime stamp counter = strftime stamp <+> "-" <+> pad_zeros 4 (decimal counter)

-- The time is read once for the id and once for the job.
unfoldable pub create :
    (strftime : ℕ → String) → JobManager → (stamp now : ℕ) → String → String × JobManager
unfolding job_id
create strftime m stamp now description =
    let counter = suc m.counter in
    let id = job_id strftime stamp counter in
    (id, record { jobs = insert id (new_job id description now) m.jobs; counter = counter })

abbrev not_found {ℓ} : {A : Type ℓ} → String → Result A
not_found id = raise (key_error ("job not found: " <+> id))

-- A change of the job that an id names; a job keeps its place in the dictionary.
abbrev pub updated : JobManager → String → (Job → Job) → Option Job → Result (Unit {0}) × JobManager
updated m id change none = (not_found id, m)
updated m id change (some job) = (ok tt, record m { jobs = insert id (change job) m.jobs })

unfoldable pub update : JobManager → String → (Job → Job) → Result (Unit {0}) × JobManager
update m id change = updated m id change (lookup id m.jobs)

unfoldable pub start : JobManager → ℕ → String → Result (Unit {0}) × JobManager
start m now id = update m id (λ job. record job { status = running; updated_at = now })

unfoldable pub complete_job : JobManager → ℕ → String → String → Result (Unit {0}) × JobManager
complete_job m now id result =
    update m id (λ job. record job { status = complete; result = result; updated_at = now })

unfoldable pub fail : JobManager → ℕ → String → String → Result (Unit {0}) × JobManager
fail m now id error =
    update m id (λ job. record job { status = failed; error = error; updated_at = now })

unfoldable pub cancel : JobManager → ℕ → String → Result (Unit {0}) × JobManager
cancel m now id = update m id (λ job. record job { status = canceled; updated_at = now })

unfoldable pub get : JobManager → String → Result Job
get m id = elim (lookup id m.jobs) [ none ↦ not_found id | some job ↦ ok job ]

unfoldable pub list_jobs : JobManager → Option JobStatus → List Job
list_jobs m none = map (λ e. e.1) m.jobs
list_jobs m (some status) = keep (λ job. status_eq job.status status) (map (λ e. e.1) m.jobs)
