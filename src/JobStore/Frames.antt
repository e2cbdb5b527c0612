-- ===== src/JobStore/Frames.antt =====
-- What each statement of the job store changes, seen through `get_job`.
use ebook_automation.Raises.{returned, raised, integrity_error}
use ebook_automation.Sql
use ebook_automation.Sql.Laws.{
  is_free-fetch_one, fetch_one-insert, fetch_one-update, fetch_one-insert, fetch_one_holds,
}
use ebook_automation.JobStore.Schema.{Job, has_id}
use ebook_automation.JobStore.Store.{Ttl, NewJob, queued_job, create_job, get_job, update_job}
use ebook_automation.Common.{
  ℕ, String, ◌≡◌, refl, ◌∙◌, not, ◌&&◌, Option, none, some, List, arith, eq_iff, str_eq,
  if◌then◌else◌, is_some,
}

-- `some (f j)` for `some j`
abbrev pub apply_to {ℓ} : {A : Type ℓ} → (A → A) → Option A → Option A
apply_to f none = none
apply_to f (some a) = some (f a)

-- An UPDATE by id, by an `f` that keeps the id of a row, changes the job that is read under that
-- id, by `f`, and no other.
pub get_job-update_job :
    (id k : String) (f : Job → Job) (jobs : List Job)
    → ((j : Job) → (f j).job_id ≡ j.job_id)
    → get_job k (update_job id f jobs)
      ≡ (if str_eq id k then apply_to f (get_job k jobs) else get_job k jobs)
unfolding get_job update_job
get_job-update_job id k f jobs keep =
    fetch_one-update (has_id k) (has_id id) f jobs (λ j. rw (keep j))
    ∙ by_row (Sql.fetch_one (has_id k) jobs) refl
  where
    by_row :
        (o : Option Job)
        → Sql.fetch_one (has_id k) jobs ≡ o
        → elim o [ none ↦ none | some x ↦ some (Sql.assign (has_id id) f x) ]
          ≡ (if str_eq id k then apply_to f o else o)
    by_row none e = ground arith
    by_row (some x) e = ground (
      arith,
      fetch_one_holds (has_id k) jobs e,
      eq_iff x.job_id k,
      eq_iff x.job_id id,
      eq_iff id k,
    )

-- A job is created only under a free id, and is then the queued job of that id; under an id that
-- is taken the call raises `IntegrityError`. No other job changes.
pub create_job_lem :
    (settings : Ttl) (now : ℕ) (n : NewJob) (jobs : List Job) (k : String)
    → let (r, jobs') = create_job settings now n jobs in
      let taken = is_some (get_job n.job_id jobs) in
      (r ≡ (if taken then raised integrity_error else returned tt))
      × (get_job k jobs' ≡ (
          if not taken && str_eq n.job_id k
          then some (queued_job settings now n)
          else get_job k jobs))
unfolding create_job get_job
create_job_lem settings now n jobs k = ground (
  arith,
  is_free-fetch_one (has_id n.job_id) jobs,
  fetch_one-insert (has_id k) (queued_job settings now n) jobs,
  eq_iff n.job_id k,
)
