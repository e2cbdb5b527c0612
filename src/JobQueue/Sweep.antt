-- ===== src/JobQueue/Sweep.antt =====
-- The sweep of expired jobs: one round of `cleanup_expired_jobs`, and `_cleanup_job`, of
-- web_service/job_queue.py.
use ebook_automation.Sql
use ebook_automation.JobStore.Schema.{Job, expired, has_id}
use ebook_automation.JobStore.Store.{update_job, set_expired, is_overdue, get_expired_jobs}
use ebook_automation.JobQueue.World.{World}
use ebook_automation.Common.{
  ℕ, String, ◌≡◌, refl, sym, ap, ◌∙◌, inl, inr, Bool, true, false, ◌||◌, List, [], ◌∷◌, arith,
  eq_iff, str_eq, if◌then◌else◌, Bool-cases,
}
use mathlib.Core.Path.{subst}

abbrev pub is_directory : String → String → Bool
is_directory path d = str_eq d path

-- `shutil.rmtree(temp_dir, ignore_errors=True)`, where the path is not empty
unfoldable pub remove_directory : String → List String → List String
remove_directory path dirs = if str_eq path "" then dirs else Sql.delete (is_directory path) dirs

unfoldable pub cleanup_job : Job → World → World
unfolding remove_directory
cleanup_job job w = record w {
  directories = remove_directory job.temp_dir w.directories;
  jobs = set_expired job.job_id w.jobs;
}

unfoldable pub cleanup_jobs : List Job → World → World
unfolding cleanup_job
cleanup_jobs [] w = w
cleanup_jobs (job ∷ rest) w = cleanup_jobs rest (cleanup_job job w)

unfoldable pub sweep_expired_jobs : ℕ → World → World
unfolding cleanup_jobs
sweep_expired_jobs now w = cleanup_jobs (get_expired_jobs now w.jobs) w

-- whether a list names the id of a job
abbrev pub names : List Job → Job → Bool
names [] j = false
names (k ∷ ks) j = str_eq j.job_id k.job_id || names ks j

abbrev pub expire : Job → Job
expire j = record j { status = expired }

update_none : (jobs : List Job) → Sql.update (names []) expire jobs ≡ jobs
unfolding Sql.update
update_none [] = refl
update_none (j ∷ jobs) = ground (arith, update_none jobs)

update_more :
    (k : Job) (ks jobs : List Job)
    → Sql.update (names ks) expire (Sql.update (has_id k.job_id) expire jobs)
      ≡ Sql.update (names (k ∷ ks)) expire jobs
unfolding Sql.update
update_more k ks [] = refl
update_more k ks (j ∷ jobs) = ground (arith, names_expire ks j, update_more k ks jobs)
  where
    names_expire : (ks : List Job) (j : Job) → names ks (expire j) ≡ names ks j
    names_expire [] j = refl
    names_expire (k ∷ ks) j = ground (arith, names_expire ks j)

-- The jobs after the loop: those that the list names are expired.
jobs-cleanup :
    (ks : List Job) (w : World) → (cleanup_jobs ks w).jobs ≡ Sql.update (names ks) expire w.jobs
unfolding cleanup_jobs update_job
jobs-cleanup [] w = sym (update_none w.jobs)
jobs-cleanup (k ∷ ks) w = jobs-cleanup ks (cleanup_job k w) ∙ update_more k ks w.jobs

-- every overdue job is named
abbrev AllNamed : ℕ → List Job → List Job → Type 0
AllNamed now ks [] = Unit {0}
AllNamed now ks (j ∷ jobs) = (is_overdue now j ≡ true → names ks j ≡ true) × AllNamed now ks jobs

AllNamed-more :
    (now : ℕ) (k : Job) (ks jobs : List Job) → AllNamed now ks jobs → AllNamed now (k ∷ ks) jobs
AllNamed-more now k ks [] h = tt
AllNamed-more now k ks (j ∷ jobs) h = (λ e. ground (arith, h.0 e), AllNamed-more now k ks jobs h.1)

expired-cons :
    (now : ℕ) (j : Job) (jobs : List Job)
    → get_expired_jobs now (j ∷ jobs)
      ≡ (if is_overdue now j then j ∷ get_expired_jobs now jobs else get_expired_jobs now jobs)
unfolding get_expired_jobs Sql.select
expired-cons now j jobs = refl

AllNamed-cons :
    (now : ℕ) (j : Job) (ks jobs : List Job)
    → AllNamed now ks jobs
    → AllNamed now (if is_overdue now j then j ∷ ks else ks) (j ∷ jobs)
AllNamed-cons now j ks jobs h = elim (Bool-cases (is_overdue now j)) [
  | inl due ↦
      subst (λ b. AllNamed now (if b then j ∷ ks else ks) (j ∷ jobs)) (sym due)
        (λ e. ground (arith, eq_iff j.job_id j.job_id), AllNamed-more now j ks jobs h)
  | inr fine ↦
      subst (λ b. AllNamed now (if b then j ∷ ks else ks) (j ∷ jobs)) (sym fine)
        (λ e. absurd (ground arith), h)
]

AllNamed-expired : (now : ℕ) (jobs : List Job) → AllNamed now (get_expired_jobs now jobs) jobs
AllNamed-expired now [] = tt
AllNamed-expired now (j ∷ jobs) =
    subst (λ ks. AllNamed now ks (j ∷ jobs)) (sym (expired-cons now j jobs))
      (AllNamed-cons now j (get_expired_jobs now jobs) jobs (AllNamed-expired now jobs))

none_overdue :
    (now : ℕ) (ks jobs : List Job)
    → AllNamed now ks jobs
    → get_expired_jobs now (Sql.update (names ks) expire jobs) ≡ []
unfolding get_expired_jobs Sql.select Sql.update
none_overdue now ks [] h = refl
none_overdue now ks (j ∷ jobs) h = ground (arith, h.0, none_overdue now ks jobs h.1)

-- After a round of the sweep at `now` no job is overdue at `now`, and the round has changed of
-- the table of jobs only the status, to `expired`, of jobs whose id is that of an overdue one.
pub sweep_leaves_none :
    (now : ℕ) (w : World)
    → (get_expired_jobs now (sweep_expired_jobs now w).jobs ≡ [])
      × ((sweep_expired_jobs now w).jobs
          ≡ Sql.update (names (get_expired_jobs now w.jobs)) expire w.jobs)
unfolding sweep_expired_jobs
sweep_leaves_none now w =
    let ks = get_expired_jobs now w.jobs in
    (
      ap (get_expired_jobs now) (jobs-cleanup ks w)
          ∙ none_overdue now ks w.jobs (AllNamed-expired now w.jobs),
      jobs-cleanup ks w,
    )
