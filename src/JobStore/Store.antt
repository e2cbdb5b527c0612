-- ===== src/JobStore/Store.antt =====
-- The statements of web_service/job_store.py on the table of jobs.
use ebook_automation.Raises.{Result, returned, raised, integrity_error}
use ebook_automation.Sql
use ebook_automation.JobStore.Schema.{
  Job, queued, running, done, failed, expired, Delivery, is_expired, has_id,
}
use ebook_automation.Common.{
  ℕ, ◌+◌, String, Bool, not, ◌&&◌, Option, none, some, List, str_eq, leb, ◌==◌, if◌then◌else◌,
  is_text,
}

-- the two limits of `get_settings()` that `create_job` reads
pub record Ttl : Type 0 where
  pub job_ttl_free : ℕ
  pub job_ttl_premium : ℕ

-- the arguments of `create_job`
pub record NewJob : Type 0 where
  pub job_id : String
  pub tier : String
  pub input_fmt : String
  pub output_fmt : String
  pub temp_dir : String
  pub input_path : String
  pub ttl : Option ℕ
  pub original_filename : Option String
  pub parent_job_id : Option String
  pub token_hash_hex : Option String

unfoldable pub ttl_of : Ttl → NewJob → ℕ
ttl_of settings n = elim n.ttl [
  | some t ↦ t
  | none ↦ if str_eq n.tier "free" then settings.job_ttl_free else settings.job_ttl_premium
]

abbrev pub queued_job : Ttl → ℕ → NewJob → Job
queued_job settings now n = record {
  job_id = n.job_id;
  status = queued;
  tier = n.tier;
  input_fmt = n.input_fmt;
  output_fmt = n.output_fmt;
  token_hash = n.token_hash_hex;
  created_at = now;
  expires_at = now + ttl_of settings n;
  error_msg = none;
  input_path = n.input_path;
  output_path = none;
  output_size = none;
  temp_dir = n.temp_dir;
  gemini_cost_usd = 0;
  vqa_score = none;
  vqa_pass = none;
  vqa_cost_usd = 0;
  vqa_skipped_reason = none;
  original_filename = n.original_filename;
  parent_job_id = n.parent_job_id;
  resend_message_id = none;
  kindle_delivery_status = none;
}

-- `job_id` is the primary key.
unfoldable pub create_job : Ttl → ℕ → NewJob → List Job → Result (Unit {0}) × List Job
create_job settings now n jobs =
    if Sql.rowcount (has_id n.job_id) jobs == 0
    then (returned tt, Sql.insert (queued_job settings now n) jobs)
    else (raised integrity_error, jobs)

unfoldable pub get_job : String → List Job → Option Job
get_job id jobs = Sql.fetch_one (has_id id) jobs

-- `UPDATE jobs SET f WHERE job_id = ?`
unfoldable pub update_job : String → (Job → Job) → List Job → List Job
update_job id f jobs = Sql.update (has_id id) f jobs

abbrev pub set_running : String → List Job → List Job
set_running id = update_job id (λ j. record j { status = running })

-- what `set_done` is told of a conversion
pub record Telemetry : Type 0 where
  pub output_path : String
  pub output_size : ℕ
  pub gemini_cost_usd : ℕ
  pub vqa_score : Option ℕ
  pub vqa_pass : Option Bool
  pub vqa_cost_usd : ℕ
  pub vqa_skipped_reason : Option String

abbrev pub set_done : String → Telemetry → List Job → List Job
set_done id t = update_job id (λ j. record j {
  status = done;
  output_path = some t.output_path;
  output_size = some t.output_size;
  gemini_cost_usd = t.gemini_cost_usd;
  vqa_score = t.vqa_score;
  vqa_pass = t.vqa_pass;
  vqa_cost_usd = t.vqa_cost_usd;
  vqa_skipped_reason = t.vqa_skipped_reason;
})

abbrev pub set_failed : String → String → List Job → List Job
set_failed id msg = update_job id (λ j. record j { status = failed; error_msg = some msg })

abbrev pub set_expired : String → List Job → List Job
set_expired id = update_job id (λ j. record j { status = expired })

abbrev pub is_overdue : ℕ → Job → Bool
is_overdue now j = leb j.expires_at now && not (is_expired j.status)

unfoldable pub get_expired_jobs : ℕ → List Job → List Job
get_expired_jobs now jobs = Sql.select (is_overdue now) jobs

unfoldable pub purge_job : String → List Job → List Job
purge_job id jobs = Sql.delete (has_id id) jobs

abbrev pub update_kindle_delivery_status : String → Delivery → List Job → List Job
update_kindle_delivery_status id status =
    update_job id (λ j. record j { kindle_delivery_status = some status })

abbrev pub set_resend_message_id : String → String → List Job → List Job
set_resend_message_id id message_id =
    update_job id (λ j. record j { resend_message_id = some message_id })

-- The second definition of this name in the file, which is the one that Python keeps.
unfoldable pub find_by_resend_message_id : String → List Job → Option Job
find_by_resend_message_id message_id jobs =
    Sql.fetch_one (λ j. is_text j.resend_message_id message_id) jobs
