-- ===== src/Conversion/Reconvert.antt =====
-- `POST /reconvert/{parent_job_id}` of web_service/routes/reconvert.py, behind its rate limits.
-- `out_lower` is the output format that was posted, in lower case.
use ebook_automation.Raises.{Result, returned, raised, operational_error}
use ebook_automation.Crypto.{Crypto}
use ebook_automation.JobStore.Schema.{Job, is_done}
use ebook_automation.JobStore.Store.{NewJob, create_job, get_job}
use ebook_automation.JobQueue.World.{World, reconvert_attempted, log_event}
use ebook_automation.JobQueue.Sweep.{remove_directory}
use ebook_automation.Conversion.Charge.{
  HttpCode, token_rejected, db_unavailable, parent_not_found, invalid_parent_state,
  parent_source_expired, unsupported_output_format, source_copy_failed, internal_error, Response,
  accepted, http_error, Env, Charge, charged, refused, unavailable, consume_token, precheck_token,
  status_of, make_directory,
}
use ebook_automation.Conversion.Convert.{enqueue}
use ebook_automation.Common.{text_of, String, not, Option, none, some, str_eq, if◌then◌else◌}

-- the tier of `out_lower`, if the route offers the format
unfoldable pub reconvert_tier : String → Option String
reconvert_tier out_lower =
    if str_eq out_lower "kfx"
    then some "premium"
    else if str_eq out_lower "mobi"
    then some "free"
    else none

-- What was settled of a request before its child is created.
pub record Plan : Type 0 where
  pub parent_job_id : String
  pub parent : Job
  pub out_lower : String
  pub tier : String
  pub token : Option String

abbrev pub child_dir : Env → String
child_dir env = env.job_dir env.new_job_id

abbrev pub child_job : Env → Plan → Option String → NewJob
child_job env p token_hash_hex = record {
  job_id = env.new_job_id;
  tier = p.tier;
  input_fmt = p.parent.input_fmt;
  output_fmt = p.out_lower;
  temp_dir = child_dir env;
  input_path = env.input_path (child_dir env) p.parent.input_fmt;
  ttl = none;
  original_filename = p.parent.original_filename;
  parent_job_id = some p.parent_job_id;
  token_hash_hex = token_hash_hex;
}

abbrev pub drop_child : Env → World → World
drop_child env w = record w { directories = remove_directory (child_dir env) w.directories }

-- after `create_job`; an exception of it leaves the handler
unfoldable pub finish_child : Env → Plan → Result (Unit {0}) → World → Response × World
finish_child env p (raised e) w = (http_error 500 internal_error, w)
finish_child env p (returned _) w = (
  accepted env.new_job_id,
  enqueue env.new_job_id
      (log_event env.logs (reconvert_attempted p.parent_job_id env.new_job_id) w),
)

unfoldable pub create_child : Env → Plan → Option String → World → Response × World
create_child env p token_hash_hex w =
    let (r, jobs) = create_job env.ttl env.now (child_job env p token_hash_hex) w.jobs in
    if env.create_locked
    then finish_child env p (raised operational_error) w
    else finish_child env p r (record w { jobs = jobs })

unfoldable pub after_child_charge : Crypto → Env → Plan → Charge × World → Response × World
after_child_charge c env p (charged, w) =
    create_child env p (some (c.hex (c.token_hash (text_of p.token)))) w
after_child_charge c env p (refused code, w) =
    (http_error 422 (token_rejected code), drop_child env w)
after_child_charge c env p (unavailable, w) = (http_error 503 db_unavailable, drop_child env w)

-- the copy of the parent's source, and then the token
unfoldable pub stage_child : Crypto → Env → Plan → World → Response × World
stage_child c env p w =
    let v = record w { directories = make_directory (child_dir env) w.directories } in
    if not env.stages
    then (http_error 500 source_copy_failed, drop_child env v)
    else if str_eq p.tier "premium"
    then after_child_charge c env p (consume_token c env (text_of p.token) v)
    else create_child env p none v

unfoldable pub precheck_child : Crypto → Env → Plan → Option HttpCode → World → Response × World
precheck_child c env p (some code) w = (http_error (status_of code) code, w)
precheck_child c env p none w = stage_child c env p w

unfoldable pub with_tier :
    Crypto → Env → String → Job → String → Option String → Option String → World → Response × World
with_tier c env parent_job_id parent out_lower token none w =
    (http_error 422 unsupported_output_format, w)
with_tier c env parent_job_id parent out_lower token (some tier) w =
    precheck_child c env
      (record {
        parent_job_id = parent_job_id;
        parent = parent;
        out_lower = out_lower;
        tier = tier;
        token = token;
      })
      (if str_eq tier "premium" then precheck_token env token w else none) w

unfoldable pub with_parent :
    Crypto → Env → String → String → Option String → Option Job → World → Response × World
with_parent c env parent_job_id out_lower token none w = (http_error 404 parent_not_found, w)
with_parent c env parent_job_id out_lower token (some parent) w =
    if not (is_done parent.status)
    then (http_error 422 invalid_parent_state, w)
    else if not (env.exists parent.input_path)
    then (http_error 410 parent_source_expired, w)
    else with_tier c env parent_job_id parent out_lower token (reconvert_tier out_lower) w

unfoldable pub reconvert_job :
    Crypto → Env → String → String → Option String → World → Response × World
reconvert_job c env parent_job_id out_lower token w =
    with_parent c env parent_job_id out_lower token (get_job parent_job_id w.jobs) w
