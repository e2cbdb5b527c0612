-- ===== src/Conversion/Convert.antt =====
-- `POST /convert` of web_service/routes/convert.py.
use ebook_automation.Raises.{Result, returned, raised, operational_error, other_error}
use ebook_automation.Crypto.{Crypto}
use ebook_automation.TokenStore.Refund.{RefundResult, refund_token}
use ebook_automation.JobStore.Store.{NewJob, create_job}
use ebook_automation.JobQueue.World.{World, premium_refund_applied, log_event}
use ebook_automation.JobQueue.Sweep.{remove_directory}
use ebook_automation.Conversion.Upload.{valid, invalid, ValidationResult, validate_upload}
use ebook_automation.Conversion.Charge.{
  HttpCode, upload_rejected, token_rejected, db_unavailable, job_setup_failed,
  job_setup_failed_refund_unconfirmed, Response, accepted, http_error, Env, Charge, charged,
  refused, unavailable, consume_token, precheck_token, status_of, make_directory,
}
use ebook_automation.Common.{
  text_of, ℕ, String, Bool, false, not, ◌||◌, Option, none, some, [], ◌∷◌, ◌++◌, str_eq,
  if◌then◌else◌, is_truthy,
}

-- The form that was posted, and what `filetype` and `pathlib` read of its file.
pub record Upload : Type 0 where
  pub mime : Option String
  pub ext : String
  pub file_size : ℕ
  pub filename : Option String
  pub output_format : String
  pub tier : String
  pub token : Option String

abbrev pub new_job : Env → Upload → String → Option String → NewJob
new_job env u detected_fmt token_hash_hex =
    let dir = env.job_dir env.new_job_id in
    record {
      job_id = env.new_job_id;
      tier = u.tier;
      input_fmt = detected_fmt;
      output_fmt = u.output_format;
      temp_dir = dir;
      input_path = env.input_path dir detected_fmt;
      ttl = none;
      original_filename = if is_truthy u.filename then u.filename else none;
      parent_job_id = none;
      token_hash_hex = token_hash_hex;
    }

-- `_refund_after_setup_failure`, after `refund_token` returned or raised
unfoldable pub confirm_refund : Bool → String → Result RefundResult → World → Bool × World
confirm_refund logs job_id (raised e) w = (false, w)
confirm_refund logs job_id (returned r) w =
    (r.refunded || r.ledgered, log_event logs (premium_refund_applied job_id r.refunded) w)

unfoldable pub refund_setup : Env → Option ℕ → World → Bool × World
refund_setup env none w = (false, w)
refund_setup env (some h) w =
    let v = env.while_refunding w in
    let (r, db) =
      refund_token h env.new_job_id "convert_setup_failed" env.refund_id env.refund_time v.tokens in
    if not w.billing_ready
    then (false, w)
    else if env.refund_locked
    then (false, v)
    else confirm_refund env.logs env.new_job_id r (record v { tokens = db })

-- `_refund_after_setup_failure`
unfoldable pub refund_after_setup_failure : Crypto → Env → String → World → Bool × World
refund_after_setup_failure c env token_hash_hex w = refund_setup env (c.from_hex token_hash_hex) w

abbrev pub answer_refund : Bool × World → Response × World
answer_refund (confirmed, w) = (
  http_error 500 (if confirmed then job_setup_failed else job_setup_failed_refund_unconfirmed),
  w,
)

-- the `except Exception` of the setup, with the directory removed
unfoldable pub fail_setup : Crypto → Env → Option String → World → Response × World
fail_setup c env none w = (http_error 500 job_setup_failed, w)
fail_setup c env (some t) w =
    if str_eq t ""
    then (http_error 500 job_setup_failed, w)
    else answer_refund (refund_after_setup_failure c env t w)

-- the directory, the input file and the row of the job
unfoldable pub set_up : Env → Upload → String → Option String → World → Result (Unit {0}) × World
set_up env u detected_fmt token_hash_hex w =
    let v = record w { directories = make_directory (env.job_dir env.new_job_id) w.directories } in
    let (r, jobs) = create_job env.ttl env.now (new_job env u detected_fmt token_hash_hex) w.jobs in
    if not env.stages
    then (raised other_error, v)
    else if env.create_locked
    then (raised operational_error, v)
    else (r, record v { jobs = jobs })

abbrev pub enqueue : String → World → World
enqueue job_id w = record w { dispatched = w.dispatched ++ job_id ∷ [] }

unfoldable pub finish_setup :
    Crypto → Env → Option String → Result (Unit {0}) × World → Response × World
finish_setup c env token_hash_hex (returned _, w) =
    (accepted env.new_job_id, enqueue env.new_job_id w)
finish_setup c env token_hash_hex (raised _, w) =
    fail_setup c env token_hash_hex
      (record w { directories = remove_directory (env.job_dir env.new_job_id) w.directories })

unfoldable pub start_job : Crypto → Env → Upload → String → Option String → World → Response × World
start_job c env u detected_fmt token_hash_hex w =
    finish_setup c env token_hash_hex (set_up env u detected_fmt token_hash_hex w)

unfoldable pub after_charge :
    Crypto → Env → Upload → String → String → Charge × World → Response × World
after_charge c env u detected_fmt token (charged, w) =
    start_job c env u detected_fmt (some (c.hex (c.token_hash token))) w
after_charge c env u detected_fmt token (refused code, w) =
    (http_error 422 (token_rejected code), w)
after_charge c env u detected_fmt token (unavailable, w) = (http_error 503 db_unavailable, w)

unfoldable pub charge_premium :
    Crypto → Env → Upload → String → Option HttpCode → World → Response × World
charge_premium c env u detected_fmt (some code) w = (http_error (status_of code) code, w)
charge_premium c env u detected_fmt none w =
    let token = text_of u.token in
    after_charge c env u detected_fmt token (consume_token c env token w)

-- past the validation of the file
unfoldable pub convert_valid : Crypto → Env → Upload → ValidationResult → World → Response × World
convert_valid c env u (invalid code status) w = (http_error status (upload_rejected code), w)
convert_valid c env u (valid detected_fmt) w =
    if str_eq u.tier "premium"
    then charge_premium c env u detected_fmt (precheck_token env u.token w) w
    else start_job c env u detected_fmt none w

unfoldable pub convert_file : Crypto → Env → Upload → World → Response × World
convert_file c env u w =
    convert_valid c env u
      (validate_upload env.settings u.mime u.ext u.file_size u.output_format u.tier) w
