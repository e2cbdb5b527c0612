-- ===== src/JobQueue/Dispatch.antt =====
-- `dispatch_job` of web_service/job_queue.py and what it calls.
use ebook_automation.Raises.{Result, returned, raised, operational_error}
use ebook_automation.Crypto.{Crypto}
use ebook_automation.JobStore.Schema.{Job}
use ebook_automation.JobStore.Store.{Telemetry, get_job, set_running, set_done, set_failed}
use ebook_automation.TokenStore.Refund.{RefundResult, refund_token}
use ebook_automation.JobQueue.World.{
  World, reconvert_succeeded, reconvert_failed, reconvert_refund_applied, premium_refund_applied,
  log_event,
}
use ebook_automation.Common.{
  ℕ, String, Bool, true, false, not, Option, none, some, if◌then◌else◌, is_truthy,
}

-- How `pipeline_runner.run_free` or `run_premium` ended: an exception with its text, a failure
-- with its message, or a conversion.
pub data RunResult : Type 0 where
  crashed : String → RunResult
  unsuccessful : String → RunResult
  converted : Telemetry → RunResult

-- What the run of one dispatch meets.
pub record Env : Type 0 where
  -- `_run_job`: the pipeline on the job as it was read
  pub run_job : Job → RunResult
  -- what other tasks do to the world while the pipeline runs, and while the refund waits for
  -- its thread
  pub while_running : World → World
  pub while_waiting : World → World
  -- `uuid.uuid4()` and `time.time()` of the refund, and whether SQLite refuses it
  pub refund_id : String
  pub refund_time : ℕ
  pub refund_locked : Bool
  -- whether SQLite refuses to read the job, to write that it runs, and to write how it ended
  pub read_locked : Bool
  pub start_locked : Bool
  pub end_locked : Bool
  -- whether the event rows are written
  pub logs : Bool

unfoldable pub maybe_emit_reconvert_outcome : Bool → Job → Bool → World → World
maybe_emit_reconvert_outcome logs job succeeded w =
    if not (is_truthy job.parent_job_id)
    then w
    else log_event logs
        (if succeeded then reconvert_succeeded job.job_id else reconvert_failed job.job_id) w

-- the event of a refund that returned
unfoldable pub emit_refund : Bool → Job → Result RefundResult → World → World
emit_refund logs job (raised e) w = w
emit_refund logs job (returned r) w =
    log_event logs
      (if is_truthy job.parent_job_id
        then reconvert_refund_applied job.job_id r.refunded
        else premium_refund_applied job.job_id r.refunded)
      w

-- the refund on its thread: an error of SQLite is logged and goes no further
unfoldable pub refund_in_billing : Env → Job → String → ℕ → World → World
refund_in_billing env job reason h w =
    if env.refund_locked
    then w
    else let (r, db) = refund_token h job.job_id reason env.refund_id env.refund_time w.tokens in
      emit_refund env.logs job r (record w { tokens = db })

unfoldable pub refund_digest : Env → Job → String → Option ℕ → World → World
refund_digest env job reason none w = w
refund_digest env job reason (some h) w = refund_in_billing env job reason h (env.while_waiting w)

abbrev pub hex_digest : Crypto → Option String → Option ℕ
hex_digest c none = none
hex_digest c (some t) = c.from_hex t

unfoldable pub maybe_refund_failed_job : Crypto → Env → Job → String → World → World
maybe_refund_failed_job c env job reason w =
    if not (is_truthy job.token_hash)
    then w
    else if not w.billing_ready
    then w
    else refund_digest env job reason (hex_digest c job.token_hash) w

-- how the run of a dispatch ends, that returns nothing
abbrev pub Ended : Type 0
Ended = Result (Unit {0})

-- after the pipeline, once SQLite takes the job's status
unfoldable pub settle : Crypto → Env → String → Job → RunResult → World → World
settle c env id job (crashed msg) w = maybe_emit_reconvert_outcome env.logs job false (
    maybe_refund_failed_job c env job "dispatch_exception"
      (record w { jobs = set_failed id msg w.jobs }))
settle c env id job (unsuccessful msg) w = maybe_emit_reconvert_outcome env.logs job false (
    maybe_refund_failed_job c env job "pipeline_failed"
      (record w { jobs = set_failed id msg w.jobs }))
settle c env id job (converted t) w =
    maybe_emit_reconvert_outcome env.logs job true (record w { jobs = set_done id t w.jobs })

-- after the pipeline: `set_failed` and `set_done` raise where SQLite is locked, and nothing of the
-- rest is done
unfoldable pub settle_run : Crypto → Env → String → Job → RunResult → World → Ended × World
settle_run c env id job r w =
    if env.end_locked then (raised operational_error, w) else (returned tt, settle c env id job r w)

-- with a slot of the semaphore and the row that was read
unfoldable pub run_found : Crypto → Env → String → Option Job → World → Ended × World
run_found c env id none w = (returned tt, w)
run_found c env id (some job) w =
    if env.start_locked
    then (raised operational_error, w)
    else settle_run c env id job (env.run_job job)
        (env.while_running (record w { jobs = set_running id w.jobs }))

abbrev pub not_initialised : String
not_initialised = "Internal error: queue not initialised"

-- where the queue is not initialised
abbrev pub fail_uninitialised : Env → String → World → Ended × World
fail_uninitialised env id w =
    if env.end_locked
    then (raised operational_error, w)
    else (returned tt, record w { jobs = set_failed id not_initialised w.jobs })

unfoldable pub dispatch_job : Crypto → Env → String → World → Ended × World
dispatch_job c env id w =
    if not w.queue_ready
    then fail_uninitialised env id w
    else if env.read_locked
    then (raised operational_error, w)
    else run_found c env id (get_job id w.jobs) w
