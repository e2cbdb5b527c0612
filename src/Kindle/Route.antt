-- ===== src/Kindle/Route.antt =====
-- `POST /send-to-kindle/{job_id}` of web_service/routes/send_to_kindle.py.
use ebook_automation.JobStore.Schema.{Job, is_done, accepted_by_resend}
use ebook_automation.JobStore.Store.{get_job, update_job}
use ebook_automation.JobQueue.World.{
  World, send_to_kindle_attempted, send_to_kindle_rejected_by_validation,
  send_to_kindle_accepted_by_resend, send_to_kindle_send_error, kindle_send_invariant_violation,
  log_event,
}
use ebook_automation.Kindle.Validation.{
  KindleErrorCode, KindleValidationResult, valid, invalid, validate_kindle_recipient,
  validate_kindle_format, validate_kindle_attachment_size,
}
use ebook_automation.Kindle.Claims.{try_claim, mark_claim_sent, release_claim}
use ebook_automation.Common.{
  ℕ, String, Bool, true, false, not, Option, none, some, List, [], ◌∷◌, ◌++◌, str_eq, if◌then◌else◌,
}

-- The `code` of an HTTP error's detail.
pub data HttpCode : Type 0 where
  service_disabled job_not_found invalid_job_state output_expired : HttpCode
  rejected : KindleErrorCode → HttpCode
  invariant_violation send_failed : HttpCode

-- `uncaught` is an exception that the route lets through, which the framework answers with 500.
pub data Response : Type 0 where
  sent already_sent uncaught : Response
  http_error : ℕ → HttpCode → Response

-- How `email_client.send_with_attachment` ended: accepted under a message id, or an exception
-- (a `KindleSendError` or any other: the route treats the two alike), which says whether the mail
-- went out all the same, as where the provider's answer is lost.
pub data SendResult : Type 0 where
  accepted : String → SendResult
  send_error : Bool → SendResult

-- What one request meets: the settings, the file system, the libraries and the mail provider.
pub record Env : Type 0 where
  pub send_to_kindle_enabled : Bool
  -- `_now()`
  pub now : ℕ
  -- `Path.exists`, `stat().st_size`, and whether the path resolves inside `settings.temp_dir`
  -- without an `OSError`
  pub exists : String → Bool
  pub size : String → ℕ
  pub is_inside : String → Bool
  -- `email.utils.parseaddr` and SHA-256
  pub parseaddr : List ℕ → List ℕ × List ℕ
  pub sha256 : List ℕ → ℕ
  pub send : String → List ℕ → SendResult
  -- what other requests do to the world while the provider is called
  pub while_sending : World → World
  -- whether SQLite refuses to read the job, to claim, to release the claim and to mark it as sent
  pub read_locked : Bool
  pub claim_locked : Bool
  pub release_locked : Bool
  pub mark_locked : Bool
  -- whether the message id could be stored, and whether the event rows are written
  pub persists : Bool
  pub logs : Bool

-- `_persist_resend_message_id`
unfoldable pub persist_resend_message_id : String → String → List Job → List Job
persist_resend_message_id id message_id = update_job id (λ j. record j {
  resend_message_id = some message_id;
  kindle_delivery_status = some accepted_by_resend;
})

-- the mail that went out
abbrev pub mail : String → List ℕ → World → World
mail id normalized w = record w { outbox = w.outbox ++ (id, normalized) ∷ [] }

-- after an exception of the provider's client; an error of `_release_claim` is not caught
unfoldable pub fail_send : Env → String → ℕ → World → Response × World
fail_send env id h w = if env.release_locked then (uncaught, w) else (
  http_error 502 send_failed,
  log_event env.logs (send_to_kindle_send_error id)
      (record w { claims = release_claim id h w.claims }),
)

-- after the provider accepted the mail; an error of `_mark_claim_sent` is not caught
unfoldable pub confirm_send : Env → String → ℕ → String → World → Response × World
unfolding persist_resend_message_id
confirm_send env id h message_id w = if env.mark_locked then (uncaught, w) else (
  sent,
  log_event env.logs (send_to_kindle_accepted_by_resend id env.persists) (record w {
    claims = mark_claim_sent id h w.claims;
    jobs = if env.persists then persist_resend_message_id id message_id w.jobs else w.jobs;
  }),
)

-- after the provider was called
unfoldable pub finish_send : Env → String → ℕ → List ℕ → SendResult → World → Response × World
finish_send env id h normalized (send_error true) w = fail_send env id h (mail id normalized w)
finish_send env id h normalized (send_error false) w = fail_send env id h w
finish_send env id h normalized (accepted message_id) w =
    confirm_send env id h message_id (mail id normalized w)

-- from the atomic claim on
unfoldable pub claim_and_send : Env → String → List ℕ → World → Response × World
claim_and_send env id normalized w =
    let h = env.sha256 normalized in
    let (claimed, claims) = try_claim id h env.now w.claims in
    if env.claim_locked
    then (uncaught, w)
    else if not claimed
    then (already_sent, w)
    else finish_send env id h normalized (env.send id normalized)
        (env.while_sending (record w { claims = claims }))

unfoldable pub reject : Env → String → KindleErrorCode → World → Response × World
reject env id code w = (
  http_error 422 (rejected code),
  log_event env.logs (send_to_kindle_rejected_by_validation id) w,
)

-- the check that the output lies inside the directory of temporary files
unfoldable pub check_boundary : Env → String → String → List ℕ → World → Response × World
check_boundary env id output_path normalized w =
    if not (env.is_inside output_path)
    then (
      http_error 500 invariant_violation,
      log_event env.logs (kindle_send_invariant_violation id) w,
    )
    else claim_and_send env id normalized w

unfoldable pub check_size :
    Env → String → String → List ℕ → KindleValidationResult → World → Response × World
check_size env id output_path normalized (invalid code) w = reject env id code w
check_size env id output_path normalized (valid _) w =
    check_boundary env id output_path normalized w

unfoldable pub check_format :
    Env → String → String → List ℕ → KindleValidationResult → World → Response × World
check_format env id output_path normalized (invalid code) w = reject env id code w
check_format env id output_path normalized (valid _) w =
    check_size env id output_path normalized
      (validate_kindle_attachment_size (env.size output_path)) w

unfoldable pub check_recipient :
    Env → Job → String → String → KindleValidationResult → World → Response × World
check_recipient env job id output_path (invalid code) w = reject env id code w
check_recipient env job id output_path (valid normalized) w =
    check_format env id output_path normalized (validate_kindle_format job.output_fmt) w

-- past the feature gate, with the job's row
unfoldable pub send_output : Env → Job → String → List ℕ → Option String → World → Response × World
send_output env job id recipient none w = (http_error 410 output_expired, w)
send_output env job id recipient (some output_path) w =
    if str_eq output_path ""
    then (http_error 410 output_expired, w)
    else if not (env.exists output_path)
    then (http_error 410 output_expired, w)
    else check_recipient env job id output_path (validate_kindle_recipient env.parseaddr recipient)
        (log_event env.logs (send_to_kindle_attempted id) w)

unfoldable pub send_job : Env → String → List ℕ → Option Job → World → Response × World
send_job env id recipient none w = (http_error 404 job_not_found, w)
send_job env id recipient (some job) w =
    if not (is_done job.status)
    then (http_error 422 invalid_job_state, w)
    else send_output env job id recipient job.output_path w

unfoldable pub send_to_kindle : Env → String → List ℕ → World → Response × World
send_to_kindle env id recipient w =
    if not env.send_to_kindle_enabled
    then (http_error 503 service_disabled, w)
    else if env.read_locked
    then (uncaught, w)
    else send_job env id recipient (get_job id w.jobs) w
