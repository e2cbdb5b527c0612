-- ===== src/Conversion/Charge.antt =====
-- What the two routes share: the answers, what a request meets, and the consume of the token.
use ebook_automation.Sql
use ebook_automation.Crypto.{Crypto}
use ebook_automation.CircuitBreaker.{db_call_failed, db_call_succeeded, circuit_is_open}
use ebook_automation.TokenFormat.{validate_token_format}
use ebook_automation.TokenStore.Consume.{
  ErrorCode, malformed, TokenValidationResult, valid, invalid, validate_and_consume,
}
use ebook_automation.JobStore.Store.{Ttl}
use ebook_automation.JobQueue.World.{World}
use ebook_automation.Conversion.Upload.{ValidationErrorCode, Settings}
use ebook_automation.Common.{
  ℕ, String, Bool, not, Option, none, some, List, str_eq, ◌==◌, if◌then◌else◌, codes,
}

-- The `code` of an HTTP error's detail; `internal_error` is an exception that no handler catches.
pub data HttpCode : Type 0 where
  upload_rejected : ValidationErrorCode → HttpCode
  missing_token db_unavailable : HttpCode
  token_rejected : ErrorCode → HttpCode
  job_setup_failed job_setup_failed_refund_unconfirmed : HttpCode
  parent_not_found invalid_parent_state parent_source_expired : HttpCode
  unsupported_output_format source_copy_failed internal_error : HttpCode

pub data Response : Type 0 where
  accepted : String → Response
  http_error : ℕ → HttpCode → Response

pub record Env : Type 0 where
  pub settings : Settings
  pub ttl : Ttl
  -- `time.time()` of the statements, and `time.monotonic()` of the circuit breaker
  pub now : ℕ
  pub monotonic : ℕ
  pub new_job_id : String
  -- the paths of a job's directory and of the input file in it
  pub job_dir : String → String
  pub input_path : String → String → String
  pub exists : String → Bool
  -- whether the directory and the file in it could be written, whether SQLite is locked when the
  -- token is consumed, when the job is created and when the token is refunded, and whether event
  -- rows are written
  pub stages : Bool
  pub consume_locked : Bool
  pub create_locked : Bool
  pub refund_locked : Bool
  pub logs : Bool
  -- `uuid.uuid4()` and `time.time()` of a refund
  pub refund_id : String
  pub refund_time : ℕ
  -- what other tasks do to the world before and after the consume, and before the refund, while
  -- the request waits for the thread
  pub while_waiting : World → World
  pub while_resuming : World → World
  pub while_refunding : World → World

-- How the consume of a token ended.
pub data Charge : Type 0 where
  charged : Charge
  refused : ErrorCode → Charge
  unavailable : Charge

unfoldable pub settle_consume : TokenValidationResult → World → Charge × World
settle_consume valid w = (charged, record w { breaker = db_call_succeeded w.breaker })
settle_consume (invalid e) w = (refused e.code, w)

-- the call of `validate_and_consume` on its thread
unfoldable pub consume_token : Crypto → Env → String → World → Charge × World
consume_token c env token w =
    let v = env.while_waiting w in
    let (r, db) = validate_and_consume c token env.now v.tokens in
    if env.consume_locked
    then (unavailable, record v { breaker = db_call_failed env.monotonic v.breaker })
    else settle_consume r (env.while_resuming (record v { tokens = db }))

-- the checks before the consume: a token, of the right format, and a closed circuit
unfoldable pub precheck_token : Env → Option String → World → Option HttpCode
precheck_token env none w = some missing_token
precheck_token env (some token) w =
    if str_eq token ""
    then some missing_token
    else if not (validate_token_format (codes token))
    then some (token_rejected malformed)
    else if circuit_is_open env.monotonic w.breaker
    then some db_unavailable
    else none

abbrev pub status_of : HttpCode → ℕ
status_of db_unavailable = 503
status_of _ = 422

-- `Path.mkdir(parents=True, exist_ok=True)`
unfoldable pub make_directory : String → List String → List String
make_directory path dirs =
    if Sql.rowcount (λ d. str_eq d path) dirs == 0 then Sql.insert path dirs else dirs
