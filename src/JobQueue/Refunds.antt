-- ===== src/JobQueue/Refunds.antt =====
-- What a dispatch does to the tokens, and to the job's row.
use ebook_automation.Raises.{Result, returned, raised, operational_error}
use ebook_automation.Sql
use ebook_automation.Crypto.{Crypto}
use ebook_automation.JobStore.Schema.{Job}
use ebook_automation.JobStore.Store.{get_job, set_running, set_failed}
use ebook_automation.TokenStore.Schema.{TokenRow, Db, IsKeyed}
use ebook_automation.TokenStore.Consume.{valid, consume_hash}
use ebook_automation.TokenStore.Outcomes.{row_of}
use ebook_automation.TokenStore.Refund.{RefundResult, refund_token, has_refund_id}
use ebook_automation.TokenStore.Reversal.{IsClean, expires_after, refund_restores}
use ebook_automation.JobQueue.World.{World}
use ebook_automation.JobQueue.Dispatch.{
  RunResult, crashed, unsuccessful, converted, Env, maybe_emit_reconvert_outcome, emit_refund,
  refund_in_billing, refund_digest, maybe_refund_failed_job, Ended, settle, settle_run, run_found,
  dispatch_job,
}
use ebook_automation.Common.{
  ℕ, String, ◌≡◌, refl, ap, ◌∙◌, inl, inr, Bool, true, false, ◌||◌, some, List, arith,
  if◌then◌else◌, Bool-cases,
}

-- Whether a run converted the job.
abbrev pub is_converted : RunResult → Bool
is_converted (crashed _) = false
is_converted (unsuccessful _) = false
is_converted (converted _) = true

-- The other tasks leave the tokens and the billing pool alone.
abbrev pub IsQuiet : (World → World) → Type 0
IsQuiet f = (w : World) → ((f w).tokens ≡ w.tokens) × ((f w).billing_ready ≡ w.billing_ready)

pub tokens-emit_outcome :
    (b : Bool) (job : Job) (s : Bool) (w : World)
    → (maybe_emit_reconvert_outcome b job s w).tokens ≡ w.tokens
unfolding maybe_emit_reconvert_outcome
tokens-emit_outcome b job s w = ground arith

tokens-emit_refund :
    (b : Bool) (job : Job) (r : Result RefundResult) (w : World)
    → (emit_refund b job r w).tokens ≡ w.tokens
unfolding emit_refund
tokens-emit_refund b job (returned r) w = ground arith
tokens-emit_refund b job (raised e) w = refl

tokens-in_billing :
    (env : Env) (job : Job) (reason : String) (h : ℕ) (w : World)
    → env.refund_locked ≡ false
    → (refund_in_billing env job reason h w).tokens
      ≡ (refund_token h job.job_id reason env.refund_id env.refund_time w.tokens).1
unfolding refund_in_billing
tokens-in_billing env job reason h w unlocked =
    let (r, db) = refund_token h job.job_id reason env.refund_id env.refund_time w.tokens in
    rw unlocked (tokens-emit_refund env.logs job r (record w { tokens = db }))

-- The tokens after the refund of a failed job that carries the digest `h`.
tokens-refund :
    (c : Crypto) (env : Env) (job : Job) (reason : String) (h : ℕ) (w : World)
    → job.token_hash ≡ some (c.hex h)
    → w.billing_ready ≡ true
    → env.refund_locked ≡ false
    → IsQuiet env.while_waiting
    → (maybe_refund_failed_job c env job reason w).tokens
      ≡ (refund_token h job.job_id reason env.refund_id env.refund_time w.tokens).1
unfolding maybe_refund_failed_job refund_digest
tokens-refund c env job reason h w carries billing unlocked quiet =
    simp (carries, c.hex_nonempty h, billing, c.from_hex-hex h)
      (tokens-in_billing env job reason h (env.while_waiting w) unlocked
        ∙ ap (λ db. (refund_token h job.job_id reason env.refund_id env.refund_time db).1)
            (quiet w).0)

-- The reason under which a failure is refunded.
abbrev pub reason_of : RunResult → String
reason_of (crashed _) = "dispatch_exception"
reason_of (unsuccessful _) = "pipeline_failed"
reason_of (converted _) = ""

tokens-settle :
    (c : Crypto) (env : Env) (id : String) (job : Job) (r : RunResult) (h : ℕ) (w : World)
    → is_converted r ≡ false
    → job.token_hash ≡ some (c.hex h)
    → w.billing_ready ≡ true
    → env.refund_locked ≡ false
    → IsQuiet env.while_waiting
    → (settle c env id job r w).tokens
      ≡ (refund_token h job.job_id (reason_of r) env.refund_id env.refund_time w.tokens).1
unfolding settle
tokens-settle c env id job (crashed msg) h w bad carries billing unlocked quiet =
    let w' = record w { jobs = set_failed id msg w.jobs } in
    let refunded = maybe_refund_failed_job c env job "dispatch_exception" w' in
    tokens-emit_outcome env.logs job false refunded
    ∙ tokens-refund c env job "dispatch_exception" h w' carries billing unlocked quiet
tokens-settle c env id job (unsuccessful msg) h w bad carries billing unlocked quiet =
    let w' = record w { jobs = set_failed id msg w.jobs } in
    let refunded = maybe_refund_failed_job c env job "pipeline_failed" w' in
    tokens-emit_outcome env.logs job false refunded
    ∙ tokens-refund c env job "pipeline_failed" h w' carries billing unlocked quiet
tokens-settle c env id job (converted t) h w bad carries billing unlocked quiet = cc

-- Whether SQLite refuses a read or a write of the job's row, so that the dispatch raises.
abbrev pub is_refused : Env → Bool
is_refused env = env.read_locked || (env.start_locked || env.end_locked)

-- the world when the pipeline has ended
abbrev pub after_run : Env → String → World → World
after_run env id w = env.while_running (record w { jobs = set_running id w.jobs })

-- A dispatch with the queue up, of a job that is there.
pub dispatch_found :
    (c : Crypto) (env : Env) (id : String) (job : Job) (w : World)
    → w.queue_ready ≡ true
    → get_job id w.jobs ≡ some job
    → is_refused env ≡ false
    → dispatch_job c env id w
      ≡ (returned tt, settle c env id job (env.run_job job) (after_run env id w))
unfolding dispatch_job run_found settle_run
dispatch_found c env id job w ready found free = ground (arith, free)

-- One that SQLite refuses raises, and leaves the tokens that the other tasks leave.
pub dispatch_refused :
    (c : Crypto) (env : Env) (id : String) (job : Job) (w : World)
    → w.queue_ready ≡ true
    → get_job id w.jobs ≡ some job
    → is_refused env ≡ true
    → IsQuiet env.while_running
    → ((dispatch_job c env id w).0 ≡ raised operational_error)
      × ((dispatch_job c env id w).1.tokens ≡ w.tokens)
unfolding dispatch_job run_found settle_run
dispatch_refused c env id job w ready found refused calm =
    let same = (calm (record w { jobs = set_running id w.jobs })).0 in
    (ground (arith, refused), ground (arith, refused, same))

-- Where the queue and the billing pool are up, other tasks leave the tokens alone and SQLite is not
-- locked: a dispatch of a job that carries a token's digest, and whose pipeline fails or crashes,
-- leaves the tokens that a refund of the digest leaves.
pub dispatch_refunds :
    (c : Crypto) (env : Env) (id : String) (job : Job) (h : ℕ) (w : World)
    → w.queue_ready ≡ true
    → w.billing_ready ≡ true
    → get_job id w.jobs ≡ some job
    → is_refused env ≡ false
    → job.token_hash ≡ some (c.hex h)
    → is_converted (env.run_job job) ≡ false
    → env.refund_locked ≡ false
    → IsQuiet env.while_running
    → IsQuiet env.while_waiting
    → (dispatch_job c env id w).1.tokens
      ≡ (refund_token h job.job_id
          (reason_of (env.run_job job))
          env.refund_id
          env.refund_time
          w.tokens).1
dispatch_refunds c env id job h w ready billing found free carries bad unlocked calm quiet =
    let w' = record w { jobs = set_running id w.jobs } in
    let r = env.run_job job in
    ap (λ (x : Ended × World). x.1.tokens) (dispatch_found c env id job w ready found free)
    ∙ (tokens-settle c env id job r h (env.while_running w') bad carries ((calm w').1 ∙ billing)
          unlocked quiet
        ∙ ap (λ db. (refund_token h job.job_id (reason_of r) env.refund_id env.refund_time db).1)
            (calm w').0)

-- how a dispatch ends, and the rows of the tokens that it leaves
abbrev pub Leaves : Ended × World → Ended → List TokenRow → Type 0
Leaves (e, w) end rows = (e ≡ end) × (w.tokens.tokens ≡ rows)

-- A premium conversion that fails or crashes costs nothing, if SQLite takes the job's status: if
-- the tokens are what a successful `consume_hash` left, the job carries the digest, the token has
-- not expired when the refund runs and the refund's id is new, the dispatch returns and leaves the
-- rows of the tokens as they were before the consume. Where SQLite refuses to read the job, to
-- write that it runs or to write that it failed, the dispatch raises before the refund and the
-- token stays consumed. It is assumed that before the consume no digest stood in two rows and no
-- unused row had a time of use, that the queue and the billing pool are up, that SQLite takes the
-- refund, and that other tasks leave the tokens and the billing pool alone meanwhile.
pub failed_job_costs_nothing :
    (c : Crypto) (env : Env) (id : String) (job : Job) (h now : ℕ) (db : Db) (w : World)
    → IsKeyed db
    → IsClean db.tokens
    → (consume_hash h now db).0 ≡ valid
    → w.tokens ≡ (consume_hash h now db).1
    → expires_after env.refund_time (row_of h db) ≡ true
    → Sql.rowcount (has_refund_id env.refund_id) db.refund_ledger ≡ 0
    → w.queue_ready ≡ true
    → w.billing_ready ≡ true
    → get_job id w.jobs ≡ some job
    → job.token_hash ≡ some (c.hex h)
    → is_converted (env.run_job job) ≡ false
    → env.refund_locked ≡ false
    → IsQuiet env.while_running
    → IsQuiet env.while_waiting
    → Leaves
        (dispatch_job c env id w)
        (if is_refused env then raised operational_error else returned tt)
        (if is_refused env then (consume_hash h now db).1.tokens else db.tokens)
failed_job_costs_nothing c env id job h now db w keyed clean ok consumed alive fresh ready billing
      found carries bad unlocked calm quiet =
    let reason = reason_of (env.run_job job) in
    elim (Bool-cases (is_refused env)) [
      | inl refused ↦
          let r = dispatch_refused c env id job w ready found refused calm in
          rw refused (r.0, ap (λ (d : Db). d.tokens) (r.1 ∙ consumed))
      | inr free ↦ rw free (
        ap (λ (x : Ended × World). x.0) (dispatch_found c env id job w ready found free),
        ap (λ (d : Db). d.tokens)
              (dispatch_refunds c env id job h w ready billing found free carries bad unlocked calm
                quiet)
            ∙ ap (λ d. (refund_token h job.job_id reason env.refund_id env.refund_time d).1.tokens)
                consumed
            ∙ (refund_restores h now env.refund_time job.job_id reason env.refund_id db keyed clean
                ok alive fresh).1,
      )
    ]
