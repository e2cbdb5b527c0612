-- ===== src/JobQueue/FreeJobs.antt =====
-- What the dispatch of a job without a token does to the tokens.
use ebook_automation.Crypto.{Crypto}
use ebook_automation.JobStore.Schema.{Job}
use ebook_automation.JobStore.Store.{get_job, set_running, set_failed}
use ebook_automation.JobQueue.World.{World}
use ebook_automation.JobQueue.Dispatch.{
  RunResult, crashed, unsuccessful, converted, Env, maybe_refund_failed_job, Ended, settle,
  dispatch_job,
}
use ebook_automation.JobQueue.Refunds.{
  IsQuiet, is_refused, tokens-emit_outcome, dispatch_found, dispatch_refused,
}
use ebook_automation.Common.{
  String, ◌≡◌, ap, ◌∙◌, inl, inr, true, false, some, is_truthy, Bool-cases,
}

tokens-no_refund :
    (c : Crypto) (env : Env) (job : Job) (reason : String) (w : World)
    → is_truthy job.token_hash ≡ false
    → (maybe_refund_failed_job c env job reason w).tokens ≡ w.tokens
unfolding maybe_refund_failed_job
tokens-no_refund c env job reason w free = simp free

tokens-settle_free :
    (c : Crypto) (env : Env) (id : String) (job : Job) (r : RunResult) (w : World)
    → is_truthy job.token_hash ≡ false
    → (settle c env id job r w).tokens ≡ w.tokens
unfolding settle
tokens-settle_free c env id job (crashed msg) w free =
    tokens-emit_outcome env.logs job false _
    ∙ tokens-no_refund c env job "dispatch_exception" (record w { jobs = set_failed id msg w.jobs })
        free
tokens-settle_free c env id job (unsuccessful msg) w free =
    tokens-emit_outcome env.logs job false _
    ∙ tokens-no_refund c env job "pipeline_failed" (record w { jobs = set_failed id msg w.jobs })
        free
tokens-settle_free c env id job (converted t) w free = tokens-emit_outcome env.logs job true _

-- A dispatch, with the queue up, of a job without a token's digest changes no token, whatever the
-- pipeline does and whether or not SQLite is locked, if other tasks leave the tokens alone while the
-- pipeline runs.
pub free_job_keeps_tokens :
    (c : Crypto) (env : Env) (id : String) (job : Job) (w : World)
    → w.queue_ready ≡ true
    → get_job id w.jobs ≡ some job
    → is_truthy job.token_hash ≡ false
    → IsQuiet env.while_running
    → (dispatch_job c env id w).1.tokens ≡ w.tokens
free_job_keeps_tokens c env id job w ready found free calm = elim (Bool-cases (is_refused env)) [
  | inl refused ↦ (dispatch_refused c env id job w ready found refused calm).1
  | inr unlocked ↦
      let w' = record w { jobs = set_running id w.jobs } in
      ap (λ (x : Ended × World). x.1.tokens) (dispatch_found c env id job w ready found unlocked)
      ∙ (tokens-settle_free c env id job (env.run_job job) (env.while_running w') free
          ∙ (calm w').0)
]
