-- ===== src/Kindle/Delivered.antt =====
-- What a mail that went out says about the request.
use ebook_automation.JobStore.Schema.{Job, done}
use ebook_automation.JobStore.Store.{get_job}
use ebook_automation.JobQueue.World.{World}
use ebook_automation.Text.{lower}
use ebook_automation.Kindle.Recipient.{IsKindleAddress}
use ebook_automation.Kindle.Validation.{normalise, kindle_max_size_bytes}
use ebook_automation.Kindle.Route.{
  Response, sent, already_sent, uncaught, http_error, HttpCode, service_disabled, job_not_found,
  invalid_job_state, output_expired, rejected, invariant_violation, send_failed, Env,
}
use ebook_automation.Common.{
  not, if◌then◌else◌, Bool, ℕ, ◌≤◌, String, ◌≡◌, ◌⊎◌, Bool, true, not, some, List, [], ◌∷◌, ◌++◌,
  if◌then◌else◌, codes,
}

module _ (env : Env) (id : String) (recipient : List ℕ) (w₀ : World) where
  -- What was checked of a request whose mail goes out.
  pub record MayMail : Type 0 where
    pub job : Job
    pub output_path : String
    pub enabled : env.send_to_kindle_enabled ≡ true
    pub found : get_job id w₀.jobs ≡ some job
    pub finished : job.status ≡ done
    pub output : job.output_path ≡ some output_path
    pub on_disk : env.exists output_path ≡ true
    pub address : IsKindleAddress (normalise recipient)
    pub is_epub : lower (codes job.output_fmt) ≡ codes "epub"
    pub fits : env.size output_path ≤ kindle_max_size_bytes
    pub inside : env.is_inside output_path ≡ true

  -- What an answer says of the mails that are out.
  abbrev pub Mailed : World → Type 0
  Mailed w = MayMail × (w.outbox ≡ w₀.outbox ++ (id, normalise recipient) ∷ [])

  abbrev pub Unmailed : World → Type 0
  Unmailed w = w.outbox ≡ w₀.outbox

  abbrev pub AfterError : HttpCode → World → Type 0
  AfterError send_failed w = Unmailed w ⊎ Mailed w
  AfterError service_disabled w = Unmailed w
  AfterError job_not_found w = Unmailed w
  AfterError invalid_job_state w = Unmailed w
  AfterError output_expired w = Unmailed w
  AfterError (rejected code) w = Unmailed w
  AfterError invariant_violation w = Unmailed w

  abbrev pub Mails : Response × World → Type 0
  Mails (sent, w) = Mailed w
  Mails (uncaught, w) = Unmailed w ⊎ Mailed w
  Mails (already_sent, w) = Unmailed w
  Mails (http_error _ code, w) = AfterError code w
