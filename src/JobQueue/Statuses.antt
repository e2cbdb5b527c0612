-- ===== src/JobQueue/Statuses.antt =====
-- The status that a dispatch leaves in the job's row.
use ebook_automation.Crypto.{Crypto}
use ebook_automation.JobStore.Schema.{Job, Status, done, failed}
use ebook_automation.JobQueue.World.{World}
use ebook_automation.JobQueue.Dispatch.{RunResult, crashed, unsuccessful, converted}
use ebook_automation.Common.{◌≡◌, Option, none, some}

abbrev pub status_after : RunResult → Status
status_after (crashed _) = failed
status_after (unsuccessful _) = failed
status_after (converted _) = done

-- the status of a row that was read
abbrev pub status_of : Option Job → Option Status
status_of none = none
status_of (some j) = some j.status

abbrev pub set_to : Status → Option Job → Option Status
set_to s none = none
set_to s (some j) = some s

-- The other tasks leave the table of jobs alone.
abbrev pub KeepsJobs : (World → World) → Type 0
KeepsJobs f = (w : World) → (f w).jobs ≡ w.jobs
