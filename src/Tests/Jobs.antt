-- ===== src/Tests/Jobs.antt =====
-- The job store and the job queue at three jobs.

use ebook_automation.Raises.{returned, raised, operational_error}
use ebook_automation.Sql
use ebook_automation.Sql.{rowcount}
use ebook_automation.TokenStore.Consume.{consume_hash}
use ebook_automation.JobStore.Schema.{Job}
use ebook_automation.JobStore.Store.{Ttl, NewJob, get_job}
use ebook_automation.JobQueue.World.{World}
use ebook_automation.JobQueue.Dispatch.{Env, dispatch_job, unsuccessful}
use ebook_automation.JobQueue.Refunds.{failed_job_costs_nothing, Leaves}
use ebook_automation.JobQueue.FreeJobs.{free_job_keeps_tokens}
use ebook_automation.Tests.Fixtures.{
  toy, one_token, one_token-IsKeyed, premium_job, free_job, world, nothing,
}
use ebook_automation.Common.{String, ◌≡◌, refl, true, false, none, some, List, [], ◌∷◌}

abbrev settings : Ttl
settings = record { job_ttl_free = 3600; job_ttl_premium = 7200 }

abbrev new_job : NewJob
new_job = record {
  job_id = "j4";
  tier = "free";
  input_fmt = "pdf";
  output_fmt = "epub";
  temp_dir = "/tmp/job_j4";
  input_path = "/tmp/job_j4/input.pdf";
  ttl = none;
  original_filename = none;
  parent_job_id = some "j3";
  token_hash_hex = none;
}

-- two children of one parent, the younger first in the table
abbrev children : List Job
children =
    record free_job { job_id = "c1"; parent_job_id = some "j3"; created_at = 300 }
    ∷ premium_job
    ∷ record free_job { job_id = "c2"; parent_job_id = some "j3"; created_at = 250 }
    ∷ []

-- a table of an early version, that has one of the later columns
abbrev old_columns : List String
old_columns = "job_id" ∷ "status" ∷ "vqa_pass" ∷ []

-- a run that fails on the job
abbrev env : Env
env = record {
  run_job = λ j. unsuccessful "no text";
  while_running = nothing;
  while_waiting = nothing;
  refund_id = "r1";
  refund_time = 400;
  refund_locked = false;
  read_locked = false;
  start_locked = false;
  end_locked = false;
  logs = true;
}

abbrev consumed : World
consumed = record world { tokens = (consume_hash 49 300 one_token).1 }

failed_job_costs_nothing_example :
    Leaves (dispatch_job toy env "j1" consumed) (returned tt) one_token.tokens
unfolding get_job Sql.fetch_one consume_hash Sql.rowcount
failed_job_costs_nothing_example =
    failed_job_costs_nothing toy env "j1" premium_job 49 300 one_token consumed one_token-IsKeyed
      (λ u. refl, tt) refl refl refl refl refl refl refl refl refl refl (λ w. (refl, refl))
      (λ w. (refl, refl))

-- the same run where SQLite refuses the last status: the token stays consumed
abbrev locked_env : Env
locked_env = record env { end_locked = true }

locked_job_costs :
    Leaves
      (dispatch_job toy locked_env "j1" consumed)
      (raised operational_error)
      consumed.tokens.tokens
unfolding get_job Sql.fetch_one consume_hash Sql.rowcount
locked_job_costs =
    failed_job_costs_nothing toy locked_env "j1" premium_job 49 300 one_token consumed
      one_token-IsKeyed (λ u. refl, tt) refl refl refl refl refl refl refl refl refl refl
      (λ w. (refl, refl)) (λ w. (refl, refl))

free_job_keeps_tokens_example : (dispatch_job toy env "j2" world).1.tokens ≡ world.tokens
unfolding get_job Sql.fetch_one
free_job_keeps_tokens_example =
    free_job_keeps_tokens toy env "j2" free_job world refl refl refl (λ w. (refl, refl))
