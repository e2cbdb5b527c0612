-- ===== src/JobQueue/World.antt =====
-- What the handlers of web_service share: the database, the circuit breaker, the pools, the
-- directories on disk and the events that were recorded.
use ebook_automation.CircuitBreaker.{Breaker}
use ebook_automation.JobStore.Schema.{Job, Delivery}
use ebook_automation.TokenStore.Schema.{Db}
use ebook_automation.Common.{ℕ, String, ◌≡◌, refl, Bool, true, false, Option, List, [], ◌∷◌, ◌++◌}

-- The events of web_service/recovery_events_store.py that these handlers record. The details
-- that do not come from the database or the request are left out.
pub data Event : Type 0 where
  reconvert_attempted : String → String → Event
  reconvert_succeeded : String → Event
  reconvert_failed : String → Event
  reconvert_refund_applied : String → Bool → Event
  premium_refund_applied : String → Bool → Event
  send_to_kindle_attempted : String → Event
  send_to_kindle_rejected_by_validation : String → Event
  send_to_kindle_accepted_by_resend : String → Bool → Event
  send_to_kindle_send_error : String → Event
  kindle_send_invariant_violation : String → Event
  payment_success_revisit : Bool → ℕ → Event
  delivery_update : String → Option Delivery → Delivery → Event

-- A row of `kindle_send_idempotency`; `claim_state` is 'sent' or 'claimed'.
pub record Claim : Type 0 where
  pub job_id : String
  pub recipient_hash : ℕ
  pub sent_at : ℕ
  pub is_sent : Bool

pub record World : Type 0 where
  pub jobs : List Job
  pub tokens : Db
  pub claims : List Claim
  pub events : List Event
  pub breaker : Breaker
  -- `_semaphore` and `_executor` are set; `billing_executor` is set
  pub queue_ready : Bool
  pub billing_ready : Bool
  -- the temporary directories on disk
  pub directories : List String
  -- the messages that the mail provider accepted: job and recipient
  pub outbox : List (String × List ℕ)
  -- the jobs handed to `asyncio.create_task(dispatch_job(...))`
  pub dispatched : List String

-- `recovery_events_store.log_event`, which never raises; `false` where the row was not written
abbrev pub log_event : Bool → Event → World → World
log_event true e w = record w { events = w.events ++ e ∷ [] }
log_event false e w = w

-- An event changes nothing else.
pub tokens-log_event : (b : Bool) (e : Event) (w : World) → (log_event b e w).tokens ≡ w.tokens
tokens-log_event true e w = refl
tokens-log_event false e w = refl

pub jobs-log_event : (b : Bool) (e : Event) (w : World) → (log_event b e w).jobs ≡ w.jobs
jobs-log_event true e w = refl
jobs-log_event false e w = refl

pub outbox-log_event : (b : Bool) (e : Event) (w : World) → (log_event b e w).outbox ≡ w.outbox
outbox-log_event true e w = refl
outbox-log_event false e w = refl
