-- ===== src/Kindle/Deliveries.antt =====
-- Delivery statuses under the events of web_service/routes/resend_webhook.py.
use ebook_automation.Sql
use ebook_automation.Sql.Laws.{fetch_one-key, fetch_one-update}
use ebook_automation.Sql.{fetch_one, rowcount}
use ebook_automation.JobStore.Schema.{Job, Delivery, has_id}
use ebook_automation.JobStore.Store.{
  update_job, get_job, find_by_resend_message_id, update_kindle_delivery_status,
}
use ebook_automation.JobStore.Frames.{get_job-update_job}
use ebook_automation.JobQueue.World.{jobs-log_event, World}
use ebook_automation.Kindle.Webhook.{
  is_status, event_map, Payload, correlate, is_delayed, resend_webhook, handle_event,
  apply_delivery, is_terminal,
}
use ebook_automation.Common.{
  text_of, ◌∙◌, ap, ◌⊎◌, not, inr, inl, Bool-cases, Option-cases, ◌&&◌, ◌≤◌, String, ◌≡◌, refl,
  Bool, true, Option, none, some, List, arith, eq_iff, eq_refl, is_text,
}

-- `job_id` is the primary key.
pub record IsPrimaryKeyed (jobs : List Job) : Type 0 where
  pub at : (id : String) → rowcount (has_id id) jobs ≤ 1

get_job_found :
    (message_id : String) (jobs : List Job) (job : Job)
    → IsPrimaryKeyed jobs
    → find_by_resend_message_id message_id jobs ≡ some job
    → get_job job.job_id jobs ≡ some job
unfolding find_by_resend_message_id get_job
get_job_found message_id jobs job k e =
    fetch_one-key (λ j. is_text j.resend_message_id message_id) (has_id job.job_id) jobs e
      (k.at job.job_id) (eq_refl job.job_id)

abbrev pub delivery_of : Option Job → Option Delivery
delivery_of none = none
delivery_of (some j) = j.kindle_delivery_status

-- the status of the job `k` after the update
delivery-update :
    (k id : String) (new : Delivery) (jobs : List Job) (job : Job)
    → get_job id jobs ≡ some job
    → (is_terminal job.kindle_delivery_status ≡ true → is_terminal (some new) ≡ true)
    → is_terminal (delivery_of (get_job k jobs)) ≡ true
    → is_terminal (delivery_of (get_job k (update_kindle_delivery_status id new jobs))) ≡ true
delivery-update k id new jobs job found fine final =
    let step =
      get_job-update_job id k (λ j. record j { kindle_delivery_status = some new }) jobs
        (λ j. refl) in
    rw step (ground (arith, eq_iff id k))

apply-final :
    (b : Bool) (job : Job) (new : Delivery) (w : World) (k : String)
    → is_terminal (some new) ≡ not (is_delayed new)
    → get_job job.job_id w.jobs ≡ some job
    → is_terminal (delivery_of (get_job k w.jobs)) ≡ true
    → is_terminal (delivery_of (get_job k (apply_delivery b job new w).1.jobs)) ≡ true
unfolding apply_delivery
apply-final b job new w k known found final =
    elim (Bool-cases (is_status job.kindle_delivery_status new)) [
      | inl same ↦ rw same final
      | inr changed ↦ elim (Bool-cases (is_delayed new && is_terminal job.kindle_delivery_status)) [
        | inl late ↦ rw (changed, late) final
        | inr fine ↦
            let jobs' = update_kindle_delivery_status job.job_id new w.jobs in
            rw (changed, fine, jobs-log_event b _ (record w { jobs = jobs' }))
              (delivery-update k job.job_id new w.jobs job found (λ t. ground arith) final)
      ]
    ]

-- What an event sets is final unless it is the delay.
event_map-known :
    (t : String) (d : Delivery) → event_map t ≡ some d → is_terminal (some d) ≡ not (is_delayed d)
unfolding event_map
event_map-known t d e = ground arith

handle-final :
    (b : Bool) (o : Option Delivery) (m : String) (w : World) (k : String)
    → ((d : Delivery) → o ≡ some d → is_terminal (some d) ≡ not (is_delayed d))
    → IsPrimaryKeyed w.jobs
    → is_terminal (delivery_of (get_job k w.jobs)) ≡ true
    → is_terminal (delivery_of (get_job k (handle_event b o m w).1.jobs)) ≡ true
unfolding handle_event correlate
handle-final b none m w k known keyed final = final
handle-final b (some new) m w k known keyed final =
    elim (Option-cases (find_by_resend_message_id m w.jobs)) [
      | inl missing ↦ rw missing final
      | inr (job, found) ↦ rw found (
          apply-final b job new w k (known new refl) (get_job_found m w.jobs job keyed found) final)
    ]

-- Whatever event arrives, a job whose delivery status is final (delivered, bounced or failed)
-- has a final status afterwards, `job_id` being the primary key of the jobs.
pub final_status_stays :
    (b : Bool) (o : Option Payload) (w : World) (k : String)
    → IsPrimaryKeyed w.jobs
    → is_terminal (delivery_of (get_job k w.jobs)) ≡ true
    → is_terminal (delivery_of (get_job k (resend_webhook b o w).1.jobs)) ≡ true
unfolding resend_webhook
final_status_stays b none w k keyed final = final
final_status_stays b (some p) w k keyed final = ground (
  arith,
  handle-final b (event_map (text_of p.event_type)) (text_of p.email_id) w k
      (event_map-known (text_of p.event_type)) keyed final,
)

-- The world after the update, seen by a second delivery of the same event.
found-update :
    (m : String) (job : Job) (new : Delivery) (jobs : List Job)
    → find_by_resend_message_id m jobs ≡ some job
    → find_by_resend_message_id m (update_kindle_delivery_status job.job_id new jobs)
      ≡ some (record job { kindle_delivery_status = some new })
unfolding find_by_resend_message_id update_job
found-update m job new jobs e =
    fetch_one-update (λ j. is_text j.resend_message_id m) (has_id job.job_id)
      (λ j. record j { kindle_delivery_status = some new }) jobs (λ j. refl)
    ∙ rw e (by_key job)
  where
    by_key :
        (j : Job)
        → some
            (Sql.assign (has_id j.job_id) (λ j. record j { kindle_delivery_status = some new }) j)
          ≡ some (record j { kindle_delivery_status = some new })
    by_key j = ground (arith, eq_refl j.job_id)

is_status_same : (d : Delivery) → is_status (some d) d ≡ true
is_status_same d = ground arith

handle_found :
    (b : Bool) (new : Delivery) (m : String) (w : World) (job : Job)
    → find_by_resend_message_id m w.jobs ≡ some job
    → handle_event b (some new) m w ≡ apply_delivery b job new w
unfolding handle_event correlate
handle_found b new m w job found = ground arith

handle_missing :
    (b : Bool) (new : Delivery) (m : String) (w : World)
    → find_by_resend_message_id m w.jobs ≡ none
    → (handle_event b (some new) m w).1 ≡ w
unfolding handle_event correlate
handle_missing b new m w missing = ground arith

-- An event leaves the world alone, or the job's status as it says.
apply_cases :
    (b : Bool) (job : Job) (new : Delivery) (w : World)
    → ((apply_delivery b job new w).1 ≡ w)
      ⊎ ((apply_delivery b job new w).1.jobs ≡ update_kindle_delivery_status job.job_id new w.jobs)
unfolding apply_delivery
apply_cases b job new w = elim (Bool-cases (is_status job.kindle_delivery_status new)) [
  | inl same ↦ inl (rw same refl)
  | inr changed ↦ elim (Bool-cases (is_delayed new && is_terminal job.kindle_delivery_status)) [
    | inl late ↦ inl (rw (changed, late) refl)
    | inr fine ↦ inr (rw (changed, fine) (jobs-log_event b _ _))
  ]
]

apply_same :
    (b : Bool) (job : Job) (new : Delivery) (w : World)
    → is_status job.kindle_delivery_status new ≡ true
    → (apply_delivery b job new w).1 ≡ w
unfolding apply_delivery
apply_same b job new w same = rw same refl

handle_twice :
    (b : Bool) (o : Option Delivery) (m : String) (w : World)
    → (handle_event b o m (handle_event b o m w).1).1 ≡ (handle_event b o m w).1
unfolding handle_event
handle_twice b none m w = refl
handle_twice b (some new) m w = by_job (Option-cases (find_by_resend_message_id m w.jobs))
  where
    handle : World → World
    handle v = (handle_event b (some new) m v).1

    by_change :
        (job : Job)
        → find_by_resend_message_id m w.jobs ≡ some job
        → ((apply_delivery b job new w).1 ≡ w)
          ⊎ ((apply_delivery b job new w).1.jobs
              ≡ update_kindle_delivery_status job.job_id new w.jobs)
        → handle (handle w) ≡ handle w
    by_change job found (inl same) =
        ap handle (ap (λ r. r.1) (handle_found b new m w job found) ∙ same)
    by_change job found (inr changed) =
        let jobs' : (handle w).jobs ≡ update_kindle_delivery_status job.job_id new w.jobs =
          ap (λ r. r.1.jobs) (handle_found b new m w job found) ∙ changed in
        let job' = record job { kindle_delivery_status = some new } in
        let found' : find_by_resend_message_id m (handle w).jobs ≡ some job' =
          ap (find_by_resend_message_id m) jobs' ∙ found-update m job new w.jobs found in
        ap (λ r. r.1) (handle_found b new m (handle w) job' found')
        ∙ apply_same b job' new (handle w) (is_status_same new)

    by_job :
        (find_by_resend_message_id m w.jobs ≡ none)
          ⊎ ((job : Job) × (find_by_resend_message_id m w.jobs ≡ some job))
        → handle (handle w) ≡ handle w
    by_job (inl missing) = ap handle (handle_missing b new m w missing)
    by_job (inr (job, found)) = by_change job found (apply_cases b job new w)

-- An event that is delivered a second time changes nothing more.
pub replay_changes_nothing :
    (b : Bool) (o : Option Payload) (w : World)
    → (resend_webhook b o (resend_webhook b o w).1).1 ≡ (resend_webhook b o w).1
unfolding resend_webhook
replay_changes_nothing b none w = refl
replay_changes_nothing b (some p) w =
    ground (arith, handle_twice b (event_map (text_of p.event_type)) (text_of p.email_id) w)
