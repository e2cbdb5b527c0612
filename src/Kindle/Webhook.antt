-- ===== src/Kindle/Webhook.antt =====
-- `POST /webhooks/resend` of web_service/routes/resend_webhook.py, after the signature was
-- verified by the `svix` package: the payload is what `verify` returned, `none` where it raised.
use ebook_automation.JobStore.Schema.{
  Job, Delivery, accepted_by_resend, delivered_to_mail_server, bounced, delivery_failed,
  delivery_delayed,
}
use ebook_automation.JobStore.Store.{find_by_resend_message_id, update_kindle_delivery_status}
use ebook_automation.JobQueue.World.{World, delivery_update, log_event}
use ebook_automation.Common.{
  text_of, ℕ, String, Bool, true, false, not, ◌&&◌, ◌||◌, Option, none, some, str_eq, ◌==◌,
  if◌then◌else◌, is_truthy,
}

-- What the handler reads of a payload: `type`, whether `data` is a mapping, `data.email_id`.
pub record Payload : Type 0 where
  pub event_type : Option String
  pub has_data : Bool
  pub email_id : Option String

pub data Response : Type 0 where
  unauthorized malformed : Response
  unknown_event_type unknown_message_id out_of_order : Response
  unchanged : Response
  transition : Delivery → Response

-- `_EVENT_MAP`
unfoldable pub event_map : String → Option Delivery
event_map t =
    if str_eq t "email.delivered"
    then some delivered_to_mail_server
    else if str_eq t "email.bounced"
    then some bounced
    else if str_eq t "email.failed"
    then some delivery_failed
    else if str_eq t "email.delivery_delayed"
    then some delivery_delayed
    else none

-- `_TERMINAL_STATES`
abbrev pub is_terminal : Option Delivery → Bool
is_terminal (some delivered_to_mail_server) = true
is_terminal (some bounced) = true
is_terminal (some delivery_failed) = true
is_terminal (some delivery_delayed) = false
is_terminal (some accepted_by_resend) = false
is_terminal none = false

abbrev pub is_delayed : Delivery → Bool
is_delayed delivery_delayed = true
is_delayed _ = false

abbrev pub code_of : Delivery → ℕ
code_of accepted_by_resend = 0
code_of delivered_to_mail_server = 1
code_of bounced = 2
code_of delivery_failed = 3
code_of delivery_delayed = 4

-- `current_status == new_status`
abbrev pub is_status : Option Delivery → Delivery → Bool
is_status none new = false
is_status (some d) new = code_of d == code_of new

-- steps 6 and 7, on the job that the message belongs to; the map takes
-- `email.delivery_delayed` alone to `delivery_delayed`
unfoldable pub apply_delivery : Bool → Job → Delivery → World → Response × World
apply_delivery logs job new w =
    if is_status job.kindle_delivery_status new
    then (unchanged, w)
    else if is_delayed new && is_terminal job.kindle_delivery_status
    then (out_of_order, w)
    else (
      transition new,
      log_event logs (delivery_update job.job_id job.kindle_delivery_status new)
          (record w { jobs = update_kindle_delivery_status job.job_id new w.jobs }),
    )

unfoldable pub correlate : Bool → Delivery → Option Job → World → Response × World
correlate logs new none w = (unknown_message_id, w)
correlate logs new (some job) w = apply_delivery logs job new w

unfoldable pub handle_event : Bool → Option Delivery → String → World → Response × World
handle_event logs none message_id w = (unknown_event_type, w)
handle_event logs (some new) message_id w =
    correlate logs new (find_by_resend_message_id message_id w.jobs) w

unfoldable pub resend_webhook : Bool → Option Payload → World → Response × World
resend_webhook logs none w = (unauthorized, w)
resend_webhook logs (some p) w =
    if not (is_truthy p.event_type) || not p.has_data
    then (malformed, w)
    else if not (is_truthy p.email_id)
    then (malformed, w)
    else handle_event logs (event_map (text_of p.event_type)) (text_of p.email_id) w
