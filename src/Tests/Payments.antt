-- ===== src/Tests/Payments.antt =====
-- Stripe's webhook and the conversion routes at concrete inputs.
use ebook_automation.Sql
use ebook_automation.TokenStore.Consume.{validate_and_consume}
use ebook_automation.Stripe
use ebook_automation.Stripe.{StripeEvent, stripe_webhook}
use ebook_automation.Stripe.Deliveries.{unpaid_event_changes_nothing, session_minted_once}
use ebook_automation.Conversion.Upload
use ebook_automation.Conversion.Upload.{
  Settings, validate_upload, size_limit, detect_format, is_allowed_output, is_input_format,
  validate_upload_iff,
}
use ebook_automation.Conversion.Charge.{Env}
use ebook_automation.Conversion.Convert
use ebook_automation.Conversion.Convert.{convert_file}
use ebook_automation.Conversion.Reconvert.{reconvert_job}
use ebook_automation.Conversion.Fairness.{is_charged, convert_charges_fairly}
use ebook_automation.Conversion.Children.{reconvert_charges}
use ebook_automation.Tests.Fixtures
use ebook_automation.Tests.Fixtures.{toy, token, one_token, one_token-IsKeyed, row, world, nothing}
use ebook_automation.Common.{◌≤◌, ◌≡◌, refl, ◌↔◌, true, false, none, some, [], if◌then◌else◌}

abbrev stripe_env : Stripe.Env
stripe_env = record {
  is_production = true;
  now = 300;
  monotonic = 5;
  random = Fixtures.minted;
  retrieve = λ pi. some "cs_1";
  is_locked = false;
  error_text = "";
  record_locked = false;
  lookup_locked = false;
}

-- a completed session of an asynchronous payment, before the funds arrive
abbrev unpaid : StripeEvent
unpaid = record {
  livemode = true;
  event_type = "checkout.session.completed";
  id = some "cs_2";
  payment_intent = some "pi_2";
  pack = some "standard";
  payment_status = some "unpaid";
}

abbrev paid : StripeEvent
paid = record unpaid { id = some "cs_1"; payment_status = some "paid" }

abbrev disputed : StripeEvent
disputed = record unpaid { event_type = "charge.dispute.created"; payment_intent = some "pi_1" }

unpaid_event_changes_nothing_example : (stripe_webhook toy stripe_env (some unpaid) world).1 ≡ world
unpaid_event_changes_nothing_example =
    unpaid_event_changes_nothing toy stripe_env unpaid world refl refl

session_minted_once_example :
    (stripe_webhook toy stripe_env (some paid) world).1.tokens.tokens ≡ one_token.tokens
unfolding Sql.select
session_minted_once_example =
    session_minted_once toy stripe_env paid world {r = row} {rs = []} refl refl

abbrev limits : Settings
limits = record { max_file_size_free = 1000; max_file_size_premium = 9000 }

validate_upload_iff_example :
    (validate_upload limits none "mobi" 500 "epub" "free" ≡ Upload.valid "mobi") ↔ (
      (1 ≤ 500)
      × (500 ≤ size_limit limits "free")
      × (detect_format none "mobi" ≡ some "mobi")
      × (is_allowed_output "free" "epub" ≡ true)
      × (is_input_format "mobi" ≡ true))
validate_upload_iff_example = validate_upload_iff limits none "mobi" 500 "epub" "free" "mobi"

-- a service on which the job's row cannot be written
abbrev env : Env
env = record {
  settings = limits;
  ttl = record { job_ttl_free = 3600; job_ttl_premium = 7200 };
  now = 300;
  monotonic = 5;
  new_job_id = "j9";
  job_dir = λ id. id;
  input_path = λ dir fmt. dir;
  exists = λ p. true;
  stages = true;
  consume_locked = false;
  create_locked = true;
  refund_locked = false;
  logs = true;
  refund_id = "r1";
  refund_time = 400;
  while_waiting = nothing;
  while_resuming = nothing;
  while_refunding = nothing;
}

abbrev upload : Convert.Upload
upload = record {
  mime = some "application/pdf";
  ext = "pdf";
  file_size = 500;
  filename = some "book.pdf";
  output_format = "kfx";
  tier = "premium";
  token = some token;
}

convert_charges_fairly_example : (convert_file toy env upload world).1.tokens.tokens ≡ (
    if is_charged (convert_file toy env upload world).0
    then (validate_and_consume toy token 300 one_token).1.tokens
    else one_token.tokens)
unfolding Sql.fetch_one Sql.rowcount
convert_charges_fairly_example =
    convert_charges_fairly toy env upload world (λ w. (refl, refl)) (λ w. (refl, refl))
      (λ w. (refl, refl)) one_token-IsKeyed (λ u. refl, tt) (λ ok. refl) refl refl

abbrev free_upload : Convert.Upload
free_upload = record upload { tier = "free"; output_format = "epub" }

-- the same service, and a child of a job that is done
reconvert_charges_example :
    (reconvert_job toy env "j3" "kfx" (some token) world).1.tokens
    ≡ (validate_and_consume toy token 300 one_token).1
unfolding validate_and_consume reconvert_job ebook_automation.TokenFormat.token_regex
    ebook_automation.Conversion.Reconvert.with_parent Sql.rowcount
    ebook_automation.JobStore.Store.get_job Sql.fetch_one
    ebook_automation.Conversion.Reconvert.with_tier
    ebook_automation.Conversion.Reconvert.reconvert_tier
    ebook_automation.Conversion.Reconvert.precheck_child
    ebook_automation.Conversion.Charge.precheck_token
    ebook_automation.TokenFormat.validate_token_format
    ebook_automation.CircuitBreaker.circuit_is_open
    ebook_automation.Conversion.Reconvert.stage_child
    ebook_automation.Conversion.Reconvert.after_child_charge
    ebook_automation.Conversion.Charge.consume_token
    ebook_automation.Conversion.Charge.settle_consume
    ebook_automation.Conversion.Reconvert.create_child
    ebook_automation.Conversion.Reconvert.finish_child
reconvert_charges_example =
    reconvert_charges toy env (some token) world (λ w. (refl, refl)) (λ w. (refl, refl)) "j3" "kfx"
