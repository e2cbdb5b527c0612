-- ===== src/Tests/Page.antt =====
-- The checkout, the success page of a payment, the views of a job and the keys of the limiter at concrete inputs.
use ebook_automation.Sql
use ebook_automation.TokenStore.Mint.{new_row, generate}
use ebook_automation.Crypto.{Minted}
use ebook_automation.JobStore.Store.{get_job}
use ebook_automation.JobQueue.World.{World}
use ebook_automation.Stripe
use ebook_automation.Stripe.{StripeEvent, checkout_paid}
use ebook_automation.Payment.{Env, Session, found, payment_success, mint_page}
use ebook_automation.Payment.Pages.{Unminted, payment_success-Unminted}
use ebook_automation.Payment.Webhook.{
  SameCheckout, page_mints_as_webhook, unknown_pack_mints_on_page,
}
use ebook_automation.Tests.Fixtures
use ebook_automation.Tests.Fixtures.{unary, all_jobs, toy, one_token, row, world, nothing}
use ebook_automation.Views.{Paths, download_file, get_status}
use ebook_automation.Views.Agree.{
  is_served, offers_download, has_plain_name, download_as_status_says,
}
use ebook_automation.RateLimit.{
  Request, trusted_client_key, parent_job_id_key, kindle_job_id_key, keys_unforgeable,
}
use ebook_automation.Checkout
use ebook_automation.Checkout.{
  Buyer, Utm, asks_stripe, price_key, session_request, create_checkout_session,
}
use ebook_automation.Checkout.Metadata.{Creditable, asks_stripe-Creditable}
use ebook_automation.Common.{
  ℕ, ◌+◌, ◌≡◌, refl, true, false, ◌&&◌, none, some, [], ◌++◌, map, text_of, length,
}

abbrev session : Session
session = record { payment_status = some "paid"; pack = some "power"; payment_intent = some "pi_2" }

-- a service on which nothing was minted
abbrev empty_world : World
empty_world = record world { tokens = record one_token { tokens = [] } }

-- the page of a session whose tokens the webhook mints while the page waits for Stripe
abbrev page_env : Env
page_env = record {
  event_now = 300;
  now = 300;
  mint_now = 300;
  page_now = 300;
  monotonic = 5;
  random = Fixtures.minted;
  retrieve = λ id. found session;
  read_locked = false;
  mint_locked = false;
  record_locked = false;
  error_text = "";
  event_written = true;
  meanwhile = λ w. world;
}

abbrev stripe_env : Stripe.Env
stripe_env = record {
  is_production = true;
  now = 300;
  monotonic = 5;
  random = Fixtures.minted;
  retrieve = λ pi. none;
  is_locked = false;
  error_text = "";
  record_locked = false;
  lookup_locked = false;
}

abbrev event : StripeEvent
event = record {
  livemode = true;
  event_type = "checkout.session.completed";
  id = some "cs_2";
  payment_intent = some "pi_2";
  pack = some "power";
  payment_status = some "paid";
}

abbrev misnamed : Session
misnamed = record session { pack = some "super" }

abbrev misnamed_event : StripeEvent
misnamed_event = record event { pack = some "super" }

payment_success-Unminted_example :
    Unminted page_env empty_world (payment_success toy page_env "cs_1" empty_world).1
unfolding Sql.select
payment_success-Unminted_example =
    payment_success-Unminted toy page_env "cs_1" empty_world {t = row} {ts = []} refl

-- tokens of different lengths, so that their digests differ
abbrev fresh : ℕ → Minted
fresh n = record { text = unary (60 + n); iv = n }

abbrev fresh_env : Env
fresh_env = record page_env { random = fresh }

abbrev fresh_stripe : Stripe.Env
fresh_stripe = record stripe_env { random = fresh }

same_checkout : SameCheckout fresh_env fresh_stripe event session
same_checkout = record {
  same_pack = refl;
  same_intent = refl;
  has_id = refl;
  paid = refl;
  same_lock = refl;
  same_now = refl;
  same_random = refl;
}

same_misnamed : SameCheckout fresh_env fresh_stripe misnamed_event misnamed
same_misnamed = record {
  same_pack = refl;
  same_intent = refl;
  has_id = refl;
  paid = refl;
  same_lock = refl;
  same_now = refl;
  same_random = refl;
}

page_mints_as_webhook_example :
    (mint_page toy fresh_env "cs_2" session world).1.tokens.tokens
    ≡ (checkout_paid toy fresh_stripe event world).1.tokens.tokens
unfolding Stripe.pack_token_count
page_mints_as_webhook_example =
    page_mints_as_webhook toy fresh_env fresh_stripe event session world same_checkout refl

-- the page adds the 25 tokens of the pack
power_is_minted : length (mint_page toy fresh_env "cs_2" session world).1.tokens.tokens ≡ 26
unfolding mint_page ebook_automation.Payment.show_minted
    ebook_automation.TokenStore.Mint.mint_tokens_if_absent ebook_automation.Payment.count_to_mint
    ebook_automation.Payment.page_token_count ebook_automation.TokenStore.Mint.mint_or_read
    Sql.select ebook_automation.TokenStore.Mint.mint_fresh
    ebook_automation.TokenStore.Mint.insert_all generate Sql.rowcount unary Sql.insert
power_is_minted = refl

unknown_pack_mints_on_page_example :
    ((checkout_paid toy fresh_stripe misnamed_event world).1 ≡ world)
    × ((mint_page toy fresh_env "cs_2" misnamed world).1.tokens.tokens
        ≡ one_token.tokens ++ map (new_row toy "cs_2" (some "pi_2") 300) (generate toy fresh 0 3))
unfolding Stripe.pack_token_count Sql.select ebook_automation.TokenStore.Mint.insert_all generate
    Sql.rowcount unary Sql.insert
unknown_pack_mints_on_page_example =
    unknown_pack_mints_on_page toy fresh_env fresh_stripe misnamed_event misnamed world
      same_misnamed refl refl refl refl

abbrev paths : Paths
paths = record { exists = λ t. true; stem = λ t. t; suffix = λ t. ".epub"; file_name = λ t. t }

download_as_status_says_example : is_served (download_file paths "j3" all_jobs) ≡ (
    offers_download (get_status paths "j3" all_jobs)
    && has_plain_name paths (get_job "j3" all_jobs))
download_as_status_says_example = download_as_status_says paths "j3" all_jobs

-- a direct request, and the same with a forged header
abbrev direct : Request
direct = record { client_host = some "10.0.0.9"; cf_connecting_ip = none; path_id = some "j3" }

abbrev forged : Request
forged = record direct { cf_connecting_ip = some "1.2.3.4" }

keys_unforgeable_example :
    (trusted_client_key text_of direct ≡ trusted_client_key text_of forged)
    × ((parent_job_id_key text_of direct ≡ parent_job_id_key text_of forged)
        × (kindle_job_id_key text_of direct ≡ kindle_job_id_key text_of forged))
unfolding ebook_automation.RateLimit.is_trusted_proxy
keys_unforgeable_example = keys_unforgeable text_of direct forged refl refl refl

abbrev no_utm : Utm
no_utm = record {
  source = some "letter";
  medium = none;
  campaign = none;
  term = none;
  content = none;
}

abbrev checkout_env : Checkout.Env
checkout_env = record {
  sha256_hex = λ t. t;
  price = λ key. key;
  now = 61;
  create = λ r. some ("https://checkout", "cs_9");
}

abbrev buyer : Buyer
buyer = record { client_host = some "127.0.0.1"; cf_connecting_ip = some "1.2.3.4" }

asks_stripe-Creditable_example :
    Creditable "power" (session_request checkout_env buyer "power" no_utm "stripe_price_power")
unfolding asks_stripe price_key
asks_stripe-Creditable_example =
    asks_stripe-Creditable checkout_env buyer "power" no_utm
      (session_request checkout_env buyer "power" no_utm "stripe_price_power") refl
