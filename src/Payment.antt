-- ===== src/Payment.antt =====
-- `GET /payment/success` of web_service/routes/payment.py and `POST /api/recover` of
-- web_service/routes/recover.py. A page is what it is rendered from; the HTML is left out.
pub mod Pages
pub mod Webhook
use ebook_automation.Text.{strip}
use ebook_automation.Raises.{
  Result, returned, raised, value_error, invalid_token, integrity_error, operational_error,
  other_error,
}
use ebook_automation.Crypto.{Crypto, Minted}
use ebook_automation.CircuitBreaker.{db_call_failed, db_call_succeeded, circuit_is_open}
use ebook_automation.TokenStore.Mint.{MintResult, mint_tokens_if_absent, token_ttl_seconds}
use ebook_automation.TokenStore.Lookup.{get_tokens_for_session}
use ebook_automation.TokenStore.FailedMints.{record_failed_mint}
use ebook_automation.JobQueue.World.{World, payment_success_revisit, log_event}
use ebook_automation.Stripe.{attempt, text_or}
use ebook_automation.Common.{
  max, ℕ, zero, suc, ◌+◌, ◌-◌, ◌*◌, ◌/◌, ◌%◌, ◌≤◌, ◌<◌, String, ◌≡◌, refl, sym, ap, ◌∙◌, ◌≢◌, ◌↔◌,
  ◌⊎◌, inl, inr, Bool, true, false, not, ◌&&◌, ◌||◌, Option, none, some, List, [], ◌∷◌, ◌++◌, map,
  arith, eq_iff, eq_refl, str_eq, ltb, leb, ◌==◌, if◌then◌else◌, is_text, is_truthy, text_of, codes,
  is_some, length, Bool-cases, Option-cases, str_eq-true,
}

-- What the page reads of a session of Stripe's.
pub record Session : Type 0 where
  pub payment_status : Option String
  pub pack : Option String
  pub payment_intent : Option String

-- how `checkout.Session.retrieve` ends: a session, `InvalidRequestError`, another `StripeError`
pub data Retrieved : Type 0 where
  found : Session → Retrieved
  no_session stripe_error : Retrieved

pub record Env : Type 0 where
  -- `time.time()` of the event, of the check, of the mint and of the page; `time.monotonic()`
  pub event_now : ℕ
  pub now : ℕ
  pub mint_now : ℕ
  pub page_now : ℕ
  pub monotonic : ℕ
  pub random : ℕ → Minted
  pub retrieve : String → Retrieved
  -- whether SQLite raises `OperationalError` in the lookup, in the mint and in the record of a
  -- failed mint; whether the event was written
  pub read_locked : Bool
  pub mint_locked : Bool
  pub record_locked : Bool
  pub error_text : String
  pub event_written : Bool
  -- what the other handlers do while Stripe is asked
  pub meanwhile : World → World

pub data Page : Type 0 where
  invalid_session retry_page not_found pending_page expired_page server_error : Page
  success_page : List String → ℕ → Page

abbrev pub status_code : Page → ℕ
status_code invalid_session = 422
status_code retry_page = 503
status_code not_found = 404
status_code pending_page = 200
status_code expired_page = 200
status_code server_error = 500
status_code (success_page _ _) = 200

-- `_PACK_TOKEN_COUNT.get(pack, 0)` of the page
unfoldable pub page_token_count : String → ℕ
page_token_count pack =
    if str_eq pack "starter"
    then 3
    else if str_eq pack "standard"
    then 10
    else if str_eq pack "power"
    then 25
    else 0

-- the fallback of an unknown pack
unfoldable pub count_to_mint : String → ℕ
count_to_mint pack = if page_token_count pack == 0 then 3 else page_token_count pack

-- after the mint: an exception that is not `OperationalError` leaves the handler
unfoldable pub show_minted : Env → String → String → Result MintResult → World → Page × World
show_minted env session_id pack (returned m) w = (
  success_page m.tokens (env.page_now + token_ttl_seconds),
  record w { breaker = db_call_succeeded w.breaker },
)
show_minted env session_id pack (raised operational_error) w = (
  retry_page,
  record w {
    breaker = db_call_failed env.monotonic w.breaker;
    tokens =
        (attempt env.record_locked w.tokens
          (record_failed_mint session_id pack env.error_text env.mint_now w.tokens)).1;
  },
)
show_minted env session_id pack (raised e) w = (server_error, w)

unfoldable pub mint_page : Crypto → Env → String → Session → World → Page × World
mint_page c env session_id s w =
    let (r, db) = attempt env.mint_locked w.tokens (
      mint_tokens_if_absent c session_id (count_to_mint (text_or "starter" s.pack))
        (some (text_of s.payment_intent)) env.mint_now env.random w.tokens) in
    show_minted env session_id (text_or "starter" s.pack) r (record w { tokens = db })

unfoldable pub verify_session : Crypto → Env → String → Retrieved → World → Page × World
verify_session c env session_id no_session w = (not_found, w)
verify_session c env session_id stripe_error w = (retry_page, w)
verify_session c env session_id (found s) w =
    if not (is_text s.payment_status "paid")
    then (pending_page, w)
    else mint_page c env session_id s w

-- the tokens of the session, or the mint
unfoldable pub revisit :
    Crypto → Env → String → Result (Option (List String × ℕ)) → World → Page × World
revisit c env session_id (raised e) w = (server_error, w)
revisit c env session_id (returned none) w =
    verify_session c env session_id (env.retrieve session_id)
      (env.meanwhile (record w { breaker = db_call_succeeded w.breaker }))
revisit c env session_id (returned (some (tokens, expires_at))) w = (
  if ltb expires_at env.now then expired_page else success_page tokens expires_at,
  log_event env.event_written
      (payment_success_revisit (ltb expires_at env.event_now) (length tokens))
      (record w { breaker = db_call_succeeded w.breaker }),
)

-- `text.startswith("cs_")`
abbrev pub starts_with_cs : List ℕ → Bool
starts_with_cs (a ∷ b ∷ d ∷ _) = a == b'c' && (b == b's' && d == b'_')
starts_with_cs _ = false

unfoldable pub payment_success : Crypto → Env → String → World → Page × World
payment_success c env session_id w =
    if not (starts_with_cs (codes session_id))
    then (invalid_session, w)
    else if circuit_is_open env.monotonic w.breaker
    then (retry_page, w)
    else if env.read_locked
    then (retry_page, record w { breaker = db_call_failed env.monotonic w.breaker })
    else revisit c env session_id (get_tokens_for_session c session_id w.tokens) w

-- `recover_tokens`: the session to redirect to, or 422
unfoldable pub recover_tokens : List ℕ → Option (List ℕ)
recover_tokens session_id =
    let t = strip session_id in if not (starts_with_cs t) || ltb (length t) 5 then none else some t
