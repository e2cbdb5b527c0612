-- ===== src/Stripe.antt =====
-- `POST /stripe/webhook` of web_service/routes/webhook.py, from the verified event on: signature
-- checks are the `stripe` package's, and the event is `none` where `construct_event` raises. The
-- best-effort calls that change no state of the service (the metadata of the PaymentIntent, the
-- Plausible event) are left out.
pub mod Deliveries
use ebook_automation.Raises.{Result, returned, raised, operational_error}
use ebook_automation.Crypto.{Crypto, Minted}
use ebook_automation.CircuitBreaker.{db_call_failed, db_call_succeeded, circuit_is_open}
use ebook_automation.TokenStore.Schema.{Db}
use ebook_automation.TokenStore.Mint.{MintResult, mint_tokens_if_absent}
use ebook_automation.TokenStore.Consume.{mark_disputed}
use ebook_automation.TokenStore.Lookup.{find_session_by_payment_intent}
use ebook_automation.TokenStore.FailedMints.{record_failed_mint}
use ebook_automation.JobQueue.World.{World}
use ebook_automation.Common.{
  max, ℕ, zero, suc, ◌+◌, ◌-◌, ◌*◌, ◌/◌, ◌%◌, ◌≤◌, ◌<◌, String, ◌≡◌, refl, sym, ap, ◌∙◌, ◌≢◌, ◌↔◌,
  ◌⊎◌, inl, inr, Bool, true, false, not, ◌&&◌, ◌||◌, Option, none, some, List, [], ◌∷◌, ◌++◌, map,
  arith, eq_iff, eq_refl, str_eq, ltb, leb, ◌==◌, if◌then◌else◌, is_text, is_truthy, codes, is_some,
  length, Bool-cases, Option-cases, str_eq-true,
}

-- What the handler reads of an event and of its `data.object`.
pub record StripeEvent : Type 0 where
  pub livemode : Bool
  pub event_type : String
  pub id : Option String
  pub payment_intent : Option String
  pub pack : Option String
  pub payment_status : Option String

pub data Response : Type 0 where
  received : Response
  http_error : ℕ → Response

pub record Env : Type 0 where
  pub is_production : Bool
  -- `time.time()` of the statements, and `time.monotonic()` of the circuit breaker
  pub now : ℕ
  pub monotonic : ℕ
  pub random : ℕ → Minted
  -- `PaymentIntent.retrieve(id).metadata.get("checkout_session_id")`; `none` also where Stripe
  -- refuses
  pub retrieve : String → Option String
  -- whether SQLite raises `OperationalError`, with its text, in the call on the tokens, in the
  -- record of a failed mint, and in the lookup by payment intent
  pub is_locked : Bool
  pub error_text : String
  pub record_locked : Bool
  pub lookup_locked : Bool

-- `_PACK_TOKEN_COUNT.get(pack, 0)`
unfoldable pub pack_token_count : String → ℕ
pack_token_count pack =
    if str_eq pack "starter"
    then 3
    else if str_eq pack "standard"
    then 10
    else if str_eq pack "power"
    then 25
    else 0

abbrev pub text_or : String → Option String → String
text_or default none = default
text_or default (some t) = t

abbrev pub pack_of : StripeEvent → String
pack_of ev = text_or "starter" ev.pack

-- a call on the database, which raises before it writes where SQLite is locked
abbrev pub attempt : {A : Type 0} → Bool → Db → Result A × Db → Result A × Db
attempt true before r = (raised operational_error, before)
attempt false before r = r

-- `record_failed_mint`, whose own exceptions are logged
unfoldable pub note_failed_mint : Env → String → String → World → World
note_failed_mint env session_id pack w = record w {
  tokens =
      (attempt env.record_locked w.tokens
        (record_failed_mint session_id pack env.error_text env.now w.tokens)).1;
}

-- after the mint; an exception that is not `OperationalError` leaves the handler
unfoldable pub settle_mint : Env → String → String → Result MintResult → World → Response × World
settle_mint env session_id pack (returned m) w =
    (received, record w { breaker = db_call_succeeded w.breaker })
settle_mint env session_id pack (raised operational_error) w = (
  http_error 500,
  note_failed_mint env session_id pack
      (record w { breaker = db_call_failed env.monotonic w.breaker }),
)
settle_mint env session_id pack (raised e) w = (http_error 500, w)

-- the paid session, with its number of tokens
unfoldable pub mint_session :
    Crypto → Env → String → Option String → String → World → Response × World
mint_session c env session_id payment_intent pack w =
    let (r, db) = attempt env.is_locked w.tokens (
      mint_tokens_if_absent c session_id (pack_token_count pack) payment_intent env.now env.random
        w.tokens) in
    settle_mint env session_id pack r (record w { tokens = db })

-- `checkout.session.completed` and `checkout.session.async_payment_succeeded`
unfoldable pub checkout_paid : Crypto → Env → StripeEvent → World → Response × World
checkout_paid c env ev w =
    if not (is_truthy ev.id) || pack_token_count (pack_of ev) == 0
    then (received, w)
    else if not (is_text ev.payment_status "paid")
    then (received, w)
    else mint_session c env (text_or "" ev.id) ev.payment_intent (pack_of ev) w

-- the session of a disputed payment was found
unfoldable pub dispute_session : Env → String → World → Response × World
dispute_session env session_id w =
    if env.is_locked
    then (http_error 500, record w { breaker = db_call_failed env.monotonic w.breaker })
    else (
      received,
      record w {
        tokens = (mark_disputed session_id env.now w.tokens).1;
        breaker = db_call_succeeded w.breaker;
      },
    )

unfoldable pub dispute_found : Env → Option String → World → Response × World
dispute_found env session w =
    if is_truthy session then dispute_session env (text_or "" session) w else (received, w)

-- `charge.dispute.created`
unfoldable pub dispute_created : Env → StripeEvent → World → Response × World
dispute_created env ev w =
    let pi = text_or "" ev.payment_intent in
    if not (is_truthy ev.payment_intent)
    then (received, w)
    else if is_truthy (env.retrieve pi)
    then dispute_found env (env.retrieve pi) w
    else if env.lookup_locked
    then (http_error 500, w)
    else dispute_found env (find_session_by_payment_intent pi w.tokens) w

abbrev pub is_checkout : StripeEvent → Bool
is_checkout ev =
    str_eq ev.event_type "checkout.session.completed"
    || str_eq ev.event_type "checkout.session.async_payment_succeeded"

abbrev pub is_dispute : StripeEvent → Bool
is_dispute ev = str_eq ev.event_type "charge.dispute.created"

-- by the type of the event; `checkout.session.async_payment_failed` is only logged
unfoldable pub handle_event : Crypto → Env → StripeEvent → World → Response × World
handle_event c env ev w =
    if is_checkout ev
    then checkout_paid c env ev w
    else if is_dispute ev
    then dispute_created env ev w
    else (received, w)

unfoldable pub accept_event : Crypto → Env → Option StripeEvent → World → Response × World
accept_event c env none w = (http_error 400, w)
accept_event c env (some ev) w =
    if env.is_production && not ev.livemode then (http_error 400, w) else handle_event c env ev w

unfoldable pub stripe_webhook : Crypto → Env → Option StripeEvent → World → Response × World
stripe_webhook c env event w =
    if circuit_is_open env.monotonic w.breaker
    then (http_error 503, w)
    else accept_event c env event w
