-- ===== src/Checkout.antt =====
-- `POST /stripe/create-session` of web_service/routes/checkout.py. Stripe, SHA-256 and the settings
-- are parameters; Stripe gives one session for requests with one idempotency key.
pub mod Metadata
use ebook_automation.Text.{take, str_of}
use ebook_automation.Common.{
  max, ℕ, zero, suc, ◌+◌, ◌-◌, ◌*◌, ◌/◌, ◌%◌, ◌≤◌, ◌<◌, String, ◌≡◌, refl, sym, ap, ◌∙◌, ◌≢◌, ◌↔◌,
  ◌⊎◌, inl, inr, Bool, true, false, not, ◌&&◌, ◌||◌, Option, none, some, List, [], ◌∷◌, ◌++◌, map,
  arith, eq_iff, eq_refl, str_eq, ltb, leb, ◌==◌, if◌then◌else◌, is_text, is_truthy, text_of, codes,
  is_some, length, Bool-cases, Option-cases, str_eq-true,
}

-- what the route reads of a request: the peer's host, and the real address in Cloudflare's header
pub record Buyer : Type 0 where
  pub client_host : Option String
  pub cf_connecting_ip : Option String

-- What Stripe is asked for.
pub record SessionRequest : Type 0 where
  pub price_id : String
  pub intent_pack : String
  pub metadata : List (String × String)
  pub idempotency_key : List ℕ

pub record Env : Type 0 where
  pub sha256_hex : List ℕ → List ℕ
  -- the settings of the three prices
  pub price : String → String
  -- whole seconds of `time.time()`
  pub now : ℕ
  -- `Session.create`: the url and the id, or a `StripeError`
  pub create : SessionRequest → Option (String × String)

-- `_PACK_TO_PRICE_KEY`
unfoldable pub price_key : String → Option String
price_key pack =
    if str_eq pack "starter"
    then some "stripe_price_starter"
    else if str_eq pack "standard"
    then some "stripe_price_standard"
    else if str_eq pack "power"
    then some "stripe_price_power"
    else none

abbrev pub bucket_seconds : ℕ
bucket_seconds = 30

-- `_derive_idempotency_key`
unfoldable pub derive_idempotency_key : Env → String → String → List ℕ
derive_idempotency_key env pack client_host = take 32 (
    env.sha256_hex
      (codes pack ++ (b':' ∷ (codes client_host ++ (b':' ∷ str_of (env.now / bucket_seconds))))))

abbrev pub utm_max_len : ℕ
utm_max_len = 100

abbrev pub is_utm : Option String → Bool
is_utm none = false
is_utm (some t) =
    not (str_eq t "") && (ltb 0 (length (codes t)) && leb (length (codes t)) utm_max_len)

-- `_build_utm_metadata`, of the five fields in their order
unfoldable pub build_utm_metadata : List (String × Option String) → List (String × String)
build_utm_metadata [] = []
build_utm_metadata ((name, value) ∷ fields) =
    let rest = build_utm_metadata fields in
    if is_utm value then (name, text_of value) ∷ rest else rest

-- The five fields of the form.
pub record Utm : Type 0 where
  pub source : Option String
  pub medium : Option String
  pub campaign : Option String
  pub term : Option String
  pub content : Option String

abbrev pub utm_fields : Utm → List (String × Option String)
utm_fields u =
    ("utm_source", u.source)
    ∷ ("utm_medium", u.medium)
    ∷ ("utm_campaign", u.campaign)
    ∷ ("utm_term", u.term)
    ∷ ("utm_content", u.content)
    ∷ []

pub data Reply : Type 0 where
  invalid_pack stripe_unavailable : Reply
  created : String → String → Reply

abbrev pub reply_of : Option (String × String) → Reply
reply_of none = stripe_unavailable
reply_of (some (url, id)) = created url id

abbrev pub host_of : Option String → String
host_of none = "unknown"
host_of (some h) = h

-- what is asked of Stripe for a known pack
unfoldable pub session_request : Env → Buyer → String → Utm → String → SessionRequest
session_request env buyer pack utm key = record {
  price_id = env.price key;
  intent_pack = pack;
  metadata = ("pack", pack) ∷ build_utm_metadata (utm_fields utm);
  idempotency_key = derive_idempotency_key env pack (host_of buyer.client_host);
}

-- the request to Stripe, where the pack is known
abbrev pub asked : Env → Buyer → String → Utm → Option String → Option SessionRequest
asked env buyer pack utm none = none
asked env buyer pack utm (some key) = some (session_request env buyer pack utm key)

unfoldable pub asks_stripe : Env → Buyer → String → Utm → Option SessionRequest
asks_stripe env buyer pack utm = asked env buyer pack utm (price_key pack)

abbrev pub answer : Env → Option SessionRequest → Reply
answer env none = invalid_pack
answer env (some r) = reply_of (env.create r)

unfoldable pub create_checkout_session : Env → Buyer → String → Utm → Reply
create_checkout_session env buyer pack utm = answer env (asks_stripe env buyer pack utm)
