-- ===== src/Checkout/Metadata.antt =====
-- What a checkout asks of Stripe, and what the webhook makes of it.
use mathlib.Core.Path.{subst}
use mathlib.Core.Bool.{true≢false}
use mathlib.Core.Option.{some-injective}
use ebook_automation.Stripe.{pack_token_count}
use ebook_automation.Checkout.{
  Buyer, SessionRequest, Env, Utm, price_key, is_utm, utm_max_len, build_utm_metadata, utm_fields,
  session_request, asked, asks_stripe,
}
use ebook_automation.Common.{
  String, ◌≡◌, refl, sym, ap, ◌∙◌, inl, inr, Bool, true, false, ◌&&◌, Option, none, some, List, [],
  ◌∷◌, arith, str_eq, leb, ◌==◌, text_of, codes, is_some, length, Bool-cases, str_eq-true,
}

-- every value at most `utm_max_len` characters long
unfoldable pub all_short : List (String × String) → Bool
all_short [] = true
all_short ((_, v) ∷ ms) = leb (length (codes v)) utm_max_len && all_short ms

short_value :
    (o : Option String) → is_utm o ≡ true → leb (length (codes (text_of o))) utm_max_len ≡ true
short_value none h = cc
short_value (some t) h = ground (arith, h)

all_short-build_utm_metadata :
    (fields : List (String × Option String)) → all_short (build_utm_metadata fields) ≡ true
unfolding all_short build_utm_metadata
all_short-build_utm_metadata [] = refl
all_short-build_utm_metadata ((name, value) ∷ fields) =
    ground (arith, all_short-build_utm_metadata fields, short_value value)

-- What every request to Stripe has: a pack that the webhook credits, named in the session's and in
-- the payment's metadata, and values that Stripe takes.
pub record Creditable (pack : String) (r : SessionRequest) : Type 0 where
  pub credited : (pack_token_count pack == 0) ≡ false
  pub utm : List (String × String)
  pub session_pack : r.metadata ≡ ("pack", pack) ∷ utm
  pub intent_pack : r.intent_pack ≡ pack
  pub short : all_short r.metadata ≡ true

abbrev Known : String → Type 0
Known pack = ((pack_token_count pack == 0) ≡ false) × (leb (length (codes pack)) utm_max_len ≡ true)

by_name : (pack t : String) → Known t → str_eq pack t ≡ true → Known pack
by_name pack t k e = subst Known (sym (str_eq-true pack t e)) k

no_key :
    (pack : String)
    → str_eq pack "starter" ≡ false
    → str_eq pack "standard" ≡ false
    → str_eq pack "power" ≡ false
    → is_some (price_key pack) ≡ false
unfolding price_key
no_key pack a b d = ground (arith, a, b, d)

price_key-Known : (pack key : String) → price_key pack ≡ some key → Known pack
unfolding pack_token_count
price_key-Known pack key h = elim (Bool-cases (str_eq pack "starter")) [
  | inl e ↦ by_name pack "starter" (refl, refl) e
  | inr a ↦ elim (Bool-cases (str_eq pack "standard")) [
    | inl e ↦ by_name pack "standard" (refl, refl) e
    | inr b ↦ elim (Bool-cases (str_eq pack "power")) [
      | inl e ↦ by_name pack "power" (refl, refl) e
      | inr d ↦ absurd (true≢false (sym (ap is_some h) ∙ no_key pack a b d))
    ]
  ]
]

request-Creditable :
    (env : Env) (buyer : Buyer) (pack : String) (utm : Utm) (key : String)
    → Known pack
    → Creditable pack (session_request env buyer pack utm key)
unfolding session_request all_short
request-Creditable env buyer pack utm key known = record {
  credited = known.0;
  utm = build_utm_metadata (utm_fields utm);
  session_pack = refl;
  intent_pack = refl;
  short = ground (arith, known.1, all_short-build_utm_metadata (utm_fields utm));
}

asked-Creditable :
    (env : Env) (buyer : Buyer) (pack : String) (utm : Utm) (o : Option String) (r : SessionRequest)
    → price_key pack ≡ o
    → asked env buyer pack utm o ≡ some r
    → Creditable pack r
asked-Creditable env buyer pack utm none r e h = cc
asked-Creditable env buyer pack utm (some key) r e h =
    subst (Creditable pack) (some-injective _ _ h)
      (request-Creditable env buyer pack utm key (price_key-Known pack key e))

-- Whatever the pack and the UTM fields of the form: where Stripe is asked for a session, the pack
-- is one for which the webhook mints tokens, the session's and the payment's metadata name it, and
-- every value of the session's metadata has at most 100 characters.
pub asks_stripe-Creditable :
    (env : Env) (buyer : Buyer) (pack : String) (utm : Utm) (r : SessionRequest)
    → asks_stripe env buyer pack utm ≡ some r
    → Creditable pack r
unfolding asks_stripe
asks_stripe-Creditable env buyer pack utm r h =
    asked-Creditable env buyer pack utm (price_key pack) r refl h
