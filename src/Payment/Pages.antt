-- ===== src/Payment/Pages.antt =====
-- What the success page does to the tokens.

use ebook_automation.Sql
use ebook_automation.Raises.{
  Result, returned, raised, value_error, invalid_token, integrity_error, operational_error,
  other_error,
}
use ebook_automation.Crypto.{Crypto}
use ebook_automation.CircuitBreaker.{db_call_succeeded, circuit_is_open}
use ebook_automation.TokenStore.Schema.{in_pack, TokenRow}
use ebook_automation.TokenStore.Mint.{MintResult, mint_tokens_if_absent}
use ebook_automation.TokenStore.Lookup.{get_tokens_for_session}
use ebook_automation.TokenStore.FailedMints.{record_failed_mint}
use ebook_automation.JobQueue.World.{World, tokens-log_event, payment_success_revisit}
use ebook_automation.Stripe.{attempt, text_or}
use ebook_automation.Stripe.Deliveries.{rows-record_failed_mint, rows-attempt, rows-minted}
use ebook_automation.Payment.{
  Session, Retrieved, found, no_session, stripe_error, Env, Page, count_to_mint, show_minted,
  mint_page, verify_session, revisit, payment_success, starts_with_cs,
}
use ebook_automation.Common.{
  ℕ, String, ◌≡◌, refl, ap, ◌∙◌, ◌⊎◌, inl, inr, Bool, true, false, not, Option, none, some, List,
  ◌∷◌, arith, ltb, if◌then◌else◌, is_text, text_of, codes, length,
}

rows-show_minted :
    (env : Env) (s pack : String) (r : Result MintResult) (w : World)
    → (show_minted env s pack r w).1.tokens.tokens ≡ w.tokens.tokens
unfolding show_minted
rows-show_minted env s pack (returned m) w = refl
rows-show_minted env s pack (raised value_error) w = refl
rows-show_minted env s pack (raised invalid_token) w = refl
rows-show_minted env s pack (raised integrity_error) w = refl
rows-show_minted env s pack (raised other_error) w = refl
rows-show_minted env s pack (raised operational_error) w =
    rows-attempt env.record_locked w.tokens
      (record_failed_mint s pack env.error_text env.mint_now w.tokens)
    ∙ same_rows env.record_locked
        (rows-record_failed_mint s pack env.error_text env.mint_now w.tokens)
  where
    same_rows : {A : Type 0} {x y : A} (b : Bool) → x ≡ y → (if b then y else x) ≡ y
    same_rows true e = refl
    same_rows false e = e

-- The rows after the page's mint: what the mint leaves, or what there was where SQLite is locked.
pub rows-mint_page :
    (c : Crypto) (env : Env) (id : String) (s : Session) (w : World)
    → (mint_page c env id s w).1.tokens.tokens ≡ (
        if env.mint_locked
        then w.tokens.tokens
        else (mint_tokens_if_absent c id
            (count_to_mint (text_or "starter" s.pack))
            (some (text_of s.payment_intent))
            env.mint_now
            env.random
            w.tokens).1.tokens)
unfolding mint_page
rows-mint_page c env id s w =
    let r =
      mint_tokens_if_absent c id (count_to_mint (text_or "starter" s.pack))
        (some (text_of s.payment_intent)) env.mint_now env.random w.tokens in
    let a = attempt env.mint_locked w.tokens r in
    rows-show_minted env id (text_or "starter" s.pack) a.0 (record w { tokens = a.1 })
    ∙ rows-attempt env.mint_locked w.tokens r

-- whether Stripe says that a session is paid
abbrev pub is_paid : Retrieved → Bool
is_paid (found s) = is_text s.payment_status "paid"
is_paid no_session = false
is_paid stripe_error = false

rows-verify_unpaid :
    (c : Crypto) (env : Env) (id : String) (r : Retrieved) (w : World)
    → is_paid r ≡ false
    → (verify_session c env id r w).1.tokens.tokens ≡ w.tokens.tokens
unfolding verify_session
rows-verify_unpaid c env id no_session w h = refl
rows-verify_unpaid c env id stripe_error w h = refl
rows-verify_unpaid c env id (found s) w h = ground (arith, h)

rows-verify_minted :
    (c : Crypto) (env : Env) (id : String) (r : Retrieved) (w : World) {t : TokenRow}
    {ts : List TokenRow}
    → Sql.select (in_pack id) w.tokens.tokens ≡ t ∷ ts
    → (verify_session c env id r w).1.tokens.tokens ≡ w.tokens.tokens
unfolding verify_session
rows-verify_minted c env id no_session w h = refl
rows-verify_minted c env id stripe_error w h = refl
rows-verify_minted c env id (found s) w h =
    let kept =
      ap (λ db. db.tokens)
        (rows-minted c id (count_to_mint (text_or "starter" s.pack))
          (some (text_of s.payment_intent)) env.mint_now env.random w.tokens h) in
    ground (arith, rows-mint_page c env id s w, kept)

-- the world in which the page comes to its question to Stripe
abbrev pub after_read : World → World
after_read w = record w { breaker = db_call_succeeded w.breaker }

rows-revisit_unpaid :
    (c : Crypto) (env : Env) (id : String) (o : Result (Option (List String × ℕ))) (w : World)
    → ((v : World) → (env.meanwhile v).tokens.tokens ≡ v.tokens.tokens)
    → is_paid (env.retrieve id) ≡ false
    → (revisit c env id o w).1.tokens.tokens ≡ w.tokens.tokens
unfolding revisit
rows-revisit_unpaid c env id (raised e) w others h = refl
rows-revisit_unpaid c env id (returned none) w others h =
    rows-verify_unpaid c env id (env.retrieve id) (env.meanwhile (after_read w)) h
    ∙ others (after_read w)
rows-revisit_unpaid c env id (returned (some (ts, x))) w others h =
    ap (λ db. db.tokens)
      (tokens-log_event env.event_written
        (payment_success_revisit (ltb x env.event_now) (length ts)) (after_read w))

-- Where Stripe does not say that the session is paid, the page changes no row of the tokens,
-- if the other handlers change none while it waits for Stripe.
pub unpaid_page_mints_nothing :
    (c : Crypto) (env : Env) (id : String) (w : World)
    → ((v : World) → (env.meanwhile v).tokens.tokens ≡ v.tokens.tokens)
    → is_paid (env.retrieve id) ≡ false
    → (payment_success c env id w).1.tokens.tokens ≡ w.tokens.tokens
unfolding payment_success
unpaid_page_mints_nothing c env id w others h =
    ground (arith, rows-revisit_unpaid c env id (get_tokens_for_session c id w.tokens) w others h)

-- the rows as the page found them, or as the others left them meanwhile
abbrev pub Unminted : Env → World → World → Type 0
Unminted env w w' =
    (w'.tokens.tokens ≡ w.tokens.tokens)
    ⊎ (w'.tokens.tokens ≡ (env.meanwhile (after_read w)).tokens.tokens)

revisit-Unminted :
    (c : Crypto) (env : Env) (id : String) (o : Result (Option (List String × ℕ))) (w : World)
    {t : TokenRow} {ts : List TokenRow}
    → Sql.select (in_pack id) (env.meanwhile (after_read w)).tokens.tokens ≡ t ∷ ts
    → Unminted env w (revisit c env id o w).1
unfolding revisit
revisit-Unminted c env id (raised e) w h = inl refl
revisit-Unminted c env id (returned none) w h =
    inr (rows-verify_minted c env id (env.retrieve id) (env.meanwhile (after_read w)) h)
revisit-Unminted c env id (returned (some (ts, x))) w h = inl (
    ap (λ db. db.tokens)
      (tokens-log_event env.event_written
        (payment_success_revisit (ltb x env.event_now) (length ts)) (after_read w)))

if-Unminted :
    (b : Bool) (env : Env) (w : World) (x y : Page × World)
    → Unminted env w x.1
    → Unminted env w y.1
    → Unminted env w (if b then x else y).1
if-Unminted true env w x y l r = l
if-Unminted false env w x y l r = r

-- Whatever the other handlers do while the page waits for Stripe: once they leave a token of the
-- session, the page mints none, and the rows are those that it found or those that they left.
pub payment_success-Unminted :
    (c : Crypto) (env : Env) (id : String) (w : World) {t : TokenRow} {ts : List TokenRow}
    → Sql.select (in_pack id) (env.meanwhile (after_read w)).tokens.tokens ≡ t ∷ ts
    → Unminted env w (payment_success c env id w).1
unfolding payment_success
payment_success-Unminted c env id w h =
    if-Unminted (not (starts_with_cs (codes id))) env w _ _ (inl refl) (
      if-Unminted (circuit_is_open env.monotonic w.breaker) env w _ _ (inl refl) (
        if-Unminted env.read_locked env w _ _ (inl refl)
          (revisit-Unminted c env id (get_tokens_for_session c id w.tokens) w h)))
