-- ===== src/Stripe/Deliveries.antt =====
-- What a Stripe event may do to the tokens.
use ebook_automation.Sql
use ebook_automation.CircuitBreaker.{db_call_failed}
use ebook_automation.Raises.{
  value_error, invalid_token, integrity_error, operational_error, other_error, Result, returned,
  raised,
}
use ebook_automation.Crypto.{Crypto, Minted}
use ebook_automation.TokenStore.Schema.{in_pack, Db, IsKeyed, TokenRow}
use ebook_automation.TokenStore.Mint.{
  from_rows, settle, mint_or_read, MintResult, mint_tokens_if_absent,
}
use ebook_automation.TokenStore.FailedMints.{record_failed_mint, insert_failed_mint}
use ebook_automation.TokenStore.Trace.{mint, dispute, step}
use ebook_automation.TokenStore.Keys.{step-IsKeyed}
use ebook_automation.JobQueue.World.{World}
use ebook_automation.CircuitBreaker.{db_call_failed}
use ebook_automation.Stripe.{
  find_session_by_payment_intent, StripeEvent, Env, pack_token_count, pack_of, text_or, attempt,
  note_failed_mint, settle_mint, mint_session, checkout_paid, dispute_session, dispute_found,
  dispute_created, is_checkout, is_dispute, handle_event, accept_event, stripe_webhook,
}
use ebook_automation.Common.{
  ℕ, String, ◌≡◌, refl, ◌∙◌, ◌⊎◌, inl, inr, Bool, true, false, not, ◌&&◌, Option, none, some, List,
  ◌∷◌, arith, ◌==◌, if◌then◌else◌, is_text, is_truthy, Bool-cases,
}

-- A checkout whose funds were captured: a checkout event, paid, of a known pack and a session.
abbrev pub is_paid_checkout : StripeEvent → Bool
is_paid_checkout ev =
    is_checkout ev
    && (is_truthy ev.id
        && (is_text ev.payment_status "paid" && not (pack_token_count (pack_of ev) == 0)))

-- An event that is neither a paid checkout of a known pack nor a dispute leaves everything as it
-- is: no token is minted before the funds were captured.
pub unpaid_event_changes_nothing :
    (c : Crypto) (env : Env) (ev : StripeEvent) (w : World)
    → is_paid_checkout ev ≡ false
    → is_dispute ev ≡ false
    → (stripe_webhook c env (some ev) w).1 ≡ w
unfolding stripe_webhook accept_event handle_event checkout_paid
unpaid_event_changes_nothing c env ev w unpaid fair = ground arith

pub rows-record_failed_mint :
    (s pack err : String) (now : ℕ) (db : Db)
    → (record_failed_mint s pack err now db).1.tokens ≡ db.tokens
unfolding record_failed_mint insert_failed_mint
rows-record_failed_mint s pack err now db = ground arith

pub rows-attempt :
    {A : Type 0} (b : Bool) (db : Db) (r : Result A × Db)
    → (attempt b db r).1.tokens ≡ (if b then db.tokens else r.1.tokens)
rows-attempt true db r = refl
rows-attempt false db r = refl

rows-note :
    (env : Env) (s pack : String) (w : World)
    → (note_failed_mint env s pack w).tokens.tokens ≡ w.tokens.tokens
unfolding note_failed_mint
rows-note env s pack w = elim (Bool-cases env.record_locked) [
  | inl locked ↦ rw locked refl
  | inr free ↦ rw free (rows-record_failed_mint s pack env.error_text env.now w.tokens)
]

rows-settle :
    (env : Env) (s pack : String) (r : Result MintResult) (w : World)
    → (settle_mint env s pack r w).1.tokens.tokens ≡ w.tokens.tokens
unfolding settle_mint
rows-settle env s pack (returned m) w = refl
rows-settle env s pack (raised value_error) w = refl
rows-settle env s pack (raised invalid_token) w = refl
rows-settle env s pack (raised integrity_error) w = refl
rows-settle env s pack (raised other_error) w = refl
rows-settle env s pack (raised operational_error) w =
    rows-note env s pack (record w { breaker = db_call_failed env.monotonic w.breaker })

-- The rows after a paid checkout: what the mint leaves, or what there was where SQLite is locked.
pub rows-mint :
    (c : Crypto) (env : Env) (s : String) (pi : Option String) (pack : String) (w : World)
    → (mint_session c env s pi pack w).1.tokens.tokens ≡ (
        if env.is_locked
        then w.tokens.tokens
        else (mint_tokens_if_absent c s
            (pack_token_count pack)
            pi
            env.now
            env.random
            w.tokens).1.tokens)
unfolding mint_session
rows-mint c env s pi pack w =
    let r = mint_tokens_if_absent c s (pack_token_count pack) pi env.now env.random w.tokens in
    let a = attempt env.is_locked w.tokens r in
    rows-settle env s pack a.0 (record w { tokens = a.1 }) ∙ rows-attempt env.is_locked w.tokens r

-- A session that has tokens keeps them as they are.
pub rows-minted :
    (c : Crypto) (s : String) (n : ℕ) (pi : Option String) (now : ℕ) (random : ℕ → Minted) (db : Db)
    {r : TokenRow} {rs : List TokenRow}
    → Sql.select (in_pack s) db.tokens ≡ r ∷ rs
    → (mint_tokens_if_absent c s n pi now random db).1 ≡ db
unfolding mint_tokens_if_absent mint_or_read
rows-minted c s n pi now random db {r = r} {rs = rs} some_rows =
    ground (arith, settle_same (from_rows c (r ∷ rs)))
  where
    settle_same : (m : Result MintResult) → (settle c m db db).1 ≡ db
    settle_same (returned m) = refl
    settle_same (raised e) = refl

-- Stripe delivers an event at least once, and the success page mints too: once the table has a
-- token of a session, no event about the session other than a dispute changes a row of the
-- tokens, whatever the time, the randomness and the errors of SQLite.
pub session_minted_once :
    (c : Crypto) (env : Env) (ev : StripeEvent) (w : World) {r : TokenRow} {rs : List TokenRow}
    → Sql.select (in_pack (text_or "" ev.id)) w.tokens.tokens ≡ r ∷ rs
    → is_dispute ev ≡ false
    → (stripe_webhook c env (some ev) w).1.tokens.tokens ≡ w.tokens.tokens
unfolding stripe_webhook accept_event handle_event checkout_paid
session_minted_once c env ev w some_rows fair =
    let s = text_or "" ev.id in
    ground (
      arith,
      rows-mint c env s ev.payment_intent (pack_of ev) w,
      rows-minted c s (pack_token_count (pack_of ev)) ev.payment_intent env.now env.random w.tokens
          some_rows,
    )

IsKeyed-rows : (db db' : Db) → db'.tokens ≡ db.tokens → IsKeyed db → IsKeyed db'
IsKeyed-rows db db' same k = record { at = λ h. rw same (k.at h) }

mint-IsKeyed :
    (c : Crypto) (env : Env) (s : String) (pi : Option String) (pack : String) (w : World)
    → IsKeyed w.tokens
    → IsKeyed (mint_session c env s pi pack w).1.tokens
unfolding step
mint-IsKeyed c env s pi pack w k = by_lock (Bool-cases env.is_locked)
  where
    after : World
    after = (mint_session c env s pi pack w).1

    minted : Db
    minted = (mint_tokens_if_absent c s (pack_token_count pack) pi env.now env.random w.tokens).1

    by_lock : (env.is_locked ≡ true) ⊎ (env.is_locked ≡ false) → IsKeyed after.tokens
    by_lock (inl locked) =
        IsKeyed-rows w.tokens after.tokens (rows-mint c env s pi pack w ∙ simp locked) k
    by_lock (inr free) =
        IsKeyed-rows minted after.tokens (rows-mint c env s pi pack w ∙ simp free)
          (step-IsKeyed c (mint s (pack_token_count pack) pi env.now env.random) w.tokens k)

dispute_found-IsKeyed :
    (c : Crypto) (env : Env) (o : Option String) (w : World)
    → IsKeyed w.tokens
    → IsKeyed (dispute_found env o w).1.tokens
unfolding dispute_found dispute_session step
dispute_found-IsKeyed c env o w k =
    let disputed = step-IsKeyed c (dispute (text_or "" o) env.now) w.tokens k in
    ground (arith, disputed)

checkout_paid-IsKeyed :
    (c : Crypto) (env : Env) (ev : StripeEvent) (w : World)
    → IsKeyed w.tokens
    → IsKeyed (checkout_paid c env ev w).1.tokens
unfolding checkout_paid
checkout_paid-IsKeyed c env ev w k =
    let minted = mint-IsKeyed c env (text_or "" ev.id) ev.payment_intent (pack_of ev) w k in
    ground (arith, minted)

dispute_created-IsKeyed :
    (c : Crypto) (env : Env) (ev : StripeEvent) (w : World)
    → IsKeyed w.tokens
    → IsKeyed (dispute_created env ev w).1.tokens
unfolding dispute_created
dispute_created-IsKeyed c env ev w k =
    let pi = text_or "" ev.payment_intent in
    let by_stripe = dispute_found-IsKeyed c env (env.retrieve pi) w k in
    let by_store = dispute_found-IsKeyed c env (find_session_by_payment_intent pi w.tokens) w k in
    ground (arith, by_stripe, by_store)

handle_event-IsKeyed :
    (c : Crypto) (env : Env) (ev : StripeEvent) (w : World)
    → IsKeyed w.tokens
    → IsKeyed (handle_event c env ev w).1.tokens
unfolding handle_event
handle_event-IsKeyed c env ev w k =
    let paid = checkout_paid-IsKeyed c env ev w k in
    let disputed = dispute_created-IsKeyed c env ev w k in ground (arith, paid, disputed)

-- No event leaves two rows under one digest of the tokens, if none were so before it, whatever
-- Stripe, SQLite and the randomness do.
pub stripe_webhook-IsKeyed :
    (c : Crypto) (env : Env) (event : Option StripeEvent) (w : World)
    → IsKeyed w.tokens
    → IsKeyed (stripe_webhook c env event w).1.tokens
unfolding stripe_webhook accept_event
stripe_webhook-IsKeyed c env none w k = ground arith
stripe_webhook-IsKeyed c env (some ev) w k =
    let handled = handle_event-IsKeyed c env ev w k in ground (arith, handled)
