-- ===== src/Payment/Webhook.antt =====
-- The success page's mint beside that of the webhook.
use ebook_automation.Crypto.{Crypto, Minted}
use ebook_automation.Sql
use ebook_automation.TokenStore.Schema.{TokenRow, Db, in_pack}
use ebook_automation.TokenStore.Mint.{
  mint_tokens_if_absent, mint_or_read, mint_fresh, max_tokens_per_session, new_row, insert_all,
  generate,
}
use ebook_automation.TokenStore.Idempotence.{insert_all_fine}
use ebook_automation.JobQueue.World.{World}
use ebook_automation.Stripe
use ebook_automation.Stripe.{
  StripeEvent, attempt, text_or, pack_token_count, pack_of, stripe_webhook, accept_event,
  handle_event, checkout_paid,
}
use ebook_automation.Stripe.Deliveries.{rows-mint}
use ebook_automation.Payment.{Session, Env, page_token_count, count_to_mint, mint_page}
use ebook_automation.Payment.Pages.{rows-mint_page}
use ebook_automation.Common.{
  ℕ, String, ◌≡◌, refl, sym, ap, ◌∙◌, Bool, true, false, Option, some, List, [], ◌++◌, map, arith,
  ltb, ◌==◌, if◌then◌else◌, is_text, is_truthy, text_of,
}

-- One checkout, as the webhook's event and as the page's session, under the same conditions.
pub record SameCheckout (env : Env) (e : Stripe.Env) (ev : StripeEvent) (s : Session) : Type 0 where
  pub same_pack : ev.pack ≡ s.pack
  pub same_intent : ev.payment_intent ≡ some (text_of s.payment_intent)
  pub has_id : is_truthy ev.id ≡ true
  pub paid : is_text ev.payment_status "paid" ≡ true
  pub same_lock : env.mint_locked ≡ e.is_locked
  pub same_now : env.mint_now ≡ e.now
  pub same_random : env.random ≡ e.random

same_count :
    (pack : String)
    → (pack_token_count pack == 0) ≡ false
    → count_to_mint pack ≡ pack_token_count pack
unfolding count_to_mint page_token_count pack_token_count
same_count pack h = ground (arith, h)

three : (pack : String) → (pack_token_count pack == 0) ≡ true → count_to_mint pack ≡ 3
unfolding count_to_mint page_token_count pack_token_count
three pack h = ground (arith, h)

-- what a mint leaves
left : Crypto → String → World → ℕ → Option String → Bool → ℕ → (ℕ → Minted) → List TokenRow
left c id w n pi locked now random =
    if locked
    then w.tokens.tokens
    else (mint_tokens_if_absent c id n pi now random w.tokens).1.tokens

-- For a paid checkout of a known pack, the page's mint and the webhook's leave the same rows of
-- tokens, if they run under the same conditions: on one state of the tables, at one time, with the
-- same randomness, both with SQLite locked or both not, for a session that has an id and whose
-- payment intent the event names as the page does.
pub page_mints_as_webhook :
    (c : Crypto) (env : Env) (e : Stripe.Env) (ev : StripeEvent) (s : Session) (w : World)
    → SameCheckout env e ev s
    → (pack_token_count (pack_of ev) == 0) ≡ false
    → (mint_page c env (text_or "" ev.id) s w).1.tokens.tokens
      ≡ (checkout_paid c e ev w).1.tokens.tokens
unfolding checkout_paid left
page_mints_as_webhook c env e ev s w m known =
    let id = text_or "" ev.id in
    let pack = text_or "starter" s.pack in
    let known_pack : (pack_token_count pack == 0) ≡ false =
      ap (λ o. pack_token_count (text_or "starter" o) == 0) (sym m.same_pack) ∙ known in
    rows-mint_page c env id s w
    ∙ ap
        (λ n.
          left c id w n (some (text_of s.payment_intent)) env.mint_locked env.mint_now env.random)
        (same_count pack known_pack)
    ∙ ap
        (λ o.
          left c id w (pack_token_count (text_or "starter" o)) (some (text_of s.payment_intent))
            env.mint_locked env.mint_now env.random)
        (sym m.same_pack)
    ∙ ap
        (λ o. left c id w (pack_token_count (pack_of ev)) o env.mint_locked env.mint_now env.random)
        (sym m.same_intent)
    ∙ ap
        (λ b.
          left c id w (pack_token_count (pack_of ev)) ev.payment_intent b env.mint_now env.random)
        m.same_lock
    ∙ ap
        (λ t.
          left c id w (pack_token_count (pack_of ev)) ev.payment_intent e.is_locked t env.random)
        m.same_now
    ∙ ap (λ r. left c id w (pack_token_count (pack_of ev)) ev.payment_intent e.is_locked e.now r)
        m.same_random
    ∙ sym (rows-mint c e id ev.payment_intent (pack_of ev) w)
    ∙ ground (arith, m.has_id, m.paid, known)

mint_new :
    (c : Crypto) (id : String) (n : ℕ) (pi : Option String) (now : ℕ) (random : ℕ → Minted)
    (db : Db)
    → ltb max_tokens_per_session n ≡ false
    → ltb n 1 ≡ false
    → Sql.select (in_pack id) db.tokens ≡ []
    → (insert_all c id pi now (generate c random 0 n) db.tokens).1 ≡ false
    → (mint_tokens_if_absent c id n pi now random db).1.tokens
      ≡ db.tokens ++ map (new_row c id pi now) (generate c random 0 n)
unfolding mint_tokens_if_absent mint_or_read mint_fresh
mint_new c id n pi now random db few some_asked absent fine =
    simp (few, some_asked, absent, fine)
      (insert_all_fine c id pi now (generate c random 0 n) db.tokens fine)

-- For a paid checkout of a pack that is not known, the webhook changes nothing, and the page adds
-- three rows, which are new tokens of the session. It is assumed that the session has no token yet,
-- that SQLite is not locked, that no new digest stands in the table or comes twice, and that the two
-- run under the same conditions, as above: one pack, one payment intent that the event names, an id,
-- one time and the same randomness.
pub unknown_pack_mints_on_page :
    (c : Crypto) (env : Env) (e : Stripe.Env) (ev : StripeEvent) (s : Session) (w : World)
    → SameCheckout env e ev s
    → (pack_token_count (pack_of ev) == 0) ≡ true
    → env.mint_locked ≡ false
    → Sql.select (in_pack (text_or "" ev.id)) w.tokens.tokens ≡ []
    → (insert_all c
        (text_or "" ev.id)
        (some (text_of s.payment_intent))
        env.mint_now
        (generate c env.random 0 3)
        w.tokens.tokens).1
      ≡ false
    → ((checkout_paid c e ev w).1 ≡ w)
      × ((mint_page c env (text_or "" ev.id) s w).1.tokens.tokens
          ≡ w.tokens.tokens
            ++ map
                (new_row c (text_or "" ev.id) (some (text_of s.payment_intent)) env.mint_now)
                (generate c env.random 0 3))
unfolding checkout_paid left
unknown_pack_mints_on_page c env e ev s w m unknown free absent fine =
    let id = text_or "" ev.id in
    let pack = text_or "starter" s.pack in
    let unknown_pack : (pack_token_count pack == 0) ≡ true =
      ap (λ o. pack_token_count (text_or "starter" o) == 0) (sym m.same_pack) ∙ unknown in
    (
      ground (arith, unknown),
      rows-mint_page c env id s w
          ∙ ap
              (λ n.
                left c id w n (some (text_of s.payment_intent)) env.mint_locked env.mint_now
                  env.random)
              (three pack unknown_pack)
          ∙ ap (λ b. left c id w 3 (some (text_of s.payment_intent)) b env.mint_now env.random) free
          ∙ mint_new c id 3 (some (text_of s.payment_intent)) env.mint_now env.random w.tokens refl
              refl absent fine,
    )
