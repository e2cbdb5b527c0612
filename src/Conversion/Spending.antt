-- ===== src/Conversion/Spending.antt =====
-- What the consume of a token leaves, with other tasks running meanwhile.

use ebook_automation.CircuitBreaker.{db_call_failed}
use ebook_automation.Crypto.{Crypto}
use ebook_automation.TokenStore.Schema.{Db}
use ebook_automation.TokenStore.Consume
use ebook_automation.TokenStore.Consume.{
  TokenValidationError, TokenValidationResult, consume_hash, validate_and_consume,
}
use ebook_automation.JobQueue.World.{World}
use ebook_automation.JobQueue.Refunds.{IsQuiet}
use ebook_automation.Conversion.Charge.{
  Env, Charge, charged, refused, unavailable, consume_token, settle_consume,
}
use ebook_automation.Common.{ℕ, String, ◌≡◌, sym, ap, ◌∙◌, Bool, true, false, arith, if◌then◌else◌}

rejected_same :
    (c : Crypto) (token : String) (now : ℕ) (db : Db) {e : TokenValidationError}
    → (validate_and_consume c token now db).0 ≡ Consume.invalid e
    → (validate_and_consume c token now db).1 ≡ db
unfolding validate_and_consume consume_hash
rejected_same c token now db e = ground arith

pub valid_hash :
    (c : Crypto) (token : String) (now : ℕ) (db : Db)
    → (validate_and_consume c token now db).0 ≡ Consume.valid
    → validate_and_consume c token now db ≡ consume_hash (c.token_hash token) now db
unfolding validate_and_consume
valid_hash c token now db e = ground arith

module _ (c : Crypto) (env : Env) (token : String) (w₀ : World) where
  -- the consume, and the database after it
  abbrev pub consume_by : TokenValidationResult × Db
  consume_by = validate_and_consume c token env.now w₀.tokens

  -- how the consume ended, and what it left
  abbrev pub Charged : Charge × World → Type 0
  Charged (charged, w) = (consume_by.0 ≡ Consume.valid) × (w.tokens ≡ consume_by.1)
  Charged (refused _, w) = w.tokens ≡ w₀.tokens
  Charged (unavailable, w) = w.tokens ≡ w₀.tokens

  settle-Charged :
      (r : TokenValidationResult) (w : World)
      → consume_by.0 ≡ r
      → w.tokens ≡ consume_by.1
      → Charged (settle_consume r w)
  unfolding settle_consume
  settle-Charged Consume.valid w e same = (e, same)
  settle-Charged (Consume.invalid err) w e same =
      same ∙ rejected_same c token env.now w₀.tokens {e = err} e

  if-Charged :
      (b : Bool) (x y : Charge × World) → Charged x → Charged y → Charged (if b then x else y)
  if-Charged true x y p q = p
  if-Charged false x y p q = q

  module _ (waiting : IsQuiet env.while_waiting) (resuming : IsQuiet env.while_resuming) where
    pub consume-Charged : Charged (consume_token c env token w₀)
    unfolding consume_token
    consume-Charged =
        let v = env.while_waiting w₀ in
        let (r, db) = validate_and_consume c token env.now v.tokens in
        let v' = record v { tokens = db } in
        let same = (waiting w₀).0 in
        if-Charged env.consume_locked
          (unavailable, record v { breaker = db_call_failed env.monotonic v.breaker })
          (settle_consume r (env.while_resuming v')) same
          (settle-Charged r (env.while_resuming v')
            (sym (ap (λ db. (validate_and_consume c token env.now db).0) same))
            ((resuming v').0 ∙ ap (λ db. (validate_and_consume c token env.now db).1) same))
