-- ===== src/Conversion/Fairness.antt =====
-- What a request that starts a conversion costs.
use mathlib.Core.Path.{subst}
use ebook_automation.Raises.{Result, returned, raised}
use ebook_automation.Sql
use ebook_automation.Crypto.{Crypto}
use ebook_automation.TokenStore.Schema.{Db, IsKeyed}
use ebook_automation.TokenStore.Consume
use ebook_automation.Conversion.Upload
use ebook_automation.Conversion.Upload.{ValidationResult}
use ebook_automation.TokenStore.Consume.{
  TokenValidationError, TokenValidationResult, consume_hash, validate_and_consume,
}
use ebook_automation.TokenStore.Outcomes.{row_of}
use ebook_automation.TokenStore.Refund.{RefundResult, refund_token, has_refund_id}
use ebook_automation.TokenStore.Reversal.{IsClean, expires_after, refund_restores}
use ebook_automation.JobQueue.World.{tokens-log_event, World}
use ebook_automation.JobQueue.Refunds.{IsQuiet}
use ebook_automation.JobQueue.Sweep.{remove_directory}
use ebook_automation.Conversion.Charge.{
  HttpCode, job_setup_failed_refund_unconfirmed, Response, accepted, http_error, Env, Charge,
  charged, refused, unavailable, consume_token, precheck_token, status_of,
}
use ebook_automation.Conversion.Spending.{consume_by, Charged, consume-Charged, valid_hash}
use ebook_automation.Conversion.Convert.{
  Upload, confirm_refund, refund_setup, refund_after_setup_failure, answer_refund, fail_setup,
  set_up, finish_setup, start_job, after_charge, charge_premium, convert_valid, convert_file,
}
use ebook_automation.Common.{
  text_of, ℕ, String, ◌≡◌, refl, sym, ap, ◌∙◌, Bool, true, false, not, Option, none, some, arith,
  str_eq, if◌then◌else◌,
}

tokens-set_up :
    (env : Env) (u : Upload) (fmt : String) (o : Option String) (w : World)
    → ((set_up env u fmt o w).1.tokens ≡ w.tokens)
      × ((set_up env u fmt o w).1.billing_ready ≡ w.billing_ready)
unfolding set_up
tokens-set_up env u fmt o w = ground arith

tokens-start_free :
    (c : Crypto) (env : Env) (s : Result (Unit {0}) × World)
    → (finish_setup c env none s).1.tokens ≡ s.1.tokens
unfolding finish_setup fail_setup
tokens-start_free c env (returned _, w) = refl
tokens-start_free c env (raised e, w) = refl

convert_valid-free :
    (c : Crypto) (env : Env) (u : Upload) (w : World) (r : ValidationResult)
    → str_eq u.tier "premium" ≡ false
    → (convert_valid c env u r w).1.tokens ≡ w.tokens
unfolding convert_valid start_job
convert_valid-free c env u w (Upload.invalid code status) free = refl
convert_valid-free c env u w (Upload.valid fmt) free =
    let started = tokens-start_free c env (set_up env u fmt none w) in
    let kept = (tokens-set_up env u fmt none w).0 in ground (arith, started, kept)

-- A conversion outside the premium tier changes no token, whatever token was sent with it and
-- however it ends.
pub free_convert_keeps_tokens :
    (c : Crypto) (env : Env) (u : Upload) (w : World)
    → str_eq u.tier "premium" ≡ false
    → (convert_file c env u w).1.tokens ≡ w.tokens
unfolding convert_file
free_convert_keeps_tokens c env u w free = convert_valid-free c env u w _ free

-- Whether an answer means that the token is spent: the job was accepted, or the answer says that
-- the credit could not be given back.
abbrev pub is_charged : Response → Bool
is_charged (accepted _) = true
is_charged (http_error _ job_setup_failed_refund_unconfirmed) = true
is_charged (http_error _ _) = false

abbrev is_harmless : Option HttpCode → Bool
is_harmless none = true
is_harmless (some code) = not (is_charged (http_error (status_of code) code))

precheck-harmless :
    (env : Env) (o : Option String) (w : World) → is_harmless (precheck_token env o w) ≡ true
unfolding precheck_token
precheck-harmless env none w = refl
precheck-harmless env (some t) w = ground arith

module _ (c : Crypto) (env : Env) (u : Upload) (w₀ : World) where
  abbrev token_of : String
  token_of = text_of u.token

  abbrev digest : ℕ
  digest = c.token_hash token_of

  abbrev pub consume_of : TokenValidationResult × Db
  consume_of = consume_by c env token_of w₀

  -- what the rows of the tokens are after an answer
  abbrev pub Fair : Response × World → Type 0
  Fair (r, w) = w.tokens.tokens ≡ (if is_charged r then consume_of.1.tokens else w₀.tokens.tokens)

  -- The tokens after the refund: as they were before the consume if it is confirmed.
  abbrev Refunded : Bool × World → Type 0
  Refunded (confirmed, w) =
      w.tokens.tokens ≡ (if confirmed then w₀.tokens.tokens else consume_of.1.tokens)

  answer-Fair : (r : Bool × World) → Refunded r → Fair (answer_refund r)
  answer-Fair (true, w) same = same
  answer-Fair (false, w) same = same

  if-Refunded :
      (b : Bool) (x y : Bool × World) → Refunded x → Refunded y → Refunded (if b then x else y)
  if-Refunded true x y p q = p
  if-Refunded false x y p q = q

  if-Fair : (b : Bool) (x y : Response × World) → Fair x → Fair y → Fair (if b then x else y)
  if-Fair true x y p q = p
  if-Fair false x y p q = q

  confirm-Refunded :
      (r : Result RefundResult) (w : World)
      → r ≡ returned (record { refunded = true; ledgered = true; refund_id = env.refund_id })
      → w.tokens.tokens ≡ w₀.tokens.tokens
      → Refunded (confirm_refund env.logs env.new_job_id r w)
  unfolding confirm_refund
  confirm-Refunded r w e same =
      subst (λ r. Refunded (confirm_refund env.logs env.new_job_id r w)) (sym e)
        (ap (λ (d : Db). d.tokens) (tokens-log_event env.logs _ w) ∙ same)

  module _ (waiting : IsQuiet env.while_waiting) (resuming : IsQuiet env.while_resuming)
      (refunding : IsQuiet env.while_refunding) (keyed : IsKeyed w₀.tokens)
      (clean : IsClean w₀.tokens.tokens)
      (alive : consume_of.0 ≡ Consume.valid
        → expires_after env.refund_time (row_of digest w₀.tokens) ≡ true)
      (fresh : Sql.rowcount (has_refund_id env.refund_id) w₀.tokens.refund_ledger ≡ 0) where
    refund-Refunded :
        (w : World)
        → consume_of.0 ≡ Consume.valid
        → w.tokens ≡ consume_of.1
        → Refunded (refund_setup env (some digest) w)
    unfolding refund_setup
    refund-Refunded w ok same =
        let v = env.while_refunding w in
        let reason : String = "convert_setup_failed" in
        let (r, db) =
          refund_token digest env.new_job_id reason env.refund_id env.refund_time v.tokens in
        let hashed = valid_hash c token_of env.now w₀.tokens ok in
        let kept = (refunding w).0 ∙ same in
        let to_hash = kept ∙ ap (λ p. p.1) hashed in
        let (told, back) =
          refund_restores digest env.now env.refund_time env.new_job_id reason env.refund_id
            w₀.tokens keyed clean (sym (ap (λ p. p.0) hashed) ∙ ok) (alive ok) fresh in
        let refund = refund_token digest env.new_job_id reason env.refund_id env.refund_time in
        if-Refunded (not w.billing_ready) (false, w) _ (ap (λ (d : Db). d.tokens) same)
          (if-Refunded env.refund_locked (false, v) _ (ap (λ (d : Db). d.tokens) kept)
            (confirm-Refunded r (record v { tokens = db }) (ap (λ d. (refund d).0) to_hash ∙ told)
              (ap (λ d. (refund d).1.tokens) to_hash ∙ back)))

    fail-Fair :
        (w : World)
        → consume_of.0 ≡ Consume.valid
        → w.tokens ≡ consume_of.1
        → Fair (fail_setup c env (some (c.hex digest)) w)
    unfolding fail_setup refund_after_setup_failure
    fail-Fair w ok same =
        simp (c.hex_nonempty digest, c.from_hex-hex digest)
          (answer-Fair (refund_setup env (some digest) w) (refund-Refunded w ok same))

    finish-Fair :
        (s : Result (Unit {0}) × World)
        → consume_of.0 ≡ Consume.valid
        → s.1.tokens ≡ consume_of.1
        → Fair (finish_setup c env (some (c.hex digest)) s)
    unfolding finish_setup
    finish-Fair (returned _, w) ok same = ap (λ (d : Db). d.tokens) same
    finish-Fair (raised e, w) ok same =
        fail-Fair
          (record w { directories = remove_directory (env.job_dir env.new_job_id) w.directories })
          ok same

    after_charge-Fair :
        (fmt : String) (x : Charge × World)
        → Charged c env token_of w₀ x
        → Fair (after_charge c env u fmt token_of x)
    unfolding after_charge start_job
    after_charge-Fair fmt (refused code, w) same = ap (λ (d : Db). d.tokens) same
    after_charge-Fair fmt (unavailable, w) same = ap (λ (d : Db). d.tokens) same
    after_charge-Fair fmt (charged, w) (ok, same) =
        let hex = some (c.hex digest) in
        finish-Fair (set_up env u fmt hex w) ok ((tokens-set_up env u fmt hex w).0 ∙ same)

    charge_premium-Fair :
        (fmt : String) (o : Option HttpCode)
        → is_harmless o ≡ true
        → Fair (charge_premium c env u fmt o w₀)
    unfolding charge_premium
    charge_premium-Fair fmt none h =
        after_charge-Fair fmt (consume_token c env token_of w₀)
          (consume-Charged c env token_of w₀ waiting resuming)
    charge_premium-Fair fmt (some code) h = ground arith

    convert_valid-Fair :
        (r : ValidationResult) → str_eq u.tier "premium" ≡ true → Fair (convert_valid c env u r w₀)
    unfolding convert_valid
    convert_valid-Fair (Upload.invalid code status) premium = refl
    convert_valid-Fair (Upload.valid fmt) premium =
        simp premium (
          charge_premium-Fair fmt (precheck_token env u.token w₀)
            (precheck-harmless env u.token w₀))

    -- A premium conversion that is not accepted costs nothing: the rows of the tokens are those
    -- that the consume leaves if the job was accepted, or if the answer is the one that says that
    -- the refund is unconfirmed, and are otherwise what they were. It is assumed that no digest
    -- stands in two rows, that a row not used has no time of use, that other tasks leave the
    -- tokens alone meanwhile, that a token that was consumed has not expired when the refund
    -- runs, and that the refund's id is new.
    pub convert_charges_fairly :
        str_eq u.tier "premium" ≡ true
        → (convert_file c env u w₀).1.tokens.tokens ≡ (
            if is_charged (convert_file c env u w₀).0
            then consume_of.1.tokens
            else w₀.tokens.tokens)
    unfolding convert_file
    convert_charges_fairly premium = convert_valid-Fair _ premium
