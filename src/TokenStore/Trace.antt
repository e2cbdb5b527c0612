-- ===== src/TokenStore/Trace.antt =====
-- The calls that change the table of tokens, and what a run of them leaves.
use ebook_automation.Raises.{Result, returned, raised}
use ebook_automation.Sql
use ebook_automation.Crypto.{Crypto, Minted}
use ebook_automation.TokenStore.Schema.{Db, has_hash}
use ebook_automation.TokenStore.Mint.{mint_tokens_if_absent}
use ebook_automation.TokenStore.Consume.{
  TokenValidationResult, valid, invalid, validate_and_consume, mark_disputed,
  cleanup_expired_tokens,
}
use ebook_automation.TokenStore.Refund.{RefundResult, refund_token}
use ebook_automation.Common.{
  ℕ, ◌+◌, ◌-◌, String, Bool, true, false, ◌&&◌, Option, List, [], ◌∷◌, ◌==◌, if◌then◌else◌,
}

pub data Call : Type 0 where
  mint : String → ℕ → Option String → ℕ → (ℕ → Minted) → Call
  consume : String → ℕ → Call
  dispute : String → ℕ → Call
  refund : ℕ → String → String → String → ℕ → Call
  cleanup : ℕ → Call

abbrev pub is_valid : TokenValidationResult → Bool
is_valid valid = true
is_valid (invalid _) = false

abbrev pub has_refunded : Result RefundResult → Bool
has_refunded (returned r) = r.refunded
has_refunded (raised _) = false

module _ (c : Crypto) where
  -- the database after a call
  unfoldable pub step : Call → Db → Db
  step (mint session_id count pi now random) db =
      (mint_tokens_if_absent c session_id count pi now random db).1
  step (consume token now) db = (validate_and_consume c token now db).1
  step (dispute pack_id now) db = (mark_disputed pack_id now db).1
  step (refund h job reason refund_id now) db = (refund_token h job reason refund_id now db).1
  step (cleanup now) db = (cleanup_expired_tokens now db).1

  -- 1 for a consume of the digest that reported success
  unfoldable pub spent : ℕ → Call → Db → ℕ
  spent h (consume token now) db =
      if is_valid (validate_and_consume c token now db).0 && c.token_hash token == h then 1 else 0
  spent h _ db = 0

  -- 1 for a refund of the digest that reported `refunded=True`
  unfoldable pub refunded : ℕ → Call → Db → ℕ
  refunded h (refund k job reason refund_id now) db =
      if has_refunded (refund_token k job reason refund_id now db).0 && k == h then 1 else 0
  refunded h _ db = 0

  -- the rows of the digest that a mint added
  unfoldable pub minted : ℕ → Call → Db → ℕ
  minted h (mint session_id count pi now random) db =
      Sql.rowcount (has_hash h) (mint_tokens_if_absent c session_id count pi now random db).1.tokens
      - Sql.rowcount (has_hash h) db.tokens
  minted h _ db = 0

  unfoldable pub run : List Call → Db → Db
  run [] db = db
  run (call ∷ calls) db = run calls (step call db)

  unfoldable pub total : (Call → Db → ℕ) → List Call → Db → ℕ
  total count [] db = 0
  total count (call ∷ calls) db = count call db + total count calls (step call db)
