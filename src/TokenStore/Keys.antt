-- ===== src/TokenStore/Keys.antt =====
-- The primary key of `tokens` in web_service/token_store.py, over the calls.
use ebook_automation.Sql
use ebook_automation.Sql.{rowcount}
use ebook_automation.Sql.Laws.{rowcount-update_keep, rowcount-delete-le}
use ebook_automation.Crypto.{Crypto}
use ebook_automation.TokenStore.Schema.{
  Db, empty, IsKeyed, has_hash, in_pack, is_consumable, is_refundable, mark_used, clear_used,
  mark_row_disputed,
}
use ebook_automation.TokenStore.Mint.{generate}
use ebook_automation.TokenStore.Consume.{
  consume_hash, validate_and_consume, mark_disputed, cleanup_expired_tokens, is_stale,
}
use ebook_automation.TokenStore.Refund.{refund_token}
use ebook_automation.TokenStore.Inserts.{insert_all_keyed, mint_tokens_cases}
use ebook_automation.TokenStore.Trace.{Call, mint, consume, dispute, refund, cleanup, step, run}
use ebook_automation.Common.{ℕ, ◌≤◌, inl, inr, List, [], ◌∷◌, arith}

pub IsKeyed-empty : IsKeyed empty
unfolding Sql.rowcount
IsKeyed-empty = record { at = λ h. omega arith }

module _ (c : Crypto) where
  -- for each digest, a call leaves at most one row if there was at most one
  step_keyed :
      (call : Call) (db : Db) (h : ℕ)
      → IsKeyed db
      → rowcount (has_hash h) (step c call db).tokens ≤ 1
  unfolding step validate_and_consume consume_hash mark_disputed refund_token cleanup_expired_tokens
  step_keyed (mint s n pi now random) db h k = elim (mint_tokens_cases c s pi now n random db) [
    | inl same ↦ rw same (k.at h)
    | inr made ↦ rw made (insert_all_keyed c s pi now h (generate c random 0 n) db.tokens (k.at h))
  ]
  step_keyed (consume token now) db h k =
      let d = c.token_hash token in
      ground (
        arith,
        k.at h,
        rowcount-update_keep (has_hash h) (is_consumable d now) (mark_used now) db.tokens
            (λ r. ground arith),
      )
  step_keyed (dispute pack now) db h k = omega (
    arith,
    k.at h,
    rowcount-update_keep (has_hash h) (in_pack pack) (mark_row_disputed now) db.tokens
        (λ r. ground arith),
  )
  step_keyed (refund d job reason id now) db h k = ground (
    arith,
    k.at h,
    rowcount-update_keep (has_hash h) (is_refundable d now) clear_used db.tokens
        (λ r. ground arith),
  )
  step_keyed (cleanup now) db h k =
      omega (arith, k.at h, rowcount-delete-le (has_hash h) (is_stale now) db.tokens)

  -- Every call keeps the key: after it no digest stands in two rows, if none did before it.
  pub step-IsKeyed : (call : Call) (db : Db) → IsKeyed db → IsKeyed (step c call db)
  step-IsKeyed call db k = record { at = λ h. step_keyed call db h k }

  -- No run of mints, consumes, disputes, refunds and cleanups leaves two rows under one digest, if
  -- none were so before it.
  pub run-IsKeyed : (calls : List Call) (db : Db) → IsKeyed db → IsKeyed (run c calls db)
  unfolding run
  run-IsKeyed [] db k = k
  run-IsKeyed (call ∷ calls) db k = run-IsKeyed calls (step c call db) (step-IsKeyed call db k)
