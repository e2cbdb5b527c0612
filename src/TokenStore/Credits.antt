-- ===== src/TokenStore/Credits.antt =====
-- The unused tokens of a digest, and how each call of web_service/token_store.py changes their
-- number.

use ebook_automation.Sql
use ebook_automation.Sql.{rowcount}
use ebook_automation.TokenStore.Schema.{
  TokenRow, Db, has_hash, is_consumable, is_refundable, mark_used, clear_used,
}
use ebook_automation.Sql.Laws.{rowcount-update_keep, rowcount-delete_keep, rowcount_mono}
use ebook_automation.Crypto.{Crypto, Minted}
use ebook_automation.TokenStore.Schema.{Db, IsKeyed, in_pack, mark_row_disputed}
use ebook_automation.TokenStore.Mint.{generate}
use ebook_automation.TokenStore.Consume.{
  disambiguate, consume_hash, validate_and_consume, mark_disputed, cleanup_expired_tokens, is_stale,
}
use ebook_automation.TokenStore.Refund.{refund_token}
use ebook_automation.TokenStore.Inserts.{insert_all_grows, insert_all-le, mint_tokens_cases}
use ebook_automation.TokenStore.Trace.{
  mint, consume, dispute, refund, cleanup, step, spent, refunded, minted,
}
use ebook_automation.Common.{
  ℕ, ◌+◌, ◌≤◌, String, ◌≡◌, refl, inl, inr, Bool, not, ◌&&◌, Option, List, [], ◌∷◌, arith, ◌==◌,
  if◌then◌else◌,
}

abbrev pub is_unused : ℕ → TokenRow → Bool
is_unused h r = has_hash h r && not r.used

-- the unused tokens of a digest
unfoldable pub credit : ℕ → Db → ℕ
credit h db = rowcount (is_unused h) db.tokens

abbrev pub is_used : ℕ → TokenRow → Bool
is_used h r = has_hash h r && r.used

-- every row of a digest is used or unused
rowcount_split :
    (h : ℕ) (rows : List TokenRow)
    → rowcount (has_hash h) rows ≡ rowcount (is_unused h) rows + rowcount (is_used h) rows
unfolding Sql.rowcount
rowcount_split h [] = omega arith
rowcount_split h (r ∷ rows) = ground (arith, rowcount_split h rows)

-- An UPDATE that marks the consumable rows of `k` takes them from the unused rows of `k`.
rowcount-consume :
    (h k now : ℕ) (rows : List TokenRow)
    → rowcount (is_unused h) (Sql.update (is_consumable k now) (mark_used now) rows)
        + (if k == h then rowcount (is_consumable k now) rows else 0)
      ≡ rowcount (is_unused h) rows
unfolding Sql.rowcount Sql.update
rowcount-consume h k now [] = ground arith
rowcount-consume h k now (r ∷ rows) = ground (arith, rowcount-consume h k now rows)

rowcount-refund :
    (h k now : ℕ) (rows : List TokenRow)
    → rowcount (is_unused h) (Sql.update (is_refundable k now) clear_used rows)
      ≡ rowcount (is_unused h) rows + (if k == h then rowcount (is_refundable k now) rows else 0)
unfolding Sql.rowcount Sql.update
rowcount-refund h k now [] = ground arith
rowcount-refund h k now (r ∷ rows) = ground (arith, rowcount-refund h k now rows)

-- Consuming: one unused token of the digest fewer exactly when the call reported success.
pub consume-credit :
    (c : Crypto) (h : ℕ) (token : String) (now : ℕ) (db : Db)
    → credit h (step c (consume token now) db) + spent c h (consume token now) db ≡ credit h db
unfolding step spent credit validate_and_consume consume_hash disambiguate
consume-credit c h token now db =
    ground (arith, rowcount-consume h (c.token_hash token) now db.tokens)

refundable-le : (k now : ℕ) (db : Db) → IsKeyed db → rowcount (is_refundable k now) db.tokens ≤ 1
refundable-le k now db keyed = omega (
  arith,
  keyed.at k,
  rowcount_mono (is_refundable k now) (has_hash k) db.tokens (λ r e. ground arith),
)

pub refund-credit :
    (c : Crypto) (h k : ℕ) (job reason id : String) (now : ℕ) (db : Db)
    → IsKeyed db
    → credit h (step c (refund k job reason id now) db)
      ≡ credit h db + refunded c h (refund k job reason id now) db
unfolding step refunded credit refund_token
refund-credit c h k job reason id now db keyed =
    ground (arith, rowcount-refund h k now db.tokens, refundable-le k now db keyed)

pub dispute-credit :
    (c : Crypto) (h : ℕ) (pack : String) (now : ℕ) (db : Db)
    → credit h (step c (dispute pack now) db) ≡ credit h db
unfolding step credit mark_disputed
dispute-credit c h pack now db =
    rowcount-update_keep (is_unused h) (in_pack pack) (mark_row_disputed now) db.tokens (λ r. refl)

pub cleanup-credit :
    (c : Crypto) (h now : ℕ) (db : Db) → credit h (step c (cleanup now) db) ≡ credit h db
unfolding step credit cleanup_expired_tokens
cleanup-credit c h now db =
    rowcount-delete_keep (is_unused h) (is_stale now) db.tokens (λ r e. ground arith)

pub mint-credit :
    (c : Crypto) (h : ℕ) (s : String) (n : ℕ) (pi : Option String) (now : ℕ) (random : ℕ → Minted)
    (db : Db)
    → credit h (step c (mint s n pi now random) db)
      ≡ credit h db + minted c h (mint s n pi now random) db
unfolding step minted credit
mint-credit c h s n pi now random db =
    let gs = generate c random 0 n in
    elim (mint_tokens_cases c s pi now n random db) [
      | inl same ↦ rw same (omega arith)
      | inr made ↦ rw made (
          omega (
            arith,
            insert_all_grows c s pi now h (is_unused h) gs db.tokens (λ g. ground arith),
            insert_all-le c s pi now h gs db.tokens,
          ))
    ]
