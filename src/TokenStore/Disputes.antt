-- ===== src/TokenStore/Disputes.antt =====
-- What a dispute and a cleanup leave of the tokens.

use ebook_automation.Sql
use ebook_automation.Sql.{rowcount}
use ebook_automation.Sql.Laws.{rowcount-update_keep, rowcount-delete_keep}
use ebook_automation.Crypto.{Crypto}
use ebook_automation.TokenFormat.{token_regex}
use ebook_automation.TokenStore.Schema.{
  TokenRow, Db, IsKeyed, has_hash, in_pack, is_consumable, is_refundable, mark_row_disputed,
}
use ebook_automation.TokenStore.Consume.{
  reject, disputed, disambiguate, consume_hash, validate_and_consume, mark_disputed,
  cleanup_expired_tokens, is_stale,
}
use ebook_automation.TokenStore.Refund.{refund_token}
use ebook_automation.TokenStore.Trace.{is_valid, has_refunded}
use ebook_automation.TokenStore.Outcomes.{row_of}
use ebook_automation.TokenStore.Schema.{Db, IsKeyed, is_consumable, is_refundable}
use ebook_automation.TokenStore.Consume.{
  reject, disputed, disambiguate, consume_hash, validate_and_consume, mark_disputed,
  cleanup_expired_tokens, is_stale,
}
use ebook_automation.Sql.Laws.{rowcount-update_keep, rowcount-delete_keep}
use ebook_automation.TokenStore.Refund.{refund_token}
use ebook_automation.TokenStore.Trace.{is_valid, has_refunded}
use ebook_automation.TokenStore.Outcomes.{row_of, validate_and_consume-verdict, refundable_of_row}
use ebook_automation.Crypto.{Crypto}
use ebook_automation.TokenFormat.{token_regex}
use ebook_automation.Common.{
  ℕ, ◌≤◌, String, ◌≡◌, refl, ◌∙◌, inl, inr, Bool, true, false, Option, none, some, List, [], ◌∷◌,
  map, arith, codes, Bool-cases,
}

-- the pack of a digest's row
abbrev pub is_row_in : String → Option TokenRow → Bool
is_row_in pack none = false
is_row_in pack (some r) = in_pack pack r

fetch_one-disputed :
    (h : ℕ) (pack : String) (now : ℕ) (rows : List TokenRow)
    → is_row_in pack (Sql.fetch_one (has_hash h) rows) ≡ true
    → (r : TokenRow) × (Sql.fetch_one
          (has_hash h)
          (Sql.update (in_pack pack) (mark_row_disputed now) rows)
        ≡ some r)
      × (r.disputed ≡ true)
unfolding Sql.fetch_one Sql.update
fetch_one-disputed h pack now [] e = cc
fetch_one-disputed h pack now (r ∷ rows) e = elim (Bool-cases (has_hash h r)) [
  | inl here ↦ (mark_row_disputed now r, ground arith, refl)
  | inr later ↦
      let (x, f, d) = fetch_one-disputed h pack now rows (ground arith) in (x, ground arith, d)
]

disputed-IsKeyed :
    (pack : String) (now : ℕ) (db : Db) → IsKeyed db → IsKeyed (mark_disputed pack now db).1
unfolding mark_disputed
disputed-IsKeyed pack now db k = record {
  at = λ h. omega (
    arith,
    k.at h,
    rowcount-update_keep (has_hash h) (in_pack pack) (mark_row_disputed now) db.tokens (λ r. refl),
  );
}

-- what the audit reads of a row's use
abbrev pub usage : List TokenRow → List (ℕ × Bool × Option ℕ)
usage = map (λ r. (r.token_hash, r.used, r.used_at))

usage-disputed :
    (pack : String) (now : ℕ) (rows : List TokenRow)
    → usage (Sql.update (in_pack pack) (mark_row_disputed now) rows) ≡ usage rows
unfolding Sql.update
usage-disputed pack now [] = refl
usage-disputed pack now (r ∷ rows) = ground (arith, usage-disputed pack now rows)

-- After a dispute of a pack, a token of the pack that has the token format is told `DISPUTED` with
-- status 402 at every time and cannot be refunded at any time, and no row's record of its use has
-- changed. No digest may stand in two rows before it.
pub dispute_revokes :
    (c : Crypto) (pack token : String) (now : ℕ) (db : Db)
    → IsKeyed db
    → token_regex (codes token) ≡ true
    → is_row_in pack (row_of (c.token_hash token) db) ≡ true
    → let db' = (mark_disputed pack now db).1 in
      ((later : ℕ) → (validate_and_consume c token later db').0 ≡ reject disputed 402)
      × ((job reason id : String) (later : ℕ)
          → has_refunded (refund_token (c.token_hash token) job reason id later db').0 ≡ false)
      × (usage db'.tokens ≡ usage db.tokens)
unfolding mark_disputed refund_token
dispute_revokes c pack token now db k format mine =
    let h = c.token_hash token in
    let db' = (mark_disputed pack now db).1 in
    let k' = disputed-IsKeyed pack now db k in
    let (r, found, d) = fetch_one-disputed h pack now db.tokens mine in
    (
      λ later.
          validate_and_consume-verdict c token later db' k' ∙ rw (format, found) (ground arith),
      λ job reason id later. ground (arith, refundable_of_row h later db'.tokens (k'.at h)),
      usage-disputed pack now db.tokens,
    )

-- At any time from a cleanup on, a consume of a token succeeds exactly when it would without the
-- cleanup, and a refund of a digest reports `refunded` exactly when it would without it.
pub cleanup_keeps_usable :
    (c : Crypto) (token : String) (now later : ℕ) (h : ℕ) (job reason id : String) (db : Db)
    → now ≤ later
    → let db' = (cleanup_expired_tokens now db).1 in
      (is_valid (validate_and_consume c token later db').0
        ≡ is_valid (validate_and_consume c token later db).0)
      × (has_refunded (refund_token h job reason id later db').0
          ≡ has_refunded (refund_token h job reason id later db).0)
unfolding cleanup_expired_tokens validate_and_consume consume_hash disambiguate refund_token
cleanup_keeps_usable c token now later h job reason id db le = (
  ground (
    arith,
    rowcount-delete_keep (is_consumable (c.token_hash token) later) (is_stale now) db.tokens
        (λ r e. ground arith),
  ),
  ground (
    arith,
    rowcount-delete_keep (is_refundable h later) (is_stale now) db.tokens (λ r e. ground arith),
  ),
)
