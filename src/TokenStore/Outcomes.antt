-- ===== src/TokenStore/Outcomes.antt =====
-- `validate_and_consume` and `refund_token` against the state of the one row of a digest.

use ebook_automation.Sql
use ebook_automation.Sql.{rowcount}
use ebook_automation.Sql.Laws.{rowcount_mono, fetch_one-rowcount}
use ebook_automation.Crypto.{Crypto}
use ebook_automation.TokenFormat.{token_regex}
use ebook_automation.TokenStore.Schema.{
  is_refundable, TokenRow, Db, IsKeyed, has_hash, is_consumable,
}
use ebook_automation.TokenStore.Consume.{
  TokenValidationResult, valid, reject, malformed, invalid_or_expired, already_used, disputed,
  consume_hash, validate_and_consume,
}
use ebook_automation.Common.{
  ℕ, ◌≤◌, String, ◌≡◌, refl, not, ◌&&◌, Option, none, some, List, [], ◌∷◌, arith, ltb,
  if◌then◌else◌, codes,
}

-- The specification: what a holder of a token is told, by the state of its row. A dispute comes
-- before a use, a use before expiry, and an unknown token is told what an expired one is told.
abbrev pub verdict : ℕ → Option TokenRow → TokenValidationResult
verdict now none = reject invalid_or_expired 422
verdict now (some r) =
    if r.disputed
    then reject disputed 402
    else if r.used
    then reject already_used 422
    else if ltb now r.expires_at
    then valid
    else reject invalid_or_expired 422

-- the row of a digest
abbrev pub row_of : ℕ → Db → Option TokenRow
row_of h db = Sql.fetch_one (has_hash h) db.tokens

abbrev consumable_row : ℕ → Option TokenRow → ℕ
consumable_row now none = 0
consumable_row now (some r) =
    if not r.used && (not r.disputed && ltb now r.expires_at) then 1 else 0

-- Where at most one row has the digest, the rows that the UPDATE matches are read off it.
consumable_of_row :
    (h now : ℕ) (rows : List TokenRow)
    → rowcount (has_hash h) rows ≤ 1
    → rowcount (is_consumable h now) rows ≡ consumable_row now (Sql.fetch_one (has_hash h) rows)
unfolding Sql.rowcount Sql.fetch_one
consumable_of_row h now [] k = refl
consumable_of_row h now (r ∷ rows) k = ground (
  arith,
  consumable_of_row h now rows,
  fetch_one-rowcount (has_hash h) rows,
  rowcount_mono (is_consumable h now) (has_hash h) rows (λ x e. ground arith),
)

-- A consume answers by the token's format and then by the state of its row, as the specification
-- `verdict` says, on a table with no digest in two rows.
pub validate_and_consume-verdict :
    (c : Crypto) (token : String) (now : ℕ) (db : Db)
    → IsKeyed db
    → (validate_and_consume c token now db).0 ≡ (
        if token_regex (codes token)
        then verdict now (row_of (c.token_hash token) db)
        else reject malformed 422)
unfolding validate_and_consume consume_hash
validate_and_consume-verdict c token now db k =
    let h = c.token_hash token in ground (arith, consumable_of_row h now db.tokens (k.at h))

-- whether a refund can clear the use of a row
abbrev pub refundable_row : ℕ → Option TokenRow → ℕ
refundable_row now none = 0
refundable_row now (some r) = if r.used && (not r.disputed && ltb now r.expires_at) then 1 else 0

pub refundable_of_row :
    (h now : ℕ) (rows : List TokenRow)
    → rowcount (has_hash h) rows ≤ 1
    → rowcount (is_refundable h now) rows ≡ refundable_row now (Sql.fetch_one (has_hash h) rows)
unfolding Sql.rowcount Sql.fetch_one
refundable_of_row h now [] k = refl
refundable_of_row h now (r ∷ rows) k = ground (
  arith,
  refundable_of_row h now rows,
  fetch_one-rowcount (has_hash h) rows,
  rowcount_mono (is_refundable h now) (has_hash h) rows (λ x e. ground arith),
)
