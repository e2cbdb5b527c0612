-- ===== src/TokenStore/Consume.antt =====
-- `validate_and_consume`, `mark_disputed` and `cleanup_expired_tokens` of
-- web_service/token_store.py.
use ebook_automation.Sql
use ebook_automation.Crypto.{Crypto}
use ebook_automation.TokenFormat.{token_regex}
use ebook_automation.TokenStore.Schema.{
  TokenRow, Db, has_hash, in_pack, is_consumable, mark_used, mark_row_disputed,
}
use ebook_automation.Common.{
  ℕ, ◌+◌, ◌*◌, String, Bool, not, ◌&&◌, Option, none, some, ltb, ◌==◌, if◌then◌else◌, codes,
}

pub data ErrorCode : Type 0 where
  malformed invalid_or_expired already_used disputed : ErrorCode

pub record TokenValidationError : Type 0 where
  pub code : ErrorCode
  pub http_status : ℕ

-- `TokenValidationResult(ok=True)`, or `ok=False` with its error
pub data TokenValidationResult : Type 0 where
  valid : TokenValidationResult
  invalid : TokenValidationError → TokenValidationResult

abbrev pub reject : ErrorCode → ℕ → TokenValidationResult
reject code status = invalid (record { code = code; http_status = status })

-- why the UPDATE matched no row, by the row that the SELECT found
unfoldable pub disambiguate : Option TokenRow → TokenValidationResult
disambiguate none = reject invalid_or_expired 422
disambiguate (some r) =
    if r.disputed
    then reject disputed 402
    else if r.used
    then reject already_used 422
    else reject invalid_or_expired 422

-- The transaction, on the token's digest. Every rejection rolls back.
unfoldable pub consume_hash : ℕ → ℕ → Db → TokenValidationResult × Db
unfolding disambiguate
consume_hash h now db =
    if Sql.rowcount (is_consumable h now) db.tokens == 1
    then (valid, record db { tokens = Sql.update (is_consumable h now) (mark_used now) db.tokens })
    else (disambiguate (Sql.fetch_one (has_hash h) db.tokens), db)

unfoldable pub validate_and_consume : Crypto → String → ℕ → Db → TokenValidationResult × Db
unfolding consume_hash
validate_and_consume c token now db =
    if not (token_regex (codes token))
    then (reject malformed 422, db)
    else consume_hash (c.token_hash token) now db

-- the rows that were marked, and the database
unfoldable pub mark_disputed : String → ℕ → Db → ℕ × Db
mark_disputed pack_id now db = (
  Sql.rowcount (in_pack pack_id) db.tokens,
  record db { tokens = Sql.update (in_pack pack_id) (mark_row_disputed now) db.tokens },
)

-- `used=1 AND expires_at < now - 30 days`, the subtraction moved to the other side
abbrev pub is_stale : ℕ → TokenRow → Bool
is_stale now r = r.used && ltb (r.expires_at + 30 * 24 * 3600) now

unfoldable pub cleanup_expired_tokens : ℕ → Db → ℕ × Db
cleanup_expired_tokens now db = (
  Sql.rowcount (is_stale now) db.tokens,
  record db { tokens = Sql.delete (is_stale now) db.tokens },
)
