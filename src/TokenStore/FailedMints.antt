-- ===== src/TokenStore/FailedMints.antt =====
-- `record_failed_mint` and `cleanup_failed_mints` of web_service/token_store.py.
use ebook_automation.Raises.{Result, returned, raised, integrity_error}
use ebook_automation.Sql
use ebook_automation.TokenStore.Schema.{FailedMint, Db}
use ebook_automation.Common.{
  max, ℕ, ◌+◌, ◌*◌, String, Bool, ◌&&◌, List, [], ◌∷◌, str_eq, ltb, ◌==◌, if◌then◌else◌,
}

-- `SELECT MAX(attempt_count) ... WHERE session_id=?`, with 0 for no row
unfoldable pub max_attempt : String → List FailedMint → ℕ
max_attempt session_id [] = 0
max_attempt session_id (r ∷ rs) =
    let rest = max_attempt session_id rs in
    if str_eq r.session_id session_id then max r.attempt_count rest else rest

abbrev pub has_attempt : String → ℕ → FailedMint → Bool
has_attempt session_id attempt r = str_eq r.session_id session_id && r.attempt_count == attempt

-- The INSERT: the key is the session and the attempt. The SELECT before it takes no lock, so
-- another writer may come between the two: they are two steps here.
unfoldable pub insert_failed_mint : String → String → String → ℕ → ℕ → Db → Result (Unit {0}) × Db
insert_failed_mint session_id pack error attempt now db =
    if Sql.rowcount (has_attempt session_id attempt) db.failed_mints == 0
    then (
      returned tt,
      record db {
        failed_mints =
            Sql.insert
              (record {
                session_id = session_id;
                pack = pack;
                error = error;
                attempt_count = attempt;
                created_at = now;
              })
              db.failed_mints;
      },
    )
    else (raised integrity_error, db)

unfoldable pub next_attempt : String → Db → ℕ
unfolding max_attempt
next_attempt session_id db = max_attempt session_id db.failed_mints + 1

unfoldable pub record_failed_mint : String → String → String → ℕ → Db → Result (Unit {0}) × Db
unfolding insert_failed_mint next_attempt
record_failed_mint session_id pack error now db =
    insert_failed_mint session_id pack error (next_attempt session_id db) now db

-- `created_at < now - 7 days`, the subtraction moved to the other side
unfoldable pub cleanup_failed_mints : ℕ → Db → ℕ × Db
cleanup_failed_mints now db =
    let is_old = λ (r : FailedMint). ltb (r.created_at + 7 * 24 * 3600) now in
    (
      Sql.rowcount is_old db.failed_mints,
      record db { failed_mints = Sql.delete is_old db.failed_mints },
    )
