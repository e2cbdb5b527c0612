-- ===== src/TokenStore/Attempts.antt =====
-- The numbering of failed mints: `record_failed_mint` alone, and against another writer.
use ebook_automation.Raises.{returned, raised, integrity_error}
use ebook_automation.Sql
use ebook_automation.Sql.{rowcount}
use ebook_automation.Sql.Laws.{rowcount-insert}
use ebook_automation.TokenStore.Schema.{FailedMint, Db}
use ebook_automation.TokenStore.FailedMints.{
  max_attempt, has_attempt, insert_failed_mint, next_attempt, record_failed_mint,
}
use ebook_automation.Common.{
  max, ℕ, ◌+◌, ◌<◌, String, ◌≡◌, refl, true, List, [], ◌∷◌, arith, eq_refl, str_eq,
}

-- No row has a number above the largest.
above_max :
    (s : String) (n : ℕ) (rows : List FailedMint)
    → max_attempt s rows < n
    → rowcount (has_attempt s n) rows ≡ 0
unfolding max_attempt rowcount
above_max s n [] h = refl
above_max s n (r ∷ rows) h = ground (arith, above_max s n rows)

max_attempt-insert :
    (s : String) (r : FailedMint) (rows : List FailedMint)
    → str_eq r.session_id s ≡ true
    → max_attempt s (Sql.insert r rows) ≡ max (max_attempt s rows) r.attempt_count
unfolding max_attempt Sql.insert
max_attempt-insert s r [] same = ground arith
max_attempt-insert s r (x ∷ rows) same = ground (arith, max_attempt-insert s r rows same)

-- With no writer between its two statements, `record_failed_mint` never raises, and the next
-- attempt of the session gets the next number.
pub record_failed_mint_counts :
    (s pack err : String) (now : ℕ) (db : Db)
    → let (r, db') = record_failed_mint s pack err now db in
      (r ≡ returned tt) × (next_attempt s db' ≡ next_attempt s db + 1)
unfolding record_failed_mint insert_failed_mint next_attempt
record_failed_mint_counts s pack err now db =
    let row : FailedMint = record {
      session_id = s;
      pack = pack;
      error = err;
      attempt_count = max_attempt s db.failed_mints + 1;
      created_at = now;
    } in
    ground (
      arith,
      above_max s (max_attempt s db.failed_mints + 1) db.failed_mints,
      max_attempt-insert s row db.failed_mints (eq_refl s),
    )

recorded :
    (s pack err : String) (now : ℕ) (db : Db)
    → rowcount
        (has_attempt s (next_attempt s db))
        (record_failed_mint s pack err now db).1.failed_mints
      ≡ 1
unfolding record_failed_mint insert_failed_mint next_attempt
recorded s pack err now db =
    let n = max_attempt s db.failed_mints + 1 in
    let row : FailedMint = record {
      session_id = s;
      pack = pack;
      error = err;
      attempt_count = n;
      created_at = now;
    } in
    ground (
      arith,
      above_max s n db.failed_mints,
      rowcount-insert (has_attempt s n) row db.failed_mints,
      eq_refl s,
    )

insert_taken :
    (s pack err : String) (n now : ℕ) (db : Db)
    → rowcount (has_attempt s n) db.failed_mints ≡ 1
    → insert_failed_mint s pack err n now db ≡ (raised integrity_error, db)
unfolding insert_failed_mint
insert_taken s pack err n now db taken = ground arith

-- Of two writers that both read the number of the next attempt before either wrote, the second
-- raises `IntegrityError`, and its failed mint is not recorded.
pub failed_mints_race :
    (s pack err pack' err' : String) (now now' : ℕ) (db : Db)
    → let db' = (record_failed_mint s pack err now db).1 in
      insert_failed_mint s pack' err' (next_attempt s db) now' db' ≡ (raised integrity_error, db')
failed_mints_race s pack err pack' err' now now' db =
    insert_taken s pack' err' (next_attempt s db) now' (record_failed_mint s pack err now db).1
      (recorded s pack err now db)
