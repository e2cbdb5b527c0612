-- ===== src/TokenStore/Balance.antt =====
-- The balance of a digest over a whole run of calls, and single use.
use ebook_automation.Sql
use ebook_automation.Crypto.{Crypto}
use ebook_automation.TokenStore.Schema.{Db, empty, IsKeyed}
use ebook_automation.TokenStore.Trace.{
  Call, mint, consume, dispute, refund, cleanup, step, spent, refunded, minted, run, total,
}
use ebook_automation.TokenStore.Credits.{
  credit, consume-credit, refund-credit, dispute-credit, cleanup-credit, mint-credit,
}
use ebook_automation.TokenStore.Keys.{step-IsKeyed, IsKeyed-empty}
use ebook_automation.Common.{ℕ, ◌+◌, ◌≤◌, ◌≡◌, List, [], ◌∷◌, arith}

module _ (c : Crypto) (h : ℕ) where
  -- Each call: unused tokens of the digest afterwards and successful consumes are the unused
  -- tokens before, and refunds and mints.
  step-balance :
      (call : Call) (db : Db)
      → IsKeyed db
      → credit h (step c call db) + spent c h call db
        ≡ credit h db + refunded c h call db + minted c h call db
  unfolding spent refunded minted
  step-balance (mint s n pi now random) db k = omega (arith, mint-credit c h s n pi now random db)
  step-balance (consume token now) db k = omega (arith, consume-credit c h token now db)
  step-balance (dispute pack now) db k = omega (arith, dispute-credit c h pack now db)
  step-balance (refund d job reason id now) db k =
      omega (arith, refund-credit c h d job reason id now db k)
  step-balance (cleanup now) db k = omega (arith, cleanup-credit c h now db)

  -- Over any run of mints, consumes, disputes, refunds and cleanups on a table with no digest in
  -- two rows: the unused tokens of the digest at the end and the successful consumes of it are
  -- together the unused tokens at the start, the refunds that reported success and the rows that
  -- mints added. No call makes or loses a credit otherwise.
  pub run-balance :
      (calls : List Call) (db : Db)
      → IsKeyed db
      → credit h (run c calls db) + total c (spent c h) calls db
        ≡ credit h db + total c (refunded c h) calls db + total c (minted c h) calls db
  unfolding run total
  run-balance [] db k = omega arith
  run-balance (call ∷ calls) db k =
      omega (
        arith,
        step-balance call db k,
        run-balance calls (step c call db) (step-IsKeyed c call db k),
      )

  -- From an empty store, a token is consumed with success at most as often as its digest was
  -- minted and its consume was refunded.
  pub single_use :
      (calls : List Call)
      → total c (spent c h) calls empty
        ≤ total c (refunded c h) calls empty + total c (minted c h) calls empty
  unfolding credit Sql.rowcount
  single_use calls = omega (arith, run-balance calls empty IsKeyed-empty)
