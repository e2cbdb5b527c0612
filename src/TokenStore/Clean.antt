-- ===== src/TokenStore/Clean.antt =====
-- The time of use of unused rows over the calls of web_service/token_store.py, which its refund
-- relies on.
use ebook_automation.Sql
use ebook_automation.Sql.{select, update, delete, insert}
use ebook_automation.Crypto.{Crypto}
use ebook_automation.TokenStore.Schema.{
  TokenRow, Db, empty, is_consumable, is_refundable, in_pack, mark_used, clear_used,
  mark_row_disputed,
}
use ebook_automation.TokenStore.Mint.{Generated, generate, insert_all, new_row}
use ebook_automation.TokenStore.Consume.{
  consume_hash, validate_and_consume, mark_disputed, cleanup_expired_tokens, is_stale,
}
use ebook_automation.TokenStore.Refund.{refund_token, has_refund_id}
use ebook_automation.TokenStore.Inserts.{mint_tokens_cases}
use ebook_automation.TokenStore.Reversal.{IsClean, expires_after, refund_restores}
use ebook_automation.Raises.{returned}
use ebook_automation.TokenStore.Consume.{valid}
use ebook_automation.TokenStore.Outcomes.{row_of}
use ebook_automation.TokenStore.Keys.{run-IsKeyed, IsKeyed-empty}
use ebook_automation.TokenStore.Trace.{Call, mint, consume, dispute, refund, cleanup, step, run}
use ebook_automation.Common.{
  ℕ, String, ◌≡◌, refl, inl, inr, Bool, true, false, not, Option, none, List, [], ◌∷◌, arith,
  if◌then◌else◌,
}

abbrev IsCleanRow : TokenRow → Type 0
IsCleanRow r = r.used ≡ false → r.used_at ≡ none

IsClean-insert :
    (r : TokenRow) (rows : List TokenRow) → IsCleanRow r → IsClean rows → IsClean (insert r rows)
unfolding insert
IsClean-insert r [] one all = (one, tt)
IsClean-insert r (x ∷ rows) one all = (all.0, IsClean-insert r rows one all.1)

IsClean-update :
    (p : TokenRow → Bool) (f : TokenRow → TokenRow) (rows : List TokenRow)
    → ((r : TokenRow) → IsCleanRow r → IsCleanRow (f r))
    → IsClean rows
    → IsClean (update p f rows)
unfolding update
IsClean-update p f [] keep all = tt
IsClean-update p f (r ∷ rows) keep all = (by_match (p r), IsClean-update p f rows keep all.1)
  where
    by_match : (b : Bool) → IsCleanRow (if b then f r else r)
    by_match true = keep r all.0
    by_match false = all.0

IsClean-select :
    (p : TokenRow → Bool) (rows : List TokenRow) → IsClean rows → IsClean (select p rows)
unfolding select
IsClean-select p [] all = tt
IsClean-select p (r ∷ rows) all =
    let rest = IsClean-select p rows all.1 in
    let whole : IsClean (r ∷ select p rows) = (all.0, rest) in ground (arith, rest, whole)

module _ (c : Crypto) where
  IsClean-insert_all :
      (s : String) (pi : Option String) (now : ℕ) (gs : List Generated) (rows : List TokenRow)
      → IsClean rows
      → IsClean (insert_all c s pi now gs rows).0
  unfolding insert_all
  IsClean-insert_all s pi now [] rows all = all
  IsClean-insert_all s pi now (g ∷ gs) rows all =
      let rest =
        IsClean-insert_all s pi now gs (Sql.insert (new_row c s pi now g) rows)
          (IsClean-insert (new_row c s pi now g) rows (λ u. refl) all) in
      ground (arith, rest)

  -- Every call leaves a clean table clean.
  step-IsClean : (call : Call) (db : Db) → IsClean db.tokens → IsClean (step c call db).tokens
  unfolding step validate_and_consume consume_hash mark_disputed refund_token cleanup_expired_tokens
      delete
  step-IsClean (mint s n pi now random) db all = elim (mint_tokens_cases c s pi now n random db) [
    | inl same ↦ rw same all
    | inr made ↦ rw made (IsClean-insert_all s pi now (generate c random 0 n) db.tokens all)
  ]
  step-IsClean (consume token now) db all =
      let used =
        IsClean-update (is_consumable (c.token_hash token) now) (mark_used now) db.tokens
          (λ r clean u. cc) all in
      ground (arith, used)
  step-IsClean (dispute pack now) db all =
      IsClean-update (in_pack pack) (mark_row_disputed now) db.tokens (λ r clean. clean) all
  step-IsClean (refund d job reason id now) db all =
      let freed =
        IsClean-update (is_refundable d now) clear_used db.tokens (λ r clean u. refl) all in
      ground (arith, freed)
  step-IsClean (cleanup now) db all = IsClean-select (λ r. not (is_stale now r)) db.tokens all

  run-IsClean : (calls : List Call) (db : Db) → IsClean db.tokens → IsClean (run c calls db).tokens
  unfolding run
  run-IsClean [] db all = all
  run-IsClean (call ∷ calls) db all = run-IsClean calls (step c call db) (step-IsClean call db all)

  -- the database after calls on the empty store
  abbrev pub reached : List Call → Db
  reached calls = run c calls empty

  -- In every state that mints, consumes, disputes, refunds and cleanups lead to from the empty
  -- store: a consume that succeeded, and a refund of it before the token expires under a refund
  -- id that the ledger does not have, report success and leave the tokens as they were.
  pub refund_restores_reachable :
      (calls : List Call) (h now later : ℕ) (job reason id : String)
      → (consume_hash h now (reached calls)).0 ≡ valid
      → expires_after later (row_of h (reached calls)) ≡ true
      → Sql.rowcount (has_refund_id id) (reached calls).refund_ledger ≡ 0
      → let (r, db) = refund_token h job reason id later (consume_hash h now (reached calls)).1 in
        (r ≡ returned (record { refunded = true; ledgered = true; refund_id = id }))
        × (db.tokens ≡ (reached calls).tokens)
  refund_restores_reachable calls h now later job reason id =
      refund_restores h now later job reason id (reached calls)
        (run-IsKeyed c calls empty IsKeyed-empty) (run-IsClean calls empty tt)
