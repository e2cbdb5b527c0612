-- ===== src/TokenStore/Reversal.antt =====
-- A consume and its refund, in web_service/token_store.py.

use ebook_automation.Sql
use ebook_automation.TokenStore.Schema.{TokenRow, mark_used, clear_used}
use ebook_automation.Sql.Laws.{rowcount_mono, update-of_none}
use ebook_automation.Sql.{rowcount}
use ebook_automation.Sql
use ebook_automation.Raises.{returned}
use ebook_automation.TokenStore.Schema.{Db, IsKeyed, has_hash, is_consumable, is_refundable}
use ebook_automation.TokenStore.Consume.{valid, consume_hash}
use ebook_automation.TokenStore.Refund.{refund_token, has_refund_id}
use ebook_automation.TokenStore.Outcomes.{row_of}
use ebook_automation.TokenStore.Consume.{valid, consume_hash}
use ebook_automation.TokenStore.Refund.{refund_token, has_refund_id}
use ebook_automation.TokenStore.Outcomes.{row_of}
use ebook_automation.TokenStore.Schema.{Db, IsKeyed}
use ebook_automation.Raises.{returned}
use ebook_automation.Common.{
  ℕ, ◌≤◌, String, ◌≡◌, inl, inr, Bool, true, false, Option, none, some, List, [], ◌∷◌, arith, ltb,
  Bool-cases,
}

-- A row that is not used has no time of use, as each statement leaves it.
abbrev pub IsClean : List TokenRow → Type 0
IsClean [] = Unit {0}
IsClean (r ∷ rows) = (r.used ≡ false → r.used_at ≡ none) × IsClean rows

clear-mark :
    (now : ℕ) (r : TokenRow) → r.used ≡ false → r.used_at ≡ none → clear_used (mark_used now r) ≡ r
clear-mark now r u a = ground arith

-- the time at which the row of a digest expires
abbrev pub expires_after : ℕ → Option TokenRow → Bool
expires_after now none = false
expires_after now (some r) = ltb now r.expires_at

no_hash :
    (h now : ℕ) (rows : List TokenRow)
    → rowcount (has_hash h) rows ≡ 0
    → (rowcount (is_consumable h now) rows ≡ 0) × (rowcount (is_refundable h now) rows ≡ 0)
no_hash h now rows e = (
  omega (arith, rowcount_mono (is_consumable h now) (has_hash h) rows (λ r p. ground arith)),
  omega (arith, rowcount_mono (is_refundable h now) (has_hash h) rows (λ r p. ground arith)),
)

-- On the rows: marking the one consumable row of a digest and clearing it again.
undo_rows :
    (h now later : ℕ) (rows : List TokenRow)
    → IsClean rows
    → rowcount (has_hash h) rows ≤ 1
    → rowcount (is_consumable h now) rows ≡ 1
    → expires_after later (Sql.fetch_one (has_hash h) rows) ≡ true
    → let used = Sql.update (is_consumable h now) (mark_used now) rows in
      (rowcount (is_refundable h later) used ≡ 1)
      × (Sql.update (is_refundable h later) clear_used used ≡ rows)
unfolding rowcount Sql.update Sql.fetch_one
undo_rows h now later [] clean k one alive = absurd (omega arith)
undo_rows h now later (r ∷ rows) clean k one alive = elim (Bool-cases (has_hash h r)) [
  | inl mine ↦
      let rest : rowcount (has_hash h) rows ≡ 0 = ground arith in
      let now_none = no_hash h now rows rest in
      let later_none = no_hash h later rows rest in
      rw (update-of_none (is_consumable h now) (mark_used now) rows now_none.0) (
        ground (
          arith,
          later_none.1,
          update-of_none (is_refundable h later) clear_used rows later_none.1,
          clear-mark now r,
          clean.0,
        ))
  | inr other ↦ ground (arith, undo_rows h now later rows clean.1)
]

-- A consume that succeeded, and a refund of it before the token expires under a refund id that the
-- ledger does not have, where no digest stands in two rows and a row that is not used has no time
-- of use: the refund reports `refunded`, and the tokens are what they were before the consume.
pub refund_restores :
    (h now later : ℕ) (job reason id : String) (db : Db)
    → IsKeyed db
    → IsClean db.tokens
    → (consume_hash h now db).0 ≡ valid
    → expires_after later (row_of h db) ≡ true
    → rowcount (has_refund_id id) db.refund_ledger ≡ 0
    → let (r, db') = refund_token h job reason id later (consume_hash h now db).1 in
      (r ≡ returned (record { refunded = true; ledgered = true; refund_id = id }))
      × (db'.tokens ≡ db.tokens)
unfolding consume_hash refund_token
refund_restores h now later job reason id db k clean ok alive fresh =
    let one : rowcount (is_consumable h now) db.tokens ≡ 1 = ground arith in
    let (refundable, restored) = undo_rows h now later db.tokens clean (k.at h) one alive in
    ground (arith, one, refundable, restored)
