-- ===== src/TokenStore/Refund.antt =====
-- `refund_token` of web_service/token_store.py. `refund_id` is what `uuid.uuid4()` gave.
use ebook_automation.Raises.{Result, returned, raised, integrity_error}
use ebook_automation.Sql
use ebook_automation.TokenStore.Schema.{
  TokenRow, LedgerRow, RefundOutcome, reverse_consumed, ledgered_only, Db, is_refundable,
  clear_used,
}
use ebook_automation.Common.{ℕ, String, Bool, true, false, List, str_eq, ◌==◌, if◌then◌else◌}

pub record RefundResult : Type 0 where
  pub refunded : Bool
  pub ledgered : Bool
  pub refund_id : String

abbrev pub has_refund_id : String → LedgerRow → Bool
has_refund_id id r = str_eq r.refund_id id

abbrev pub ledger_row : ℕ → String → String → String → ℕ → RefundOutcome → LedgerRow
ledger_row h failed_job_id reason refund_id now outcome = record {
  refund_id = refund_id;
  token_hash = h;
  failed_job_id = failed_job_id;
  refund_reason = reason;
  refunded_at = now;
  refund_outcome = outcome;
}

-- The INSERT into the ledger and the commit; a second row with the same key raises, and the
-- transaction is rolled back.
unfoldable pub record_refund :
    RefundOutcome
    → Bool
    → ℕ
    → String
    → String
    → String
    → ℕ
    → List TokenRow
    → Db
    → Result RefundResult × Db
record_refund outcome refunded h failed_job_id reason refund_id now tokens db =
    if Sql.rowcount (has_refund_id refund_id) db.refund_ledger == 0
    then (
      returned (record { refunded = refunded; ledgered = true; refund_id = refund_id }),
      record db {
        tokens = tokens;
        refund_ledger =
            Sql.insert (ledger_row h failed_job_id reason refund_id now outcome) db.refund_ledger;
      },
    )
    else (raised integrity_error, db)

unfoldable pub refund_token : ℕ → String → String → String → ℕ → Db → Result RefundResult × Db
unfolding record_refund
refund_token h failed_job_id reason refund_id now db =
    let tokens = Sql.update (is_refundable h now) clear_used db.tokens in
    if Sql.rowcount (is_refundable h now) db.tokens == 1
    then record_refund reverse_consumed true h failed_job_id reason refund_id now tokens db
    else record_refund ledgered_only false h failed_job_id reason refund_id now tokens db
