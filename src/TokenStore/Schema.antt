-- ===== src/TokenStore/Schema.antt =====
-- The tables of web_service/token_store.py, and the conditions of its statements.
use ebook_automation.Common.{
  ℕ, ◌≤◌, String, Bool, true, false, not, ◌&&◌, Option, none, some, List, [], str_eq, ltb, ◌==◌,
}
use ebook_automation.Sql

-- A row of `tokens`. The columns `used` and `disputed` hold 0 or 1; each writer writes one of
-- the two.
pub record TokenRow : Type 0 where
  pub token_hash : ℕ
  pub token_encrypted : String
  pub key_version : ℕ
  pub pack_id : String
  pub payment_intent_id : Option String
  pub created_at : ℕ
  pub expires_at : ℕ
  pub used : Bool
  pub used_at : Option ℕ
  pub disputed : Bool
  pub disputed_at : Option ℕ

-- A row of `failed_mints`, whose key is the session and the attempt.
pub record FailedMint : Type 0 where
  pub session_id : String
  pub pack : String
  pub error : String
  pub attempt_count : ℕ
  pub created_at : ℕ

pub data RefundOutcome : Type 0 where
  reverse_consumed ledgered_only : RefundOutcome

-- A row of `refund_ledger`, whose key is `refund_id`.
pub record LedgerRow : Type 0 where
  pub refund_id : String
  pub token_hash : ℕ
  pub failed_job_id : String
  pub refund_reason : String
  pub refunded_at : ℕ
  pub refund_outcome : RefundOutcome

pub record Db : Type 0 where
  pub tokens : List TokenRow
  pub failed_mints : List FailedMint
  pub refund_ledger : List LedgerRow

abbrev pub empty : Db
empty = record { tokens = []; failed_mints = []; refund_ledger = [] }

abbrev pub has_hash : ℕ → TokenRow → Bool
has_hash h r = r.token_hash == h

abbrev pub in_pack : String → TokenRow → Bool
in_pack pack r = str_eq r.pack_id pack

-- the `WHERE` of the consuming UPDATE
abbrev pub is_consumable : ℕ → ℕ → TokenRow → Bool
is_consumable h now r = has_hash h r && (not r.used && (not r.disputed && ltb now r.expires_at))

-- the `WHERE` of the reversing UPDATE
abbrev pub is_refundable : ℕ → ℕ → TokenRow → Bool
is_refundable h now r = has_hash h r && (r.used && (not r.disputed && ltb now r.expires_at))

-- `SET used=1, used_at=?`
abbrev pub mark_used : ℕ → TokenRow → TokenRow
mark_used now r = record r { used = true; used_at = some now }

-- `SET used = 0, used_at = NULL`
abbrev pub clear_used : TokenRow → TokenRow
clear_used r = record r { used = false; used_at = none }

-- `SET disputed=1, disputed_at=?`
abbrev pub mark_row_disputed : ℕ → TokenRow → TokenRow
mark_row_disputed now r = record r { disputed = true; disputed_at = some now }

-- `token_hash` is the primary key: no digest stands in two rows.
pub record IsKeyed (db : Db) : Type 0 where
  pub at : (h : ℕ) → Sql.rowcount (has_hash h) db.tokens ≤ 1
