-- ===== src/Kindle/Claims.antt =====
-- The claims of web_service/routes/send_to_kindle.py: `_try_claim`, `_mark_claim_sent` and
-- `_release_claim`, each one transaction on `kindle_send_idempotency`.
use ebook_automation.Sql
use ebook_automation.JobQueue.World.{Claim}
use ebook_automation.Common.{
  ℕ, ◌+◌, String, Bool, true, false, not, ◌&&◌, List, str_eq, ltb, ◌==◌, if◌then◌else◌,
}

abbrev pub idempotency_window_seconds : ℕ
idempotency_window_seconds = 60

-- `sent_at < now - 60`, the subtraction moved to the other side
abbrev pub is_past : ℕ → Claim → Bool
is_past now r = ltb (r.sent_at + idempotency_window_seconds) now

abbrev pub has_key : String → ℕ → Claim → Bool
has_key job_id h r = str_eq r.job_id job_id && r.recipient_hash == h

abbrev pub new_claim : String → ℕ → ℕ → Claim
new_claim job_id h now = record {
  job_id = job_id;
  recipient_hash = h;
  sent_at = now;
  is_sent = false;
}

-- `true` for 'claimed', `false` for 'already_sent'. A row with the key makes the INSERT raise,
-- and the sweep is rolled back with it.
unfoldable pub try_claim : String → ℕ → ℕ → List Claim → Bool × List Claim
try_claim job_id h now claims =
    let live = Sql.delete (is_past now) claims in
    if Sql.rowcount (has_key job_id h) live == 0
    then (true, Sql.insert (new_claim job_id h now) live)
    else (false, claims)

abbrev pub mark_sent : Claim → Claim
mark_sent r = record r { is_sent = true }

unfoldable pub mark_claim_sent : String → ℕ → List Claim → List Claim
mark_claim_sent job_id h claims = Sql.update (has_key job_id h) mark_sent claims

abbrev pub is_open_claim : String → ℕ → Claim → Bool
is_open_claim job_id h r = has_key job_id h r && not r.is_sent

unfoldable pub release_claim : String → ℕ → List Claim → List Claim
release_claim job_id h claims = Sql.delete (is_open_claim job_id h) claims
