-- ===== src/Tests/Fixtures.antt =====
-- The values that the tests share: a cryptography whose digests are lengths, a token, the rows
-- of a store, a job and a world.
use ebook_automation.Sql
use ebook_automation.Crypto.{Crypto, Minted}
use ebook_automation.CircuitBreaker.{closed}
use ebook_automation.TokenStore.Schema.{TokenRow, Db, empty, IsKeyed}
use ebook_automation.JobStore.Schema.{Job, queued, done, bounced}
use ebook_automation.JobQueue.World.{World}
use ebook_automation.Common.{
  ℕ, zero, suc, ◌-◌, String, ◌≡◌, refl, ap, inl, inr, true, false, none, some, List, [], ◌∷◌, arith,
  str_eq, codes, length, Bool-cases, str_eq-true,
}

-- `n` written in unary
unfoldable pub unary : ℕ → String
unary zero = "x"
unary (suc n) = String.◌∷◌ "x" (unary n)

pub codes-unary : (n : ℕ) → length (codes (unary n)) ≡ suc n
unfolding unary
codes-unary zero = refl
codes-unary (suc n) = ap suc (codes-unary n)

pub unary_nonempty : (n : ℕ) → str_eq (unary n) "" ≡ false
unary_nonempty n = elim (Bool-cases (str_eq (unary n) "")) [
  | inr other ↦ other
  | inl same ↦
      let size : length (codes (unary n)) ≡ 0 =
        ap (λ s. length (codes s)) (str_eq-true (unary n) "" same) in
      absurd (omega (arith, codes-unary n, size))
]

pub unary_read : (d : ℕ) → length (codes (unary d)) - 1 ≡ d
unary_read d = omega (arith, codes-unary d)

abbrev pub toy : Crypto
toy = record {
  token_hash = λ t. length (codes t);
  encrypt = λ v iv t. t;
  decrypt = λ v t. some t;
  decrypt-encrypt = λ v iv t. refl;
  hex = unary;
  from_hex = λ t. some (length (codes t) - 1);
  from_hex-hex = λ d. ap some (unary_read d);
  hex_nonempty = unary_nonempty;
}

-- a token of the right format, whose digest is 49, and one without a row
abbrev pub token : String
token = "lb_pk_0123456789abcdefghijABCDEFGHIJ0123456789-_x"

abbrev pub row : TokenRow
row = record {
  token_hash = 49;
  token_encrypted = token;
  key_version = 1;
  pack_id = "cs_1";
  payment_intent_id = some "pi_1";
  created_at = 100;
  expires_at = 1000;
  used = false;
  used_at = none;
  disputed = false;
  disputed_at = none;
}

abbrev pub one_token : Db
one_token = record empty { tokens = row ∷ [] }

pub one_token-IsKeyed : IsKeyed one_token
unfolding Sql.rowcount
one_token-IsKeyed = record { at = λ h. ground arith }

-- a premium job that carries the token's digest
abbrev pub premium_job : Job
premium_job = record {
  job_id = "j1";
  status = queued;
  tier = "premium";
  input_fmt = "pdf";
  output_fmt = "epub";
  token_hash = some (unary 49);
  created_at = 200;
  expires_at = 900;
  error_msg = none;
  input_path = "/tmp/job_j1/input.pdf";
  output_path = none;
  output_size = none;
  temp_dir = "/tmp/job_j1";
  gemini_cost_usd = 0;
  vqa_score = none;
  vqa_pass = none;
  vqa_cost_usd = 0;
  vqa_skipped_reason = none;
  original_filename = some "book.pdf";
  parent_job_id = none;
  resend_message_id = none;
  kindle_delivery_status = none;
}

abbrev pub free_job : Job
free_job = record premium_job { job_id = "j2"; tier = "free"; token_hash = none }

-- a job that was converted and sent
abbrev pub sent_job : Job
sent_job = record free_job {
  job_id = "j3";
  status = done;
  output_path = some "/tmp/job_j3/book.epub";
  resend_message_id = some "m1";
  kindle_delivery_status = some bounced;
}

abbrev pub all_jobs : List Job
all_jobs = premium_job ∷ free_job ∷ sent_job ∷ []

abbrev pub world : World
world = record {
  jobs = all_jobs;
  tokens = one_token;
  claims = [];
  events = [];
  breaker = closed;
  queue_ready = true;
  billing_ready = true;
  directories = "/tmp/job_j1" ∷ "/tmp/job_j2" ∷ [];
  outbox = [];
  dispatched = [];
}

abbrev pub nothing : World → World
nothing w = w

abbrev pub minted : ℕ → Minted
minted n = record { text = token; iv = n }
