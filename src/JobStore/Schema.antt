-- ===== src/JobStore/Schema.antt =====
-- The row of `jobs` in web_service/job_store.py, with its later columns.
use ebook_automation.Common.{ℕ, String, Bool, true, false, Option, str_eq}

pub data Status : Type 0 where
  queued running done failed expired : Status

-- `status != ?` and `status == ?` of the statements and the routes
abbrev pub is_expired : Status → Bool
is_expired expired = true
is_expired _ = false

abbrev pub is_done : Status → Bool
is_done done = true
is_done _ = false

-- what `kindle_delivery_status` holds: the value that Send-to-Kindle writes, and the four that
-- the Resend webhook writes
pub data Delivery : Type 0 where
  accepted_by_resend delivered_to_mail_server bounced delivery_failed delivery_delayed : Delivery

-- The costs are floats in the source, and are only stored: here they are numbers of
-- micro-dollars.
pub record Job : Type 0 where
  pub job_id : String
  pub status : Status
  pub tier : String
  pub input_fmt : String
  pub output_fmt : String
  pub token_hash : Option String
  pub created_at : ℕ
  pub expires_at : ℕ
  pub error_msg : Option String
  pub input_path : String
  pub output_path : Option String
  pub output_size : Option ℕ
  pub temp_dir : String
  pub gemini_cost_usd : ℕ
  pub vqa_score : Option ℕ
  pub vqa_pass : Option Bool
  pub vqa_cost_usd : ℕ
  pub vqa_skipped_reason : Option String
  pub original_filename : Option String
  pub parent_job_id : Option String
  pub resend_message_id : Option String
  pub kindle_delivery_status : Option Delivery

abbrev pub has_id : String → Job → Bool
has_id id j = str_eq j.job_id id
