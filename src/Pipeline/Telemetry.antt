-- ===== src/Pipeline/Telemetry.antt =====
-- `_extract_gemini_cost` and `_run_vqa` of web_service/pipeline_runner.py.
use ebook_automation.Raises.{Result, returned, raised, other_error}
use ebook_automation.Text.{strip_left}
use ebook_automation.Pipeline.Tools.{
  or_line, or_else, Outcome, Entry, ReportFile, Host, SkippedReason, Vqa, exit_code, by_signal,
  timed_out, not_launched, completed, visual_qa, missing, unreadable, malformed, readable, disabled,
  no_api_key, timeout, launch_error, error, missing_report, parse_error,
}
use ebook_automation.Common.{
  ℕ, zero, suc, Bool, not, ◌&&◌, ◌||◌, Option, none, some, List, [], ◌∷◌, leb, ◌==◌, if◌then◌else◌,
  codes,
}

abbrev pub is_digit : ℕ → Bool
is_digit c = leb b'0' c && leb c b'9'

unfoldable pub after_prefix : List ℕ → (List ℕ → Option (List ℕ)) → List ℕ → Option (List ℕ)
after_prefix [] k t = k t
after_prefix (p ∷ ps) k [] = none
after_prefix (p ∷ ps) k (c ∷ cs) = let rest = after_prefix ps k cs in if p == c then rest else none

unfoldable pub drop_digits : List ℕ → List ℕ
drop_digits [] = []
drop_digits (c ∷ cs) = let rest = drop_digits cs in if is_digit c then rest else c ∷ cs

-- `\d+`
abbrev pub after_digits : (List ℕ → Option (List ℕ)) → List ℕ → Option (List ℕ)
after_digits k [] = none
after_digits k (c ∷ cs) = if is_digit c then k (drop_digits cs) else none

unfoldable pub take_number : List ℕ → List ℕ
take_number [] = []
take_number (c ∷ cs) = let rest = take_number cs in if is_digit c || c == b'.' then c ∷ rest else []

-- `([\d.]+)`
abbrev pub number_at : List ℕ → Option (List ℕ)
number_at t = or_line (take_number t) none

-- `_GEMINI_COST_PATTERN` at the beginning of a text
unfoldable pub cost_at : List ℕ → Option (List ℕ)
cost_at = after_prefix (codes "Gemini remediated ") (
    after_digits (
      after_prefix (codes " pages,") (λ t.
        after_prefix (codes "cost:") (λ u. after_prefix (codes "$") number_at (strip_left u))
          (strip_left t))))

unfoldable pub search_cost : List ℕ → Option (List ℕ)
search_cost [] = none
search_cost (c ∷ cs) = or_else (cost_at (c ∷ cs)) (search_cost cs)

abbrev pub value_or_0 : Option ℕ → ℕ
value_or_0 none = 0
value_or_0 (some n) = n

-- `_extract_gemini_cost`
unfoldable pub extract_gemini_cost : Host → List ℕ → ℕ
extract_gemini_cost host out = elim (search_cost out) [
  | none ↦ 0
  | some digits ↦ value_or_0 (host.parse_float digits)
]

abbrev pub skipped : SkippedReason → Vqa
skipped r = record { score = none; passed = none; cost = 0; skipped_reason = some r }

-- `tu.get(total, tu.get(legacy, 0.0)) or 0.0`
abbrev pub report_cost : Option (Option ℕ) → Option (Option ℕ) → ℕ
report_cost (some total) legacy = value_or_0 total
report_cost none (some legacy) = value_or_0 legacy
report_cost none none = 0

abbrev pub read_report : ReportFile → Result Vqa
read_report missing = returned (skipped missing_report)
read_report unreadable = returned (skipped parse_error)
read_report malformed = raised other_error
read_report (readable r) = returned (record {
  score = r.overall_score;
  passed = r.overall_pass;
  cost = report_cost r.total_estimated_cost r.estimated_cost;
  skipped_reason = none;
})

abbrev pub finish_vqa : Host → List ℕ → Outcome × List Entry → Result Vqa
finish_vqa host output (timed_out, es) = returned (skipped timeout)
finish_vqa host output (not_launched, es) = returned (skipped launch_error)
finish_vqa host output (completed (exit_code zero) _ _, es) = read_report (host.report_of output es)
finish_vqa host output (completed (exit_code (suc n)) _ _, es) = returned (skipped error)
finish_vqa host output (completed (by_signal n) _ _, es) = returned (skipped error)

-- `_run_vqa`; what it leaves in the directory no later step reads
unfoldable pub run_vqa : Host → List ℕ → List Entry → Result Vqa
run_vqa host output es =
    if not host.premium_vqa_enabled
    then returned (skipped disabled)
    else if not host.has_api_key
    then returned (skipped no_api_key)
    else if not host.makes_vqa_dir
    then raised other_error
    else finish_vqa host output (host.run (visual_qa output) 180 es)
