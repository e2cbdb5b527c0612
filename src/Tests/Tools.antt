-- ===== src/Tests/Tools.antt =====
-- The pipeline runner at a concrete conversion.
use ebook_automation.BookFiler.Unique.{stem_suffix}
use ebook_automation.Text.{
  rpartition, extend_parts, text_eq, strip, strip_right, strip_left, lower_char, is_space,
}
use ebook_automation.Raises.{returned}
use ebook_automation.Pipeline.Runs.{convert_premium, finish_premium, run_premium}
use ebook_automation.Pipeline.Telemetry.{
  run_vqa, extract_gemini_cost, search_cost, cost_at, take_number, drop_digits, after_prefix,
}
use ebook_automation.Pipeline.Outputs.{verify_output, find_newest_kfx, ends_with_kfx, find_entry}
use ebook_automation.Pipeline.Tools.{
  tool_failure, last_line, Outcome, timed_out, completed, exit_code, Entry, Command, extract_text,
  ebook_convert, visual_qa, Host, missing, Output, timeout, converted, timeout_for_size,
}
use ebook_automation.Pipeline.Delivered.{Delivers, run_premium-Delivers}
use ebook_automation.Common.{ℕ, ◌≡◌, refl, true, none, some, List, [], ◌∷◌, codes, length}

-- tools that extract a text and convert it; the file that Calibre writes has another name
abbrev toy_run : Command → ℕ → List Entry → Outcome × List Entry
toy_run extract_text t es = (
  completed (exit_code 0) (codes "Gemini remediated 3 pages, cost: $0.0120") [],
  record { name = codes "a_kindle.txt"; is_file = true; size = 9; mtime = 101 } ∷ es,
)
toy_run (ebook_convert headless input output) t es = (
  completed (exit_code 0) [] [],
  record { name = codes "a.kfx"; is_file = true; size = 0; mtime = 102 } ∷ es,
)
toy_run (visual_qa output) t es = (timed_out, es)

abbrev toy_host : Host
toy_host = record {
  run = toy_run;
  time = 100;
  input_name = codes "a.pdf";
  input_stem = codes "a";
  input_size = some 2000;
  premium_vqa_enabled = true;
  has_api_key = true;
  makes_vqa_dir = true;
  report_of = λ output es. missing;
  parse_float = λ digits. some (length digits);
}

-- what the job reports: an empty book
abbrev toy_output : Output
toy_output = record {
  output_path = codes "a.kfx";
  output_size = 0;
  gemini_cost = 6;
  vqa = record { score = none; passed = none; cost = 0; skipped_reason = some timeout };
}

empty_kfx_converts : run_premium toy_host (codes "kfx") [] ≡ returned (converted toy_output)
unfolding last_line tool_failure find_entry ends_with_kfx find_newest_kfx verify_output after_prefix
    drop_digits take_number cost_at search_cost extract_gemini_cost run_vqa finish_premium
    convert_premium run_premium is_space lower_char strip_left strip_right strip text_eq
    extend_parts rpartition stem_suffix
empty_kfx_converts = refl

run_premium-Delivers_example : Delivers toy_host (codes "kfx") (timeout_for_size 2000) [] toy_output
run_premium-Delivers_example =
    run_premium-Delivers toy_host (codes "kfx") 2000 [] toy_output refl empty_kfx_converts
