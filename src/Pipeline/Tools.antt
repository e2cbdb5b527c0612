-- ===== src/Pipeline/Tools.antt =====
-- The tools that web_service/pipeline_runner.py runs: commands, how they end, and the errors that they
-- print; with its data types.

use ebook_automation.Text.{strip}
use ebook_automation.Common.{
  ℕ, zero, suc, ◌*◌, Bool, ◌&&◌, ◌||◌, Option, none, some, List, [], ◌∷◌, ◌++◌, ltb, leb, ◌==◌,
  if◌then◌else◌,
}

-- the exit code of a process, or the signal that ended it
pub data Returncode : Type 0 where
  exit_code by_signal : ℕ → Returncode

-- what `subprocess.run` comes to: its `TimeoutExpired`, its `OSError`, or the process's end with
-- its stdout and stderr
pub data Outcome : Type 0 where
  timed_out not_launched : Outcome
  completed : Returncode → List ℕ → List ℕ → Outcome

-- an entry of the job's directory
pub record Entry : Type 0 where
  pub name : List ℕ
  pub is_file : Bool
  pub size : ℕ
  pub mtime : ℕ

-- `ebook-convert`, under `xvfb-run` or not; extract_tts_text.py; visual_qa.py
pub data Command : Type 0 where
  ebook_convert : Bool → List ℕ → List ℕ → Command
  extract_text : Command
  visual_qa : List ℕ → Command

-- what visual_qa.py reports; a cost may be missing, or be there with no value
pub record Report : Type 0 where
  pub overall_score : Option ℕ
  pub overall_pass : Option Bool
  pub total_estimated_cost : Option (Option ℕ)
  pub estimated_cost : Option (Option ℕ)

-- the report's file as it is read; `malformed` is JSON that is not of the report's shape
pub data ReportFile : Type 0 where
  missing unreadable malformed : ReportFile
  readable : Report → ReportFile

pub record Host : Type 0 where
  pub run : Command → ℕ → List Entry → Outcome × List Entry
  -- `time.time()`, and the upload: its name, its stem, and its size if it is still there
  pub time : ℕ
  pub input_name : List ℕ
  pub input_stem : List ℕ
  pub input_size : Option ℕ
  -- the settings, and whether the directory of reports can be made
  pub premium_vqa_enabled : Bool
  pub has_api_key : Bool
  pub makes_vqa_dir : Bool
  pub report_of : List ℕ → List Entry → ReportFile
  -- `float` on digits and dots, `none` where it raises
  pub parse_float : List ℕ → Option ℕ

pub data Failure : Type 0 where
  conversion_timed_out : ℕ → Failure
  could_not_be_launched : Failure
  tool_failed : Option (List ℕ) → Returncode → Failure
  no_text_output no_output : Failure

pub data SkippedReason : Type 0 where
  disabled no_api_key timeout launch_error error missing_report parse_error : SkippedReason

pub record Vqa : Type 0 where
  pub score : Option ℕ
  pub passed : Option Bool
  pub cost : ℕ
  pub skipped_reason : Option SkippedReason

pub record Output : Type 0 where
  pub output_path : List ℕ
  pub output_size : ℕ
  pub gemini_cost : ℕ
  pub vqa : Vqa

pub data RunResult : Type 0 where
  unsuccessful : Failure → RunResult
  converted : Output → RunResult

-- `_TIMEOUT_TIERS` and `_timeout_for_size`
abbrev pub timeout_for_size : ℕ → ℕ
timeout_for_size n =
    if ltb n (10 * 1024 * 1024) then 120 else if ltb n (50 * 1024 * 1024) then 300 else 600

-- the characters that end a line for `str.splitlines`
abbrev pub ends_line : ℕ → Bool
ends_line c =
    (leb 10 c && leb c 13) || ((leb 28 c && leb c 30) || (c == 133 || (c == 8232 || c == 8233)))

abbrev pub or_line : List ℕ → Option (List ℕ) → Option (List ℕ)
or_line [] o = o
or_line (c ∷ cs) none = some (c ∷ cs)
or_line (c ∷ cs) (some l) = some l

-- the last line of a text that is not blank, stripped; `line` is what of the first line was read
unfoldable pub last_line : List ℕ → List ℕ → Option (List ℕ)
last_line line [] = or_line (strip line) none
last_line line (c ∷ cs) =
    let longer = last_line (line ++ c ∷ []) cs in
    let next = last_line [] cs in if ends_line c then or_line (strip line) next else longer

abbrev pub or_else : Option (List ℕ) → Option (List ℕ) → Option (List ℕ)
or_else (some l) o = some l
or_else none o = o

-- `_extract_calibre_error`; `none` stands for the message with the code
abbrev pub extract_calibre_error : List ℕ → List ℕ → Option (List ℕ)
extract_calibre_error stdout stderr = or_else (last_line [] stdout) (last_line [] stderr)

-- how a run of a tool that the conversion needs failed, if it did
unfoldable pub tool_failure : ℕ → Outcome → Option Failure
tool_failure t timed_out = some (conversion_timed_out t)
tool_failure t not_launched = some could_not_be_launched
tool_failure t (completed (exit_code zero) out err) = none
tool_failure t (completed (exit_code (suc n)) out err) =
    some (tool_failed (extract_calibre_error out err) (exit_code (suc n)))
tool_failure t (completed (by_signal n) out err) =
    some (tool_failed (extract_calibre_error out err) (by_signal n))

abbrev pub stdout_of : Outcome → List ℕ
stdout_of timed_out = []
stdout_of not_launched = []
stdout_of (completed r out err) = out
