-- ===== src/Pipeline/Runs.antt =====
-- `run_free` and `run_premium` of web_service/pipeline_runner.py.
use ebook_automation.Raises.{Result, returned, raised, other_error}
use ebook_automation.Text.{text_eq}
use ebook_automation.Pipeline.Tools.{
  timeout_for_size, tool_failure, stdout_of, Outcome, Entry, Command, Host, Failure, Vqa, RunResult,
  ebook_convert, extract_text, no_text_output, no_output, unsuccessful, converted,
}
use ebook_automation.Pipeline.Outputs.{find_entry, verify_output}
use ebook_automation.Pipeline.Telemetry.{extract_gemini_cost, run_vqa}
use ebook_automation.Common.{
  ℕ, Bool, false, not, ◌&&◌, Option, none, some, List, ◌++◌, ◌==◌, if◌then◌else◌, codes,
}

abbrev pub output_name : List ℕ → List ℕ
output_name format = codes "output." ++ format

abbrev pub free_output : Option Entry → RunResult
free_output none = unsuccessful no_output
free_output (some e) = converted (record {
  output_path = e.name;
  output_size = e.size;
  gemini_cost = 0;
  vqa = record { score = none; passed = none; cost = 0; skipped_reason = none };
})

-- `run_free` after Calibre's run
abbrev pub finish_free : Host → List ℕ → Option Failure → List Entry → RunResult
finish_free host format (some f) es = unsuccessful f
finish_free host format none es = free_output (verify_output host.time (output_name format) es)

-- `run_free`; `input_path.stat` raises where the upload is gone
unfoldable pub run_free : Host → List ℕ → List Entry → Result RunResult
run_free host format es = elim host.input_size [
  | none ↦ raised other_error
  | some n ↦
      let (o, after) =
        host.run (ebook_convert false host.input_name (output_name format)) (timeout_for_size n)
          es in
      returned (finish_free host format (tool_failure (timeout_for_size n) o) after)
]

abbrev pub text_name : Host → List ℕ
text_name host = host.input_stem ++ codes "_kindle.txt"

abbrev pub has_text : Option Entry → Bool
has_text none = false
has_text (some e) = e.is_file && not (e.size == 0)

abbrev pub premium_output : ℕ → Entry → Result Vqa → Result RunResult
premium_output cost e (raised x) = raised x
premium_output cost e (returned v) =
    returned (
      converted
        (record { output_path = e.name; output_size = e.size; gemini_cost = cost; vqa = v }))

abbrev pub with_telemetry : Host → ℕ → List Entry → Option Entry → Result RunResult
with_telemetry host cost es none = returned (unsuccessful no_output)
with_telemetry host cost es (some e) = premium_output cost e (run_vqa host e.name es)

-- step 3, after Calibre's run
unfoldable pub finish_premium : Host → List ℕ → ℕ → Option Failure → List Entry → Result RunResult
finish_premium host format cost (some f) es = returned (unsuccessful f)
finish_premium host format cost none es =
    with_telemetry host cost es (verify_output host.time (output_name format) es)

abbrev pub convert_text : Host → List ℕ → Command
convert_text host format =
    ebook_convert (text_eq format (codes "kfx")) (text_name host) (output_name format)

-- step 2, after the extraction
unfoldable pub convert_premium :
    Host → List ℕ → ℕ → Outcome → Option Failure → List Entry → Result RunResult
convert_premium host format t extracted (some f) es = returned (unsuccessful f)
convert_premium host format t extracted none es =
    if not (has_text (find_entry (text_name host) es))
    then returned (unsuccessful no_text_output)
    else let (o, after) = host.run (convert_text host format) t es in
      finish_premium host format (extract_gemini_cost host (stdout_of extracted)) (tool_failure t o)
        after

-- step 1, with the size of the upload
abbrev pub extract_premium : Host → List ℕ → Option ℕ → List Entry → Result RunResult
extract_premium host format none es = raised other_error
extract_premium host format (some n) es =
    let t = timeout_for_size n in
    let (o, after) = host.run extract_text t es in
    convert_premium host format t o (tool_failure t o) after

-- `run_premium`
unfoldable pub run_premium : Host → List ℕ → List Entry → Result RunResult
run_premium host format es = extract_premium host format host.input_size es
