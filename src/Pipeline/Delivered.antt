-- ===== src/Pipeline/Delivered.antt =====
-- What a conversion that is reported as a success has left in the job's directory.
use mathlib.Core.Path.{subst}
use ebook_automation.Raises.{Result, returned, raised}
use ebook_automation.Text.{text_eq}
use ebook_automation.BookFiler.Every.{In}
use ebook_automation.Pipeline.Tools.{
  Outcome, Entry, Host, Failure, Vqa, Output, RunResult, unsuccessful, converted, timeout_for_size,
  tool_failure, extract_text, stdout_of,
}
use ebook_automation.Pipeline.Outputs.{
  find_entry, ends_with_kfx, find_newest_kfx, newer, non_empty, or_recovered, is_kfx_name,
  verify_output,
}
use ebook_automation.Pipeline.Telemetry.{extract_gemini_cost, run_vqa}
use ebook_automation.Pipeline.Runs.{
  output_name, has_text, premium_output, with_telemetry, finish_premium, text_name, convert_text,
  convert_premium, extract_premium, run_premium,
}
use ebook_automation.Common.{
  ℕ, ◌≡◌, refl, sym, inl, inr, Bool, true, false, ◌&&◌, Option, none, some, List, [], ◌∷◌, arith,
  ltb, leb, Bool-cases,
}

-- An entry that `_verify_output` accepts: a file with the expected name that is not empty, or, where
-- a KFX is expected, one with its suffix that is as new as the job.
pub data Accepted (start : ℕ) (expected : List ℕ) (e : Entry) : Type 0 where
  expected_output : text_eq e.name expected ≡ true → ltb 0 e.size ≡ true → Accepted start expected e
  recovered_kfx :
      is_kfx_name expected ≡ true
      → ends_with_kfx e.name ≡ true
      → leb start e.mtime ≡ true
      → Accepted start expected e

-- what holds of the entry of a search, if it finds one
abbrev Found : (Entry → Type 0) → Option Entry → Type 0
Found P none = Unit {0}
Found P (some e) = P e

Found-map :
    (P Q : Entry → Type 0) → ((e : Entry) → P e → Q e) → (o : Option Entry) → Found P o → Found Q o
Found-map P Q h none f = tt
Found-map P Q h (some e) f = h e f

find_entry-Found :
    (n : List ℕ) (es : List Entry)
    → Found (λ e. In e es × (text_eq e.name n ≡ true)) (find_entry n es)
unfolding find_entry In
find_entry-Found n [] = tt
find_entry-Found n (f ∷ es) = elim (Bool-cases (text_eq f.name n)) [
  | inl same ↦ rw same (inl refl, same)
  | inr other ↦ rw other (
      Found-map (λ e. In e es × (text_eq e.name n ≡ true))
        (λ e. In e (f ∷ es) × (text_eq e.name n ≡ true)) (λ e (i, m). (inr i, m)) (find_entry n es)
        (find_entry-Found n es))
]

newer-Found :
    (P : Entry → Type 0) (e : Entry) (o : Option Entry) → P e → Found P o → Found P (newer e o)
newer-Found P e none p f = p
newer-Found P e (some f) p q = elim (Bool-cases (ltb e.mtime f.mtime)) [
  | inl older ↦ rw older q
  | inr not_older ↦ rw not_older p
]

abbrev IsKfx : ℕ → List Entry → Entry → Type 0
IsKfx start es e = In e es × ((ends_with_kfx e.name && leb start e.mtime) ≡ true)

find_newest_kfx-Found :
    (start : ℕ) (es : List Entry) → Found (IsKfx start es) (find_newest_kfx start es)
unfolding find_newest_kfx In
find_newest_kfx-Found start [] = tt
find_newest_kfx-Found start (f ∷ es) =
    let rest =
      Found-map (IsKfx start es) (IsKfx start (f ∷ es)) (λ e (i, m). (inr i, m))
        (find_newest_kfx start es) (find_newest_kfx-Found start es) in
    elim (Bool-cases (ends_with_kfx f.name && leb start f.mtime)) [
      | inl kfx ↦
          rw kfx
            (newer-Found (IsKfx start (f ∷ es)) f (find_newest_kfx start es) (inl refl, kfx) rest)
      | inr other ↦ rw other rest
    ]

non_empty-Found :
    (P : Entry → Type 0) (o : Option Entry)
    → Found P o
    → Found (λ e. P e × (ltb 0 e.size ≡ true)) (non_empty o)
non_empty-Found P none f = tt
non_empty-Found P (some e) f = elim (Bool-cases (ltb 0 e.size)) [
  | inl big ↦ rw big (f, big)
  | inr empty ↦ rw empty tt
]

or_recovered-Found :
    (P : Entry → Type 0) (b : Bool) (o newest : Option Entry)
    → Found P o
    → (b ≡ true → Found P newest)
    → Found P (or_recovered b o newest)
or_recovered-Found P b (some e) newest f g = f
or_recovered-Found P true none newest f g = g refl
or_recovered-Found P false none newest f g = tt

IsKfx-Accepted :
    (start : ℕ) (n : List ℕ) (es : List Entry)
    → is_kfx_name n ≡ true
    → (e : Entry) → IsKfx start es e
    → In e es × Accepted start n e
IsKfx-Accepted start n es kfx e (i, m) =
    (i, recovered_kfx kfx (ground (arith, m)) (ground (arith, m)))

-- `_verify_output` gives an entry of the directory, and one that it may accept.
verify_output-Accepted :
    (start : ℕ) (n : List ℕ) (es : List Entry)
    → Found (λ e. In e es × Accepted start n e) (verify_output start n es)
unfolding verify_output
verify_output-Accepted start n es =
    let P = λ (e : Entry). In e es × (text_eq e.name n ≡ true) in
    let Q = λ (e : Entry). In e es × Accepted start n e in
    or_recovered-Found Q (is_kfx_name n) (non_empty (find_entry n es)) (find_newest_kfx start es)
      (Found-map (λ e. P e × (ltb 0 e.size ≡ true)) Q (λ e ((i, m), b). (i, expected_output m b))
        (non_empty (find_entry n es)) (non_empty-Found P (find_entry n es) (find_entry-Found n es)))
      (λ kfx.
        Found-map (IsKfx start es) Q (IsKfx-Accepted start n es kfx) (find_newest_kfx start es)
          (find_newest_kfx-Found start es))

-- What a run of `run_premium` that ends in `o` has left: both tools exited with 0, the extraction left
-- a text that is not empty, and the output is an entry that Calibre's run left and that may be
-- accepted.
pub record Delivers (host : Host) (format : List ℕ) (t : ℕ) (es : List Entry) (o : Output)
    : Type 0 where
  pub entry : Entry
  pub extracted : tool_failure t (host.run extract_text t es).0 ≡ none
  pub text : has_text (find_entry (text_name host) (host.run extract_text t es).1) ≡ true
  pub ran :
      tool_failure t (host.run (convert_text host format) t (host.run extract_text t es).1).0 ≡ none
  pub found : In entry (host.run (convert_text host format) t (host.run extract_text t es).1).1
  pub accepted : Accepted host.time (output_name format) entry
  pub path : o.output_path ≡ entry.name
  pub size : o.output_size ≡ entry.size

abbrev Succeeds : (Output → Type 0) → Result RunResult → Type 0
Succeeds P (raised x) = Unit {0}
Succeeds P (returned (unsuccessful f)) = Unit {0}
Succeeds P (returned (converted o)) = P o

-- the output is the entry
abbrev IsOutput : Entry → Output → Type 0
IsOutput e o = (o.output_path ≡ e.name) × (o.output_size ≡ e.size)

premium_output-Succeeds :
    (P : Output → Type 0) (cost : ℕ) (e : Entry)
    → ((o : Output) → IsOutput e o → P o)
    → (v : Result Vqa) → Succeeds P (premium_output cost e v)
premium_output-Succeeds P cost e h (raised x) = tt
premium_output-Succeeds P cost e h (returned v) = h _ (refl, refl)

with_telemetry-Succeeds :
    (P : Output → Type 0) (Q : Entry → Type 0) (host : Host) (cost : ℕ) (es : List Entry)
    → ((e : Entry) → Q e → (o : Output) → IsOutput e o → P o)
    → (found : Option Entry) → Found Q found
    → Succeeds P (with_telemetry host cost es found)
with_telemetry-Succeeds P Q host cost es h none f = tt
with_telemetry-Succeeds P Q host cost es h (some e) f =
    premium_output-Succeeds P cost e (h e f) (run_vqa host e.name es)

finish_premium-Succeeds :
    (P : Output → Type 0) (host : Host) (format : List ℕ) (cost : ℕ) (es : List Entry)
    (f : Option Failure)
    → (f ≡ none
        → (e : Entry) → In e es × Accepted host.time (output_name format) e
        → (o : Output) → IsOutput e o
        → P o)
    → Succeeds P (finish_premium host format cost f es)
unfolding finish_premium
finish_premium-Succeeds P host format cost es (some x) h = tt
finish_premium-Succeeds P host format cost es none h =
    with_telemetry-Succeeds P _ host cost es (h refl)
      (verify_output host.time (output_name format) es)
      (verify_output-Accepted host.time (output_name format) es)

convert_premium-Succeeds :
    (host : Host) (format : List ℕ) (t : ℕ) (es : List Entry) (extracted : Outcome)
    (f : Option Failure)
    → (f ≡ none → tool_failure t (host.run extract_text t es).0 ≡ none)
    → Succeeds
        (Delivers host format t es)
        (convert_premium host format t extracted f (host.run extract_text t es).1)
unfolding convert_premium
convert_premium-Succeeds host format t es extracted (some x) ok = tt
convert_premium-Succeeds host format t es extracted none ok =
    let text = (host.run extract_text t es).1 in
    let run = host.run (convert_text host format) t text in
    elim (Bool-cases (has_text (find_entry (text_name host) text))) [
      | inl there ↦ rw there (
          finish_premium-Succeeds (Delivers host format t es) host format
            (extract_gemini_cost host (stdout_of extracted)) run.1 (tool_failure t run.0)
            (λ ran e (i, a) o (p, s). record {
              entry = e;
              extracted = ok refl;
              text = there;
              ran = ran;
              found = i;
              accepted = a;
              path = p;
              size = s;
            }))
      | inr empty ↦ rw empty tt
    ]

run_premium-Succeeds :
    (host : Host) (format : List ℕ) (n : ℕ) (es : List Entry)
    → host.input_size ≡ some n
    → Succeeds (Delivers host format (timeout_for_size n) es) (run_premium host format es)
unfolding run_premium
run_premium-Succeeds host format n es h =
    let t = timeout_for_size n in
    subst (λ size. Succeeds (Delivers host format t es) (extract_premium host format size es))
      (sym h)
      (convert_premium-Succeeds host format t es (host.run extract_text t es).0
        (tool_failure t (host.run extract_text t es).0) (λ e. e))

-- Where a premium conversion of an upload of `n` bytes succeeds, the extraction and Calibre exited with
-- 0 within the time for that size, the extraction left a text that is not empty, and the output is
-- among what Calibre left: it has the name that was asked for and is not empty, or a KFX was asked for
-- and it is a KFX written since the job began.
pub run_premium-Delivers :
    (host : Host) (format : List ℕ) (n : ℕ) (es : List Entry) (o : Output)
    → host.input_size ≡ some n
    → run_premium host format es ≡ returned (converted o)
    → Delivers host format (timeout_for_size n) es o
run_premium-Delivers host format n es o h r =
    subst (Succeeds (Delivers host format (timeout_for_size n) es)) r
      (run_premium-Succeeds host format n es h)
