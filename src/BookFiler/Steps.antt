-- ===== src/BookFiler/Steps.antt =====
-- A fresh run as a sequence of steps, one for each row, and what each step appends to the journal.
use ebook_automation.BookFiler.Path.{FilePath}
use ebook_automation.BookFiler.FileSystem.{Fs, is_file, exists, rename}
use ebook_automation.BookFiler.Move.{Os, MoveDecision, MoveOutcome, plan_move, execute_move}
use ebook_automation.BookFiler.Moves.{Moved, did, not_done, execute_move-Moved}
use ebook_automation.BookFiler.FreeNames.{unique_path-free}
use ebook_automation.BookFiler.Journal.{
  Entry, Journal, Line, entry, closed, append_record, parse_lines, read_records, add_entry,
  find_intent, is_committed, collect_intents,
}
use ebook_automation.BookFiler.Manifest.{Row}
use ebook_automation.BookFiler.Routing.{route_target}
use ebook_automation.BookFiler.Apply.{
  result, skipped, World, Setting, apply, journal_of, log, commit_of, intent_of, finish_move,
  carry_out, act, fresh_row, backfill_or, routed_row, run_row, run_rows, applied_intent,
}
use mathlib.Core.Bool.{true≢false}
use mathlib.Core.List.{append-nil, append_assoc}
use ebook_automation.Common.{
  ℕ, suc, ◌≡◌, refl, sym, ap, ◌∙◌, Bool, true, false, not, Option, none, some, List, [], ◌∷◌, ◌++◌,
  map, arith, if◌then◌else◌,
}

-- One row: nothing, an intent whose move was not made, or an intent, its move and its commit.
pub data Step (i : ℕ) (w : World) : List Entry → World → Type 0 where
  same : Step i w [] w
  tried :
      {e : Entry} {w' : World}
      → e.seq ≡ i
      → e.is_commit ≡ false
      → is_file e.dst w.fs.files ≡ false
      → w'.fs.files ≡ w.fs.files
      → journal_of w'.journal ≡ append_record (journal_of w.journal) e
      → Step i w (e ∷ []) w'
  made :
      {e : Entry} {w' : World}
      → e.seq ≡ i
      → e.is_commit ≡ false
      → is_file e.src w.fs.files ≡ true
      → is_file e.dst w.fs.files ≡ false
      → w'.fs.files ≡ rename e.src e.dst w.fs.files
      → journal_of w'.journal ≡ append_record (append_record (journal_of w.journal) e) (commit_of e)
      → Step i w (e ∷ commit_of e ∷ []) w'

pub data Ran : ℕ → World → List Entry → World → Type 0 where
  finished : {i : ℕ} {w : World} → Ran i w [] w
  next :
      {i : ℕ} {w w1 w' : World} {es1 es : List Entry}
      → Step i w es1 w1
      → Ran (suc i) w1 es w'
      → Ran i w (es1 ++ es) w'

plan_move-free :
    (os : Os) (src dst : FilePath) (fs : Fs)
    → (plan_move os src dst true fs).is_move ≡ true
    → exists (plan_move os src dst true fs).dst fs ≡ false
unfolding plan_move
plan_move-free os src dst fs h = ground (arith, unique_path-free dst fs)

commit_if-Step :
    (b : Bool) (e : Entry) (d : MoveDecision) (w : World) (fs' : Fs) (o : MoveOutcome)
    → o.moved ≡ b
    → e.is_commit ≡ false
    → e.src ≡ d.src
    → e.dst ≡ d.dst
    → Moved d w.fs (o, fs')
    → exists d.dst w.fs ≡ false
    → (es : List Entry) × Step e.seq w es (
        if b
        then log (commit_of e) (record (log e w) { fs = fs' })
        else record (log e w) { fs = fs' })
unfolding log
commit_if-Step true e d w fs' o m c s t (did moved there free files) free' = (
  e ∷ commit_of e ∷ [],
  made refl c (ap (λ p. is_file p w.fs.files) s ∙ there)
      (ap (λ p. is_file p w.fs.files) t ∙ (ground (arith, free)))
      (files ∙ sym (ap (λ p. rename p e.dst w.fs.files) s ∙ ap (λ p. rename d.src p w.fs.files) t))
      refl,
)
commit_if-Step true e d w fs' o m c s t (not_done still files) free' =
    absurd (true≢false (sym m ∙ still))
commit_if-Step false e d w fs' o m c s t (did moved there free files) free' =
    absurd (true≢false (sym moved ∙ m))
commit_if-Step false e d w fs' o m c s t (not_done still files) free =
    (e ∷ [], tried refl c (ap (λ p. is_file p w.fs.files) t ∙ (ground (arith, free))) files refl)

finish_move-Step :
    (e : Entry) (row : Row) (d : MoveDecision) (w : World) (r : MoveOutcome × Fs)
    → e.is_commit ≡ false
    → e.src ≡ d.src
    → e.dst ≡ d.dst
    → Moved d w.fs r
    → exists d.dst w.fs ≡ false
    → (es : List Entry) × Step e.seq w es (finish_move e row r (log e w)).1
unfolding finish_move
finish_move-Step e row d w (o, fs') c s t m free =
    commit_if-Step o.moved e d w fs' o refl c s t m free

act-Step :
    (s : Setting) (row : Row) (seq : ℕ) (d : MoveDecision) (w : World)
    → (b : Bool) → d.is_move ≡ b
    → (d.is_move ≡ true → exists d.dst w.fs ≡ false)
    → (es : List Entry) × Step seq w es
        (if not b
          then (result seq d.src (some d.dst) row false (skipped d.reason), w)
          else carry_out s row seq d w).1
unfolding carry_out
act-Step s row seq d w false m free = ([], same)
act-Step s row seq d w true m free =
    finish_move-Step (intent_of s row seq d) row d w (execute_move s.os d w.fs) refl refl refl
      (execute_move-Moved s.os d w.fs) (free m)

fresh_row-Step :
    (s : Setting) (row : Row) (seq : ℕ) (target : FilePath) (w : World)
    → (es : List Entry) × Step seq w es (fresh_row s apply row seq target w).1
unfolding fresh_row act
fresh_row-Step s row seq target w =
    let d = plan_move s.os (s.lib.path_of row.original_path) target true w.fs in
    act-Step s row seq d w d.is_move refl
      (plan_move-free s.os (s.lib.path_of row.original_path) target w.fs)

routed_row-Step :
    (s : Setting) (row : Row) (seq : ℕ) (t : Option FilePath) (w : World)
    → (es : List Entry) × Step seq w es (routed_row s apply [] row seq t w).1
unfolding routed_row backfill_or applied_intent find_intent collect_intents is_committed
routed_row-Step s row seq none w = ([], same)
routed_row-Step s row seq (some target) w = fresh_row-Step s row seq target w

-- Each row of a run on an empty journal is one step.
pub run_rows-Ran :
    (s : Setting) (rows : List Row) (seq : ℕ) (w : World)
    → (es : List Entry) × Ran seq w es (run_rows s apply [] rows seq w).1
unfolding run_rows run_row
run_rows-Ran s [] seq w = ([], finished)
run_rows-Ran s (row ∷ rows) seq w =
    let step = routed_row-Step s row seq (route_target s.lib row s.library_root s.operational) w in
    let rest = run_rows-Ran s rows (suc seq) (run_row s apply [] row seq w).1 in
    (step.0 ++ rest.0, next step.1 rest.1)

-- the journal after the records
unfoldable pub log_all : List Entry → Journal → Journal
log_all [] j = j
log_all (e ∷ es) j = log_all es (append_record j e)

journal-Step :
    {i : ℕ} {w w' : World} {es : List Entry} (rest : List Entry)
    → Step i w es w'
    → log_all rest (journal_of w'.journal) ≡ log_all (es ++ rest) (journal_of w.journal)
unfolding log_all
journal-Step rest same = refl
journal-Step rest (tried q c f e j) = ap (log_all rest) j
journal-Step rest (made q c t f e j) = ap (log_all rest) j

pub journal-Ran :
    {i : ℕ} {w w' : World} {es : List Entry}
    → Ran i w es w'
    → journal_of w'.journal ≡ log_all es (journal_of w.journal)
unfolding log_all
journal-Ran finished = refl
journal-Ran (next {es = es} step rest) = journal-Ran rest ∙ journal-Step es step

abbrev closed_lines : List Line → Journal
closed_lines ls = record { lines = ls; tail = closed }

log_all-entries :
    (es : List Entry) (ls : List Line)
    → log_all es (record { lines = ls; tail = closed })
      ≡ record { lines = ls ++ map entry es; tail = closed }
unfolding log_all
log_all-entries [] ls = ap closed_lines (sym (append-nil ls))
log_all-entries (e ∷ es) ls =
    log_all-entries es (ls ++ entry e ∷ [])
    ∙ ap closed_lines (append_assoc ls (entry e ∷ []) (map entry es))

parse_lines-entries : (es : List Entry) → parse_lines (map entry es ++ []) ≡ some es
unfolding parse_lines
parse_lines-entries [] = refl
parse_lines-entries (e ∷ es) = ap (add_entry e) (parse_lines-entries es)

-- the journal of a run on an empty one is read as its records
pub read_records-Ran :
    {i : ℕ} {w w' : World} {es : List Entry}
    → w.journal ≡ none
    → Ran i w es w'
    → read_records (journal_of w'.journal) ≡ some es
unfolding read_records
read_records-Ran {es = es} n run =
    ap read_records
      (journal-Ran run ∙ ap (λ o. log_all es (journal_of o)) n ∙ log_all-entries es [])
    ∙ parse_lines-entries es
