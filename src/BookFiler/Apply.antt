-- ===== src/BookFiler/Apply.antt =====
-- tools/book_filer/actuate.py: `_run`, the rows of a manifest one after the other. The reports are
-- texts that nothing reads and are left out. `none` stands for an exception: a `JournalCorruptError`,
-- or an `OSError` of hashing or looking at a row's file, of writing its intent, or of writing the
-- report, before which a prefix of the rows was carried out (`breaks_off`). The journal takes every
-- commit.

use ebook_automation.BookFiler.Path.{FilePath}
use ebook_automation.BookFiler.FileSystem.{Fs}
use ebook_automation.BookFiler.Move.{Os, Reason, MoveDecision, MoveOutcome, plan_move, execute_move}
use ebook_automation.BookFiler.Journal.{
  Entry, Journal, empty_journal, append_record, read_records, intents_by_seq, find_intent,
  is_committed, already_applied,
}
use ebook_automation.BookFiler.Manifest.{Row, Projected, manifest_digest}
use ebook_automation.BookFiler.Gates.{Verdict, Binding, bound, verify_binding}
use ebook_automation.BookFiler.Backup.{
  Library, BackupProof, BackupCheck, verified, verify_backup_proof,
}
use ebook_automation.BookFiler.Routing.{
  Folders, Escape, contained, route_target, containment_violation, DirConflict,
}
use ebook_automation.Common.{
  ℕ, zero, suc, Bool, true, false, not, Option, none, some, List, [], ◌∷◌, if◌then◌else◌,
}

-- The library of books, and of the run directory the journal and whether `apply.lock` is there.
pub record World : Type 0 where
  pub fs : Fs
  pub journal : Option Journal
  pub locked : Bool

-- What a run is given beside the world.
pub record Setting : Type 0 where
  pub os : Os
  pub lib : Library
  pub dumps : List Projected → List ℕ
  pub library_root : FilePath
  pub run_dir : FilePath
  pub operational : Folders
  pub stamp : List ℕ
  -- the bytes of the journal's file, and of the audit of a number of moves
  pub journal_bytes : Journal → List ℕ
  pub audit_bytes : ℕ → List ℕ
  -- the row at which an `OSError` ends the run before anything of the row is written, if one does;
  -- the number of rows stands for the report
  pub breaks_off : Option ℕ

pub data Mode : Type 0 where
  dry_run apply : Mode

abbrev pub is_apply : Mode → Bool
is_apply dry_run = false
is_apply apply = true

pub data RowReason : Type 0 where
  unhandled committed_before commit_backfilled : RowReason
  dry_run_move dry_run_skip skipped executed : Reason → RowReason

pub record RowResult : Type 0 where
  pub seq : ℕ
  pub src : FilePath
  pub dst : Option FilePath
  pub action : List ℕ
  pub moved : Bool
  pub reason : RowReason

abbrev pub result : ℕ → FilePath → Option FilePath → Row → Bool → RowReason → RowResult
result seq src dst row moved reason = record {
  seq = seq;
  src = src;
  dst = dst;
  action = row.action;
  moved = moved;
  reason = reason;
}

abbrev pub journal_of : Option Journal → Journal
journal_of none = empty_journal
journal_of (some j) = j

-- `append_record` on the journal of the run directory
unfoldable pub log : Entry → World → World
log e w = record w { journal = some (append_record (journal_of w.journal) e) }

-- `{**record, "state": "intent"}`
abbrev pub intent_of : Setting → Row → ℕ → MoveDecision → Entry
intent_of s row seq d = record {
  is_commit = false;
  seq = seq;
  src = d.src;
  dst = d.dst;
  action = row.action;
  sha256 = row.sha256;
  ts = s.stamp;
}

-- `{**record, "state": "commit"}`
abbrev pub commit_of : Entry → Entry
commit_of e = record e { is_commit = true }

-- the end of a row: the commit of a move that was made
unfoldable pub finish_move : Entry → Row → MoveOutcome × Fs → World → RowResult × World
unfolding log
finish_move e row (o, fs') w =
    let w' = record w { fs = fs' } in
    (
      result e.seq o.src (some o.dst) row o.moved (executed o.reason),
      if o.moved then log (commit_of e) w' else w',
    )

-- a decision that is carried out: the intent, the move, the commit
unfoldable pub carry_out : Setting → Row → ℕ → MoveDecision → World → RowResult × World
unfolding log
carry_out s row seq d w =
    let e = intent_of s row seq d in finish_move e row (execute_move s.os d w.fs) (log e w)

unfoldable pub act : Setting → Mode → Row → ℕ → MoveDecision → World → RowResult × World
act s mode row seq d w =
    if not (is_apply mode)
    then (
      result seq d.src (some d.dst) row d.is_move
          (if d.is_move then dry_run_move d.reason else dry_run_skip d.reason),
      w,
    )
    else if not d.is_move
    then (result seq d.src (some d.dst) row false (skipped d.reason), w)
    else carry_out s row seq d w

-- the intent of a row whose move was made without its commit
unfoldable pub applied_intent : Setting → Option Entry → Fs → Option Entry
applied_intent s none fs = none
applied_intent s (some e) fs =
    if already_applied s.lib.hash e.src e.dst e.sha256 fs then some e else none

unfoldable pub fresh_row : Setting → Mode → Row → ℕ → FilePath → World → RowResult × World
fresh_row s mode row seq target w =
    act s mode row seq (plan_move s.os (s.lib.path_of row.original_path) target true w.fs) w

unfoldable pub backfill_or :
    Setting → Mode → Row → ℕ → FilePath → Option Entry → World → RowResult × World
backfill_or s mode row seq target none w = fresh_row s mode row seq target w
backfill_or s mode row seq target (some e) w = (
  result seq (s.lib.path_of row.original_path) (some e.dst) row false commit_backfilled,
  log (commit_of e) w,
)

unfoldable pub routed_row :
    Setting → Mode → List Entry → Row → ℕ → Option FilePath → World → RowResult × World
routed_row s mode records row seq none w =
    (result seq (s.lib.path_of row.original_path) none row false unhandled, w)
routed_row s mode records row seq (some target) w =
    if not (is_apply mode)
    then fresh_row s mode row seq target w
    else if is_committed seq records
    then (result seq (s.lib.path_of row.original_path) (some target) row false committed_before, w)
    else backfill_or s mode row seq target
        (applied_intent s (find_intent seq (intents_by_seq records)) w.fs) w

-- the body of the loop
unfoldable pub run_row : Setting → Mode → List Entry → Row → ℕ → World → RowResult × World
run_row s mode records row seq w =
    routed_row s mode records row seq (route_target s.lib row s.library_root s.operational) w

-- the loop, from the row `seq` on
unfoldable pub run_rows :
    Setting → Mode → List Entry → List Row → ℕ → World → List RowResult × World
run_rows s mode records [] seq w = ([], w)
run_rows s mode records (row ∷ rows) seq w =
    let (r, w1) = run_row s mode records row seq w in
    let (rs, w2) = run_rows s mode records rows (suc seq) w1 in (r ∷ rs, w2)

pub data Refusal : Type 0 where
  conflict : DirConflict → Refusal
  lock_held : Refusal
  binding_refused : Binding → Refusal
  escapes : Escape → Refusal
  backup_refused : BackupCheck → Refusal

pub data RunResult : Type 0 where
  refused : Refusal → RunResult
  completed : List RowResult → RunResult

abbrev pub completed_rows : List RowResult × World → Option RunResult × World
completed_rows (rs, w) = (some (completed rs), w)

abbrev pub take_rows : ℕ → List Row → List Row
take_rows zero rows = []
take_rows (suc n) [] = []
take_rows (suc n) (r ∷ rs) = r ∷ take_rows n rs

abbrev pub broken_off : List RowResult × World → Option RunResult × World
broken_off (rs, w) = (none, w)

-- the loop, and the exception that may end it
unfoldable pub loop :
    Setting → Mode → List Entry → List Row → Option ℕ → World → Option RunResult × World
loop s mode records rows none w = completed_rows (run_rows s mode records rows 0 w)
loop s mode records rows (some n) w = broken_off (run_rows s mode records (take_rows n rows) 0 w)

-- the backup gate, of a fresh apply only, and the loop
unfoldable pub backup_gate :
    Setting → Mode → List Entry → List Row → BackupCheck → World → Option RunResult × World
backup_gate s mode records rows verified w = loop s mode records rows s.breaks_off w
backup_gate s mode records rows c w = (some (refused (backup_refused c)), w)

abbrev pub is_fresh : Mode → List Entry → Bool
is_fresh mode [] = is_apply mode
is_fresh mode (_ ∷ _) = false

unfoldable pub escape_gate :
    Setting
    → Mode
    → List Entry
    → List Row
    → Option BackupProof
    → Escape
    → World
    → Option RunResult × World
escape_gate s mode records rows proof contained w =
    backup_gate s mode records rows
      (if is_fresh mode records
        then verify_backup_proof s.lib s.library_root proof w.fs
        else verified)
      w
escape_gate s mode records rows proof e w = (some (refused (escapes e)), w)

unfoldable pub binding_gate :
    Setting
    → Mode
    → List Entry
    → List Row
    → Option BackupProof
    → Binding
    → World
    → Option RunResult × World
binding_gate s mode records rows proof bound w =
    escape_gate s mode records rows proof
      (containment_violation s.lib rows s.library_root s.operational) w
binding_gate s mode records rows proof b w = (some (refused (binding_refused b)), w)

abbrev pub run_records :
    Setting
    → Mode
    → List Row
    → Option Verdict
    → Option BackupProof
    → Option (List Entry)
    → World
    → Option RunResult × World
run_records s mode rows verdict proof none w = (none, w)
run_records s mode rows verdict proof (some records) w =
    binding_gate s mode records rows proof
      (verify_binding (manifest_digest s.dumps s.lib.hash rows) verdict) w

-- `_run`
unfoldable pub run :
    Setting
    → Mode
    → List Row
    → Option Verdict
    → Option BackupProof
    → World
    → Option RunResult × World
run s mode rows verdict proof w =
    run_records s mode rows verdict proof (read_records (journal_of w.journal)) w
