-- ===== src/BookFiler/Actuate.antt =====
-- tools/book_filer/actuate.py: `apply_manifest`, `undo_apply`, `finalize_run` and `main`, each
-- behind its gates and the lock of the run directory. The lock's file can be made and removed.
-- `none` stands for an exception, which `main` does not catch.
use ebook_automation.Text.{text_eq}
use ebook_automation.BookFiler.Journal.{Entry, Journal, read_records, count_committed}
use ebook_automation.BookFiler.Manifest.{Row}
use ebook_automation.BookFiler.Gates.{Verdict}
use ebook_automation.BookFiler.Backup.{BackupProof}
use ebook_automation.BookFiler.Routing.{or_default, DirConflict, no_conflict, run_dir_conflict}
use ebook_automation.BookFiler.Apply.{
  World, Setting, Mode, RunResult, refused, completed, conflict, lock_held, journal_of, run,
}
use ebook_automation.BookFiler.Path.{FilePath}
use ebook_automation.BookFiler.FileSystem.{Fs, remove_file}
use ebook_automation.BookFiler.Undo.{UndoOutcome, all_restored, undo_journal}
use ebook_automation.Common.{
  ℕ, suc, Bool, true, false, not, Option, none, some, List, [], ◌∷◌, ◌++◌, if◌then◌else◌, codes,
}

abbrev pub is_conflict : DirConflict → Bool
is_conflict no_conflict = false
is_conflict _ = true

-- `finally`: the lock is given back
abbrev pub unlock {ℓ} : {A : Type ℓ} → A × World → A × World
unlock (a, w) = (a, record w { locked = false })

-- `with open(lock_path, "x")` of `apply_manifest`, and what runs under it
unfoldable pub run_locked :
    Setting
    → Mode
    → Bool
    → List Row
    → Option Verdict
    → Option BackupProof
    → World
    → Option RunResult × World
run_locked s mode lock rows verdict proof w =
    if not lock
    then run s mode rows verdict proof w
    else if w.locked
    then (some (refused lock_held), w)
    else unlock (run s mode rows verdict proof (record w { locked = true }))

unfoldable pub apply_manifest :
    Setting
    → Mode
    → Bool
    → List Row
    → Option Verdict
    → Option BackupProof
    → World
    → Option RunResult × World
apply_manifest s mode lock rows verdict proof w =
    if is_conflict (run_dir_conflict s.lib s.run_dir s.library_root)
    then (some (refused (conflict (run_dir_conflict s.lib s.run_dir s.library_root))), w)
    else run_locked (record s { operational = or_default s.operational }) mode lock rows verdict
        proof w

-- `UndoResult`
pub record UndoResult : Type 0 where
  pub ok : Bool
  pub restored_count : ℕ
  pub outcomes : List UndoOutcome

unfoldable pub count_restored : List UndoOutcome → ℕ
count_restored [] = 0
count_restored (o ∷ os) = let rest = count_restored os in if o.restored then suc rest else rest

abbrev pub undo_refused : UndoResult
undo_refused = record { ok = false; restored_count = 0; outcomes = [] }

abbrev pub undo_done : List UndoOutcome × Fs → World → Option UndoResult × World
undo_done (outcomes, fs) w = (
  some (record {
    ok = all_restored outcomes;
    restored_count = count_restored outcomes;
    outcomes = outcomes;
  }),
  record w { fs = fs },
)

unfoldable pub undo_world : Setting → List Entry → World → Option UndoResult × World
undo_world s records w = undo_done (undo_journal s.os s.lib.hash records w.fs) w

unfoldable pub undo_locked :
    Setting → Bool → Option (List Entry) → World → Option UndoResult × World
undo_locked s lock none w = (none, w)
undo_locked s lock (some records) w =
    if not lock
    then undo_world s records w
    else if w.locked
    then (some undo_refused, w)
    else unlock (undo_world s records (record w { locked = true }))

unfoldable pub undo_apply : Setting → Bool → World → Option UndoResult × World
undo_apply s lock w =
    if is_conflict (run_dir_conflict s.lib s.run_dir s.library_root)
    then (some undo_refused, w)
    else undo_locked s lock (read_records (journal_of w.journal)) w

-- `FinalizeResult`: whether it is done, and the number of moves
pub data FinalizeResult : Type 0 where
  no_journal : FinalizeResult
  finalized : ℕ → FinalizeResult

-- a file of the run directory
abbrev pub in_run_dir : Setting → List ℕ → FilePath
in_run_dir s name = s.run_dir ++ name ∷ []

-- a file that is written, over what stands there
abbrev pub put_file : FilePath → List ℕ → List (FilePath × List ℕ) → List (FilePath × List ℕ)
put_file p bytes files = (p, bytes) ∷ remove_file p files

-- The archived journal and the audit, which `finalize_run` writes without asking where the run
-- directory lies: where it is not apart from the library, they are files of the library.
unfoldable pub write_archive : Setting → Journal → ℕ → Fs → Fs
write_archive s j moves fs =
    if is_conflict (run_dir_conflict s.lib s.run_dir s.library_root)
    then record fs {
      files =
          put_file (in_run_dir s (codes "finalize-audit.json")) (s.audit_bytes moves) (
            put_file (in_run_dir s (codes "journal.finalized.jsonl")) (s.journal_bytes j) fs.files);
    }
    else fs

abbrev pub archive : Setting → Journal → Option (List Entry) → World → Option FinalizeResult × World
archive s j none w = (none, w)
archive s j (some records) w = (
  some (finalized (count_committed records)),
  record w { fs = write_archive s j (count_committed records) w.fs; journal = none },
)

unfoldable pub finalize_journal : Setting → Option Journal → World → Option FinalizeResult × World
finalize_journal s none w = (some no_journal, w)
finalize_journal s (some j) w = archive s j (read_records j) w

-- `finalize_run`: the journal is archived
unfoldable pub finalize_run : Setting → World → Option FinalizeResult × World
finalize_run s w = finalize_journal s w.journal w

-- The command line: `--mode`, with what its files hold, where they are given and can be read.
pub data Command : Type 0 where
  finalize_mode undo_mode : Command
  run_mode : Mode → Bool → Option (List Row × (Option Verdict × Option BackupProof)) → Command

pub data ExitCode : Type 0 where
  exit_ok exit_bad_env exit_refused exit_bad_args : ExitCode

abbrev pub finalize_code : Option FinalizeResult → Option ExitCode
finalize_code none = none
finalize_code (some no_journal) = some exit_refused
finalize_code (some (finalized n)) = some exit_ok

abbrev pub undo_code : Option UndoResult → Option ExitCode
undo_code none = none
undo_code (some u) = some (if u.ok then exit_ok else exit_refused)

abbrev pub run_code : Option RunResult → Option ExitCode
run_code none = none
run_code (some (refused _)) = some exit_refused
run_code (some (completed _)) = some exit_ok

abbrev pub exit_with {ℓ} :
    {A : Type ℓ} → (A → Option ExitCode) → A × World → Option ExitCode × World
exit_with code (a, w) = (code a, w)

-- the three modes, with `not args.no_lock`; `run_mode`'s flag is whether every file is named
unfoldable pub dispatch : Setting → Bool → Command → World → Option ExitCode × World
dispatch s lock finalize_mode w = exit_with finalize_code (finalize_run s w)
dispatch s lock undo_mode w = exit_with undo_code (undo_apply s lock w)
dispatch s lock (run_mode mode false inputs) w = (some exit_bad_args, w)
dispatch s lock (run_mode mode true none) w = (some exit_bad_args, w)
dispatch s lock (run_mode mode true (some (rows, (verdict, proof)))) w =
    exit_with run_code (apply_manifest s mode lock rows verdict proof w)

-- `main`, with the value of `PYTHONHASHSEED`
unfoldable pub main : Option (List ℕ) → Setting → Bool → Command → World → Option ExitCode × World
main none s lock command w = (some exit_bad_env, w)
main (some seed) s lock command w =
    if text_eq seed (b'0' ∷ []) then dispatch s lock command w else (some exit_bad_env, w)
