-- ===== src/BookFiler/Gated.antt =====
-- What a run passes before its first move, and what one that is refused leaves.

use mathlib.Core.Bool.{true≢false}
use ebook_automation.BookFiler.FileSystem.{Fs}
use ebook_automation.BookFiler.Journal.{Entry, read_records}
use ebook_automation.BookFiler.Manifest.{Row, manifest_digest}
use ebook_automation.BookFiler.Gates.{
  Verdict, Binding, bound, not_a_mapping, unbound, digest_mismatch, not_green, no_floor,
  no_trash_safety, verify_binding,
}
use ebook_automation.BookFiler.Backup.{
  BackupProof, BackupCheck, verified, no_proof, no_mirror_root, mirror_missing, mirror_inside,
  no_file_count, no_sample, mirror_fails, live_fails, verify_backup_proof,
}
use ebook_automation.BookFiler.Routing.{
  Escape, contained, root_unresolved, source_escapes, target_escapes, containment_violation,
}
use ebook_automation.BookFiler.Apply.{
  World, Setting, Mode, RunResult, refused, completed, journal_of, run_rows, take_rows, loop,
  backup_gate, escape_gate, binding_gate, run_records, run, is_fresh,
}
use ebook_automation.Common.{
  ℕ, ◌≡◌, refl, sym, Bool, true, false, Option, none, some, List, if◌then◌else◌,
}

abbrev pub is_completed : Option RunResult → Bool
is_completed none = false
is_completed (some (refused _)) = false
is_completed (some (completed _)) = true

-- an answer that the run was refused
abbrev pub is_refusal : Option RunResult → Bool
is_refusal none = false
is_refusal (some (refused _)) = true
is_refusal (some (completed _)) = false

-- What a run has passed when it has come to its rows.
pub record Passed (s : Setting) (mode : Mode) (records : List Entry) (rows : List Row)
    (verdict : Option Verdict) (proof : Option BackupProof) (fs : Fs) : Type 0 where
  pub is_bound : verify_binding (manifest_digest s.dumps s.lib.hash rows) verdict ≡ bound
  pub is_contained : containment_violation s.lib rows s.library_root s.operational ≡ contained
  pub is_verified :
      is_fresh mode records ≡ true → verify_backup_proof s.lib s.library_root proof fs ≡ verified

backup_of-fresh :
    (b : Bool) (c : BackupCheck) → (if b then c else verified) ≡ verified → b ≡ true → c ≡ verified
backup_of-fresh true c h e = h
backup_of-fresh false c h e = absurd (true≢false (sym e))

-- What holds of a run's end: it came to its rows and had passed the gates, and went through all of
-- them or through some; or it changed nothing.
pub data Ended (s : Setting) (mode : Mode) (records : List Entry) (rows : List Row)
    (verdict : Option Verdict) (proof : Option BackupProof) (w : World)
    (r : Option RunResult × World) : Type 0 where
  came_to_rows :
      is_completed r.0 ≡ true
      → Passed s mode records rows verdict proof w.fs
      → r.1 ≡ (run_rows s mode records rows 0 w).1
      → Ended s mode records rows verdict proof w r
  broke_off :
      (n : ℕ)
      → r.0 ≡ none
      → Passed s mode records rows verdict proof w.fs
      → r.1 ≡ (run_rows s mode records (take_rows n rows) 0 w).1
      → Ended s mode records rows verdict proof w r
  stopped : is_completed r.0 ≡ false → r.1 ≡ w → Ended s mode records rows verdict proof w r

module _ (s : Setting) (mode : Mode) (records : List Entry) (rows : List Row)
    (verdict : Option Verdict) (proof : Option BackupProof) (w : World) where
  abbrev Ends : Option RunResult × World → Type 0
  Ends r = Ended s mode records rows verdict proof w r

  loop-Ends :
      (stop : Option ℕ)
      → Passed s mode records rows verdict proof w.fs
      → Ends (loop s mode records rows stop w)
  unfolding loop
  loop-Ends none p = came_to_rows refl p refl
  loop-Ends (some n) p = broke_off n refl p refl

  backup_gate-Ends :
      (c : BackupCheck)
      → (c ≡ verified → Passed s mode records rows verdict proof w.fs)
      → Ends (backup_gate s mode records rows c w)
  unfolding backup_gate
  backup_gate-Ends verified p = loop-Ends s.breaks_off (p refl)
  backup_gate-Ends no_proof p = stopped refl refl
  backup_gate-Ends no_mirror_root p = stopped refl refl
  backup_gate-Ends mirror_missing p = stopped refl refl
  backup_gate-Ends mirror_inside p = stopped refl refl
  backup_gate-Ends no_file_count p = stopped refl refl
  backup_gate-Ends no_sample p = stopped refl refl
  backup_gate-Ends (mirror_fails t) p = stopped refl refl
  backup_gate-Ends (live_fails t) p = stopped refl refl

  escape_gate-Ends :
      (e : Escape)
      → containment_violation s.lib rows s.library_root s.operational ≡ e
      → verify_binding (manifest_digest s.dumps s.lib.hash rows) verdict ≡ bound
      → Ends (escape_gate s mode records rows proof e w)
  unfolding escape_gate
  escape_gate-Ends contained e b =
      let c = verify_backup_proof s.lib s.library_root proof w.fs in
      backup_gate-Ends (if is_fresh mode records then c else verified) (λ v. record {
        is_bound = b;
        is_contained = e;
        is_verified = backup_of-fresh (is_fresh mode records) c v;
      })
  escape_gate-Ends root_unresolved e b = stopped refl refl
  escape_gate-Ends (source_escapes n) e b = stopped refl refl
  escape_gate-Ends (target_escapes n) e b = stopped refl refl

  binding_gate-Ends :
      (b : Binding)
      → verify_binding (manifest_digest s.dumps s.lib.hash rows) verdict ≡ b
      → Ends (binding_gate s mode records rows proof b w)
  unfolding binding_gate
  binding_gate-Ends bound e =
      escape_gate-Ends (containment_violation s.lib rows s.library_root s.operational) refl e
  binding_gate-Ends not_a_mapping e = stopped refl refl
  binding_gate-Ends unbound e = stopped refl refl
  binding_gate-Ends digest_mismatch e = stopped refl refl
  binding_gate-Ends not_green e = stopped refl refl
  binding_gate-Ends no_floor e = stopped refl refl
  binding_gate-Ends no_trash_safety e = stopped refl refl

-- a run on the records that its journal is read as
pub data RunEnds (s : Setting) (mode : Mode) (rows : List Row) (verdict : Option Verdict)
    (proof : Option BackupProof) (w : World) (r : Option RunResult × World) : Type 0 where
  ends :
      {records : List Entry}
      → read_records (journal_of w.journal) ≡ some records
      → Ended s mode records rows verdict proof w r
      → RunEnds s mode rows verdict proof w r
  corrupt : is_completed r.0 ≡ false → r.1 ≡ w → RunEnds s mode rows verdict proof w r

run_records-RunEnds :
    (s : Setting) (mode : Mode) (rows : List Row) (verdict : Option Verdict)
    (proof : Option BackupProof) (w : World) (o : Option (List Entry))
    → read_records (journal_of w.journal) ≡ o
    → RunEnds s mode rows verdict proof w (run_records s mode rows verdict proof o w)
run_records-RunEnds s mode rows verdict proof w none e = corrupt refl refl
run_records-RunEnds s mode rows verdict proof w (some records) e = ends e (
    binding_gate-Ends s mode records rows verdict proof w
      (verify_binding (manifest_digest s.dumps s.lib.hash rows) verdict) refl)

pub run-RunEnds :
    (s : Setting) (mode : Mode) (rows : List Row) (verdict : Option Verdict)
    (proof : Option BackupProof) (w : World)
    → RunEnds s mode rows verdict proof w (run s mode rows verdict proof w)
unfolding run
run-RunEnds s mode rows verdict proof w =
    run_records-RunEnds s mode rows verdict proof w (read_records (journal_of w.journal)) refl
