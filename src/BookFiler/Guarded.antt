-- ===== src/BookFiler/Guarded.antt =====
-- `apply_manifest`: its gates, and what one that is refused or a dry run leaves.

use mathlib.Core.Bool.{true≢false}
use ebook_automation.BookFiler.Path.{FilePath}
use ebook_automation.BookFiler.Journal.{Entry, read_records}
use ebook_automation.BookFiler.Manifest.{Row, manifest_digest}
use ebook_automation.BookFiler.Gates.{Verdict, bound, verify_binding}
use ebook_automation.BookFiler.Backup.{
  Library, lower_parts, BackupProof, verified, verify_backup_proof,
}
use ebook_automation.BookFiler.Routing.{
  Folders, route_target, path_inside, target_inside, run_dir_conflict, or_default,
}
use ebook_automation.BookFiler.Apply.{
  is_apply, World, Setting, Mode, dry_run, apply, RunResult, refused, completed, take_rows,
  journal_of, is_fresh,
}
use ebook_automation.BookFiler.Actuate.{run_locked, apply_manifest, is_conflict}
use ebook_automation.BookFiler.RoundTrip.{run_rows-dry_run}
use ebook_automation.Common.{
  ◌≡◌, refl, sym, ap, ◌∙◌, ◌≢◌, Bool, true, false, not, ◌&&◌, Option, none, some, List, [], ◌∷◌,
  if◌then◌else◌,
}
use ebook_automation.BookFiler.Gated.{
  is_completed, is_refusal, came_to_rows, broke_off, stopped, RunEnds, ends, corrupt, run-RunEnds,
}

-- the world is as it was
pub record Inert (w w' : World) : Type 0 where
  pub same_fs : w'.fs ≡ w.fs
  pub same_journal : w'.journal ≡ w.journal
  pub same_lock : w'.locked ≡ w.locked

-- each row's source and target, where it has one, inside the library
unfoldable pub all_inside : Library → FilePath → FilePath → Folders → List Row → Bool
all_inside lib root_parts library_root operational [] = true
all_inside lib root_parts library_root operational (r ∷ rs) =
    path_inside lib (lib.path_of r.original_path) root_parts
    && (target_inside lib root_parts (route_target lib r library_root operational)
        && all_inside lib root_parts library_root operational rs)

-- What `apply_manifest` has seen before it comes to the rows.
pub record Guarded (s : Setting) (mode : Mode) (lock : Bool) (rows : List Row)
    (verdict : Option Verdict) (proof : Option BackupProof) (w : World) : Type 0 where
  pub is_external : is_conflict (run_dir_conflict s.lib s.run_dir s.library_root) ≡ false
  pub is_free : lock ≡ true → w.locked ≡ false
  pub records : List Entry
  pub is_read : read_records (journal_of w.journal) ≡ some records
  pub is_bound : verify_binding (manifest_digest s.dumps s.lib.hash rows) verdict ≡ bound
  pub root_parts : FilePath
  pub is_resolved : lower_parts (s.lib.resolve s.library_root) ≡ some root_parts
  pub is_inside : all_inside s.lib root_parts s.library_root (or_default s.operational) rows ≡ true
  pub is_verified :
      is_fresh mode records ≡ true → verify_backup_proof s.lib s.library_root proof w.fs ≡ verified

no_refusal : (o : Option RunResult) → is_completed o ≡ true → not (is_refusal o) ≢ false
no_refusal none h e = true≢false (sym h)
no_refusal (some (refused x)) h e = true≢false (sym h)
no_refusal (some (completed rs)) h e = true≢false e

run-Inert :
    (s : Setting) (mode : Mode) (rows : List Row) (verdict : Option Verdict)
    (proof : Option BackupProof) (w : World) (r : Option RunResult × World)
    → RunEnds s mode rows verdict proof w r
    → (is_apply mode && not (is_refusal r.0)) ≡ false
    → r.1 ≡ w
run-Inert s mode rows verdict proof w r (corrupt halt e) h = e
run-Inert s mode rows verdict proof w r (ends read (stopped halt e)) h = e
run-Inert s dry_run rows verdict proof w r (ends {records} read (came_to_rows reached p e)) h =
    e ∙ run_rows-dry_run s records rows 0 w
run-Inert s dry_run rows verdict proof w r (ends {records} read (broke_off n halt p e)) h =
    e ∙ run_rows-dry_run s records (take_rows n rows) 0 w
run-Inert s apply rows verdict proof w r (ends read (came_to_rows reached p e)) h =
    absurd (no_refusal r.0 reached h)
run-Inert s apply rows verdict proof w r (ends read (broke_off n halt p e)) h =
    absurd (true≢false (sym (ap (λ o. not (is_refusal o)) halt) ∙ h))

if-Inert :
    (b : Bool) (mode : Mode) (w : World) (x y : Option RunResult × World)
    → (b ≡ true → (is_apply mode && not (is_refusal x.0)) ≡ false → Inert w x.1)
    → (b ≡ false → (is_apply mode && not (is_refusal y.0)) ≡ false → Inert w y.1)
    → (is_apply mode && not (is_refusal (if b then x else y).0)) ≡ false
    → Inert w (if b then x else y).1
if-Inert true mode w x y l r h = l refl h
if-Inert false mode w x y l r h = r refl h

same-Inert : (w w' : World) → w' ≡ w → Inert w w'
same-Inert w w' e = record {
  same_fs = ap (λ v. v.fs) e;
  same_journal = ap (λ v. v.journal) e;
  same_lock = ap (λ v. v.locked) e;
}

unlocked-Inert :
    (w w' : World)
    → w.locked ≡ false
    → w' ≡ record w { locked = true }
    → Inert w (record w' { locked = false })
unlocked-Inert w w' free e = record {
  same_fs = ap (λ v. v.fs) e;
  same_journal = ap (λ v. v.journal) e;
  same_lock = sym free;
}

-- A dry run, also one that an exception ends, and an apply that is refused, leave the library, the
-- journal and the lock as they were.
pub apply_manifest-Inert :
    (s : Setting) (mode : Mode) (lock : Bool) (rows : List Row) (verdict : Option Verdict)
    (proof : Option BackupProof) (w : World)
    → (is_apply mode && not (is_refusal (apply_manifest s mode lock rows verdict proof w).0))
      ≡ false
    → Inert w (apply_manifest s mode lock rows verdict proof w).1
unfolding apply_manifest run_locked
apply_manifest-Inert s mode lock rows verdict proof w =
    let s' : Setting = record s { operational = or_default s.operational } in
    let w' : World = record w { locked = true } in
    if-Inert (is_conflict (run_dir_conflict s.lib s.run_dir s.library_root)) mode w _ _
      (λ _ _. same-Inert w w refl)
      (λ _.
        if-Inert (not lock) mode w _ _
          (λ _ h.
            same-Inert w _ (
              run-Inert s' mode rows verdict proof w _ (run-RunEnds s' mode rows verdict proof w)
                h))
          (λ _.
            if-Inert w.locked mode w _ _ (λ _ _. same-Inert w w refl)
              (λ free h. unlocked-Inert w _ free (
                run-Inert s' mode rows verdict proof w' _
                  (run-RunEnds s' mode rows verdict proof w') h))))
