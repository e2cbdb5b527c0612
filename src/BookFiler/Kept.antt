-- ===== src/BookFiler/Kept.antt =====
-- What the commands of the actuator do to the contents of the library's files.
use ebook_automation.Text.{text_eq}
use ebook_automation.BookFiler.FileSystem.{Fs}
use ebook_automation.BookFiler.Move.{Os, plan_move}
use ebook_automation.BookFiler.Journal.{Entry, Journal, read_records, intents_by_seq}
use ebook_automation.BookFiler.Manifest.{Row, manifest_digest}
use ebook_automation.BookFiler.Gates.{
  Verdict, Binding, bound, not_a_mapping, unbound, digest_mismatch, not_green, no_floor,
  no_trash_safety, verify_binding,
}
use ebook_automation.BookFiler.Backup.{
  BackupProof, BackupCheck, verified, no_proof, no_mirror_root, mirror_missing, mirror_inside,
  no_file_count, no_sample, mirror_fails, live_fails, verify_backup_proof,
}
use ebook_automation.BookFiler.Routing.{
  Escape, contained, root_unresolved, source_escapes, target_escapes, containment_violation,
  run_dir_conflict, or_default,
}
use ebook_automation.BookFiler.Apply.{
  World, Setting, Mode, journal_of, take_rows, loop, backup_gate, escape_gate, binding_gate,
  run_records, run, is_fresh,
}
use ebook_automation.BookFiler.Undo.{
  sort_desc, undo_record, undo_records, undo_journal, check_restored,
}
use ebook_automation.BookFiler.Actuate.{
  Command, finalize_mode, undo_mode, run_mode, main, dispatch, finalize_run, finalize_journal,
  archive, write_archive, run_locked, apply_manifest, undo_world, undo_locked, undo_apply,
  is_conflict,
}
use ebook_automation.BookFiler.Contents.{
  contents, contents-execute_move, Keeps, if-Keeps, run_rows-Keeps,
}
use ebook_automation.Common.{
  ℕ, ◌≡◌, refl, ◌∙◌, Bool, true, false, not, ◌&&◌, Option, none, some, List, [], ◌∷◌, arith,
  if◌then◌else◌,
}

loop-Keeps :
    (s : Setting) (mode : Mode) (records : List Entry) (rows : List Row) (stop : Option ℕ)
    (w : World)
    → Keeps w (loop s mode records rows stop w)
unfolding loop
loop-Keeps s mode records rows none w = run_rows-Keeps s mode records rows 0 w
loop-Keeps s mode records rows (some n) w = run_rows-Keeps s mode records (take_rows n rows) 0 w

backup_gate-Keeps :
    (s : Setting) (mode : Mode) (records : List Entry) (rows : List Row) (c : BackupCheck)
    (w : World)
    → Keeps w (backup_gate s mode records rows c w)
unfolding backup_gate
backup_gate-Keeps s mode records rows verified w = loop-Keeps s mode records rows s.breaks_off w
backup_gate-Keeps s mode records rows no_proof w = refl
backup_gate-Keeps s mode records rows no_mirror_root w = refl
backup_gate-Keeps s mode records rows mirror_missing w = refl
backup_gate-Keeps s mode records rows mirror_inside w = refl
backup_gate-Keeps s mode records rows no_file_count w = refl
backup_gate-Keeps s mode records rows no_sample w = refl
backup_gate-Keeps s mode records rows (mirror_fails t) w = refl
backup_gate-Keeps s mode records rows (live_fails t) w = refl

escape_gate-Keeps :
    (s : Setting) (mode : Mode) (records : List Entry) (rows : List Row)
    (proof : Option BackupProof) (e : Escape) (w : World)
    → Keeps w (escape_gate s mode records rows proof e w)
unfolding escape_gate
escape_gate-Keeps s mode records rows proof contained w =
    backup_gate-Keeps s mode records rows
      (if is_fresh mode records
        then verify_backup_proof s.lib s.library_root proof w.fs
        else verified)
      w
escape_gate-Keeps s mode records rows proof root_unresolved w = refl
escape_gate-Keeps s mode records rows proof (source_escapes n) w = refl
escape_gate-Keeps s mode records rows proof (target_escapes n) w = refl

binding_gate-Keeps :
    (s : Setting) (mode : Mode) (records : List Entry) (rows : List Row)
    (proof : Option BackupProof) (b : Binding) (w : World)
    → Keeps w (binding_gate s mode records rows proof b w)
unfolding binding_gate
binding_gate-Keeps s mode records rows proof bound w =
    escape_gate-Keeps s mode records rows proof
      (containment_violation s.lib rows s.library_root s.operational) w
binding_gate-Keeps s mode records rows proof not_a_mapping w = refl
binding_gate-Keeps s mode records rows proof unbound w = refl
binding_gate-Keeps s mode records rows proof digest_mismatch w = refl
binding_gate-Keeps s mode records rows proof not_green w = refl
binding_gate-Keeps s mode records rows proof no_floor w = refl
binding_gate-Keeps s mode records rows proof no_trash_safety w = refl

run_records-Keeps :
    (s : Setting) (mode : Mode) (rows : List Row) (verdict : Option Verdict)
    (proof : Option BackupProof) (o : Option (List Entry)) (w : World)
    → Keeps w (run_records s mode rows verdict proof o w)
run_records-Keeps s mode rows verdict proof none w = refl
run_records-Keeps s mode rows verdict proof (some records) w =
    binding_gate-Keeps s mode records rows proof
      (verify_binding (manifest_digest s.dumps s.lib.hash rows) verdict) w

apply_manifest-Keeps :
    (s : Setting) (mode : Mode) (lock : Bool) (rows : List Row) (verdict : Option Verdict)
    (proof : Option BackupProof) (w : World)
    → Keeps w (apply_manifest s mode lock rows verdict proof w)
unfolding apply_manifest run_locked run
apply_manifest-Keeps s mode lock rows verdict proof w =
    let s' : Setting = record s { operational = or_default s.operational } in
    let records = read_records (journal_of w.journal) in
    if-Keeps (is_conflict (run_dir_conflict s.lib s.run_dir s.library_root)) w _ _ refl (
      if-Keeps (not lock) w _ _ (run_records-Keeps s' mode rows verdict proof records w) (
        if-Keeps w.locked w _ _ refl
          (run_records-Keeps s' mode rows verdict proof records (record w { locked = true }))))

undo_record-keeps :
    (os : Os) (hash : List ℕ → List ℕ) (records : List Entry) (e : Entry) (fs : Fs)
    → contents (undo_record os hash records e fs).1.files ≡ contents fs.files
unfolding undo_record check_restored
undo_record-keeps os hash records e fs =
    ground (arith, contents-execute_move os (plan_move os e.dst e.src false fs) fs)

undo_records-keeps :
    (os : Os) (hash : List ℕ → List ℕ) (records es : List Entry) (fs : Fs)
    → contents (undo_records os hash records es fs).1.files ≡ contents fs.files
unfolding undo_records
undo_records-keeps os hash records [] fs = refl
undo_records-keeps os hash records (e ∷ es) fs =
    undo_records-keeps os hash records es (undo_record os hash records e fs).1
    ∙ undo_record-keeps os hash records e fs

undo_locked-Keeps :
    (s : Setting) (lock : Bool) (o : Option (List Entry)) (w : World)
    → Keeps w (undo_locked s lock o w)
unfolding undo_locked undo_world undo_journal
undo_locked-Keeps s lock none w = refl
undo_locked-Keeps s lock (some records) w =
    let kept =
      undo_records-keeps s.os s.lib.hash records (sort_desc (intents_by_seq records)) w.fs in
    if-Keeps (not lock) w _ _ kept (if-Keeps w.locked w _ _ refl kept)

archive-Keeps :
    (s : Setting) (j : Journal) (o : Option (List Entry)) (w : World)
    → is_conflict (run_dir_conflict s.lib s.run_dir s.library_root) ≡ false
    → Keeps w (archive s j o w)
unfolding write_archive
archive-Keeps s j none w apart = refl
archive-Keeps s j (some records) w apart = ground (arith, apart)

finalize_journal-Keeps :
    (s : Setting) (o : Option Journal) (w : World)
    → is_conflict (run_dir_conflict s.lib s.run_dir s.library_root) ≡ false
    → Keeps w (finalize_journal s o w)
unfolding finalize_journal
finalize_journal-Keeps s none w apart = refl
finalize_journal-Keeps s (some j) w apart = archive-Keeps s j (read_records j) w apart

undo_apply-Keeps : (s : Setting) (lock : Bool) (w : World) → Keeps w (undo_apply s lock w)
unfolding undo_apply
undo_apply-Keeps s lock w =
    if-Keeps (is_conflict (run_dir_conflict s.lib s.run_dir s.library_root)) w _ _ refl
      (undo_locked-Keeps s lock (read_records (journal_of w.journal)) w)

abbrev pub is_finalize : Command → Bool
is_finalize finalize_mode = true
is_finalize undo_mode = false
is_finalize (run_mode _ _ _) = false

dispatch-Keeps :
    (s : Setting) (lock : Bool) (c : Command) (w : World)
    → (is_finalize c && is_conflict (run_dir_conflict s.lib s.run_dir s.library_root)) ≡ false
    → Keeps w (dispatch s lock c w)
unfolding dispatch finalize_run
dispatch-Keeps s lock finalize_mode w apart = finalize_journal-Keeps s w.journal w apart
dispatch-Keeps s lock undo_mode w apart = undo_apply-Keeps s lock w
dispatch-Keeps s lock (run_mode mode false inputs) w apart = refl
dispatch-Keeps s lock (run_mode mode true none) w apart = refl
dispatch-Keeps s lock (run_mode mode true (some (rows, (verdict, proof)))) w apart =
    apply_manifest-Keeps s mode lock rows verdict proof w

-- Whatever the manifest, the verdict, the journal and the refusals of the operating system, an
-- apply, a dry run and an undo, and a finalize whose run directory is apart from the library, leave
-- the bytes of all of the library's files as they are, in the same order: no file is deleted,
-- overwritten, copied or changed.
pub main-Keeps :
    (seed : Option (List ℕ)) (s : Setting) (lock : Bool) (c : Command) (w : World)
    → (is_finalize c && is_conflict (run_dir_conflict s.lib s.run_dir s.library_root)) ≡ false
    → Keeps w (main seed s lock c w)
unfolding main
main-Keeps none s lock c w apart = refl
main-Keeps (some seed) s lock c w apart =
    if-Keeps (text_eq seed (b'0' ∷ [])) w _ _ (dispatch-Keeps s lock c w apart) refl
