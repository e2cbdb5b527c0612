-- ===== src/Tests/Filer.antt =====
-- The book filer on a library of three books and its mirror.
use ebook_automation.BookFiler.Routing.{
  containment_violation, rows_violation, path_inside, run_dir_conflict, route_target,
  original_relpath, relative_to, find_folder,
}
use ebook_automation.BookFiler.Path.{ancestry, name, parent, is_prefix, path_eq, FilePath}
use ebook_automation.BookFiler.FileSystem.{
  replace, remove_file, mkdir, add_dirs, any_file, read_bytes, is_dir, Fs, exists, is_file, rename,
}
use ebook_automation.Text.{decimal}
use ebook_automation.BookFiler.Unique.{search, candidate, stem_suffix, unique_path}
use ebook_automation.BookFiler.FreeNames.{unique_path-free}
use ebook_automation.BookFiler.Move.{
  attempt_move, has_reparse_in_ancestry, any_reparse, Os, no_attributes, MoveDecision, plan_move,
  execute_move,
}
use ebook_automation.BookFiler.Journal.{
  already_applied, count_committed, is_committed, find_intent, collect_intents, put_intent,
  parse_lines, Entry, Journal, entry, blank, closed, empty_journal, append_record, append_torn,
  read_records,
}
use ebook_automation.BookFiler.JournalLines.{then_entry, read_records-append_record, torn_journal}
use ebook_automation.BookFiler.Manifest.{
  undo_lines, sort_rows, insert_row, text_le, Row, Projected, manifest_digest,
}
use ebook_automation.BookFiler.Gates.{
  verify_binding, find_gate, evaluate_calibration, count_wrong_shelf, Verdict,
}
use ebook_automation.BookFiler.Backup.{
  verify_backup_proof, verify_tree, check_sample, count_files, disjoint, parts_differ, Library,
  BackupProof,
}
use ebook_automation.BookFiler.Apply.{
  run, binding_gate, escape_gate, backup_gate, loop, routed_row, backfill_or, fresh_row,
  applied_intent, act, carry_out, finish_move, World, Setting, dry_run, apply, run_row, run_rows,
  log, commit_of,
}
use ebook_automation.BookFiler.Undo.{
  undo_journal, sort_desc, insert_desc, all_restored, undo_records, check_restored, holds,
  undo_record, undone, never_applied,
}
use ebook_automation.BookFiler.Actuate.{
  dispatch, finalize_run, finalize_journal, undo_locked, undo_world, count_restored, run_locked,
  main, run_mode, undo_apply, apply_manifest,
}
use ebook_automation.BookFiler.Moves.{Moved, execute_move-Moved}
use ebook_automation.BookFiler.Kept.{main-Keeps}
use ebook_automation.BookFiler.Contents.{Keeps}
use ebook_automation.BookFiler.Guarded.{Guarded, Inert, apply_manifest-Inert}
use ebook_automation.BookFiler.Mirror.{Backed, verify_backup_proof-Backed}
use ebook_automation.BookFiler.Resume.{MoveMade, run_row-crashed, undo_record-stale}
use ebook_automation.Common.{
  ℕ, String, ◌≡◌, refl, true, false, none, some, List, [], ◌∷◌, ◌++◌, ◌==◌, if◌then◌else◌, codes,
}

abbrev cons_word : ℕ → FilePath → FilePath
cons_word c [] = (c ∷ []) ∷ []
cons_word c (w ∷ ws) = (c ∷ w) ∷ ws

unfoldable split : List ℕ → FilePath
split [] = [] ∷ []
split (c ∷ cs) = let rest = split cs in if c == b'/' then [] ∷ rest else cons_word c rest

abbrev root : FilePath
root = codes "/" ∷ codes "lib" ∷ []

-- a library of functions where a file's bytes are its hash
abbrev library : Library
library = record {
  resolve = some;
  path_of = λ t. codes "/" ∷ split t;
  join = λ p t. p ++ split t;
  hash = λ c. c;
}

abbrev os : Os
os = record { lstat = λ _. no_attributes; refuses_dir = λ _. false; refuses_move = λ _ _. false }

unfoldable map_paths : List Projected → List ℕ
map_paths [] = []
map_paths (p ∷ ps) = p.original_path ++ map_paths ps

abbrev setting : Setting
setting = record {
  os = os;
  lib = library;
  dumps = map_paths;
  library_root = root;
  run_dir = codes "/" ∷ codes "run" ∷ [];
  operational = [];
  stamp = codes "1";
  journal_bytes = λ j. [];
  audit_bytes = λ n. codes "{}";
  breaks_off = none;
}

abbrev row_a : Row
row_a = record {
  original_path = codes "lib/a.pdf";
  destination_path = codes "lib/S/a.pdf";
  sha256 = codes "aa";
  action = codes "copy";
  calibre_id = none;
  undo_action = [];
  other = [];
}

abbrev row_b : Row
row_b = record {
  original_path = codes "lib/b.pdf";
  destination_path = [];
  sha256 = codes "bb";
  action = codes "trash";
  calibre_id = none;
  undo_action = [];
  other = [];
}

abbrev rows : List Row
rows = row_a ∷ row_b ∷ []

abbrev at_lib : String → FilePath
at_lib t = root ++ codes t ∷ []

abbrev at_mirror : String → FilePath
at_mirror t = codes "/" ∷ codes "mirror" ∷ codes t ∷ []

abbrev fs : Fs
fs = record {
  files =
      (at_lib "a.pdf", codes "aa")
      ∷ (at_lib "b.pdf", codes "bb")
      ∷ (root ++ codes "S" ∷ codes "a.pdf" ∷ [], codes "cc")
      ∷ (at_mirror "a.pdf", codes "aa")
      ∷ (at_mirror "b.pdf", codes "bb")
      ∷ (at_mirror "c.pdf", codes "cc")
      ∷ [];
  dirs =
      (codes "/" ∷ []) ∷ root ∷ (root ++ codes "S" ∷ []) ∷ (codes "/" ∷ codes "mirror" ∷ []) ∷ [];
}

abbrev world : World
world = record { fs = fs; journal = none; locked = false }

abbrev proof : BackupProof
proof = record {
  mirror_root = some (codes "mirror");
  file_count = some 3;
  sample = some (record { relpath = some (codes "a.pdf"); sha256 = some (codes "aa") } ∷ []);
}

abbrev verdict : Verdict
verdict = record {
  manifest_digest = some (manifest_digest map_paths (λ c. c) rows);
  green = true;
  gates = some ((codes "trash_safety", true) ∷ (codes "auto_shelf_floor", true) ∷ []);
}

abbrev intent_a : Entry
intent_a = record {
  is_commit = false;
  seq = 0;
  src = at_lib "a.pdf";
  dst = root ++ codes "S" ∷ codes "a (2).pdf" ∷ [];
  action = codes "copy";
  sha256 = codes "aa";
  ts = codes "1";
}

-- the world after the crash between the move of `row_a` and its commit
abbrev moved_fs : Fs
moved_fs = record fs {
  files = rename (at_lib "a.pdf") (root ++ codes "S" ∷ codes "a (2).pdf" ∷ []) fs.files;
}

abbrev crashed : World
crashed = record {
  fs = moved_fs;
  journal = some (append_record empty_journal intent_a);
  locked = false;
}

unique_path-free_example :
    exists (unique_path (root ++ codes "S" ∷ codes "a.pdf" ∷ []) fs) fs ≡ false
unique_path-free_example = unique_path-free (root ++ codes "S" ∷ codes "a.pdf" ∷ []) fs

abbrev decision : MoveDecision
decision = plan_move os (at_lib "a.pdf") (root ++ codes "S" ∷ codes "a.pdf" ∷ []) true fs

main-Keeps_example : Keeps world (
    main
      (some (codes "0"))
      setting
      true
      (run_mode apply true (some (rows, (some verdict, some proof))))
      world)
main-Keeps_example =
    main-Keeps (some (codes "0")) setting true
      (run_mode apply true (some (rows, (some verdict, some proof)))) world refl

abbrev applied : World
applied = (apply_manifest setting apply true rows (some verdict) (some proof) world).1

apply_manifest-Inert_example :
    Inert world (apply_manifest setting dry_run true rows (some verdict) (some proof) world).1
unfolding path_eq is_prefix parent name ancestry is_file is_dir read_bytes any_file add_dirs mkdir
    remove_file rename replace decimal stem_suffix candidate search unique_path any_reparse
    has_reparse_in_ancestry plan_move attempt_move execute_move parse_lines read_records put_intent
    collect_intents find_intent is_committed count_committed already_applied text_le insert_row
    sort_rows undo_lines count_wrong_shelf evaluate_calibration find_gate verify_binding
    parts_differ disjoint count_files check_sample verify_tree verify_backup_proof find_folder
    relative_to original_relpath route_target run_dir_conflict path_inside rows_violation
    containment_violation log finish_move carry_out act applied_intent fresh_row backfill_or
    routed_row run_row run_rows loop backup_gate escape_gate binding_gate run holds check_restored
    undo_record undo_records all_restored insert_desc sort_desc undo_journal run_locked
    apply_manifest count_restored undo_world undo_locked undo_apply finalize_journal finalize_run
    dispatch main split map_paths ebook_automation.Text.text_eq ebook_automation.Text.lower_char
apply_manifest-Inert_example =
    apply_manifest-Inert setting dry_run true rows (some verdict) (some proof) world refl

verify_backup_proof-Backed_example : Backed library root proof fs
unfolding ebook_automation.BookFiler.Backup.verify_backup_proof is_file
    ebook_automation.BookFiler.Path.path_eq ebook_automation.Text.text_eq split
    ebook_automation.BookFiler.FileSystem.is_dir ebook_automation.BookFiler.Backup.disjoint
    ebook_automation.BookFiler.Backup.parts_differ ebook_automation.BookFiler.Path.is_prefix
    ebook_automation.Text.lower_char ebook_automation.BookFiler.Backup.verify_tree
    ebook_automation.BookFiler.Backup.count_files ebook_automation.BookFiler.Backup.check_sample
    ebook_automation.BookFiler.FileSystem.read_bytes
verify_backup_proof-Backed_example = verify_backup_proof-Backed library root proof fs refl

abbrev commit_b : Entry
commit_b = record intent_a { is_commit = true; seq = 1 }

made_a : MoveMade intent_a fs moved_fs
unfolding is_file ebook_automation.BookFiler.Path.path_eq ebook_automation.Text.text_eq
made_a = record { was_there = refl; was_free = refl; is_renamed = refl }

run_row-crashed_example :
    (run_row setting apply (intent_a ∷ []) row_a 0 crashed).1 ≡ log (commit_of intent_a) crashed
unfolding ebook_automation.BookFiler.Routing.route_target ebook_automation.Text.text_eq split
    ebook_automation.BookFiler.Journal.is_committed ebook_automation.BookFiler.Journal.find_intent
    ebook_automation.BookFiler.Journal.collect_intents ebook_automation.BookFiler.FileSystem.is_dir
    ebook_automation.BookFiler.Path.path_eq ebook_automation.BookFiler.FileSystem.read_bytes
run_row-crashed_example =
    run_row-crashed setting (intent_a ∷ []) row_a 0 (root ++ codes "S" ∷ codes "a.pdf" ∷ [])
      intent_a fs crashed refl refl refl made_a refl refl

-- the same intent, of a file that was changed after the manifest was made
abbrev stale_a : Entry
stale_a = record intent_a { sha256 = codes "xx" }

made_stale : MoveMade stale_a fs moved_fs
unfolding is_file ebook_automation.BookFiler.Path.path_eq ebook_automation.Text.text_eq
made_stale = record { was_there = refl; was_free = refl; is_renamed = refl }

undo_record-stale_example :
    undo_record os (λ c. c) (stale_a ∷ []) stale_a moved_fs
    ≡ (undone stale_a true never_applied, moved_fs)
unfolding ebook_automation.BookFiler.FileSystem.read_bytes ebook_automation.BookFiler.Path.path_eq
    ebook_automation.Text.text_eq ebook_automation.BookFiler.Journal.is_committed
undo_record-stale_example =
    undo_record-stale os (λ c. c) (stale_a ∷ []) stale_a fs moved_fs made_stale refl refl

abbrev journal : Journal
journal = record { lines = entry intent_a ∷ blank ∷ []; tail = closed }

torn_journal_example :
    (read_records (append_torn journal) ≡ read_records journal)
    × ((read_records (append_record (append_torn journal) commit_b) ≡ read_records journal)
        × (read_records (append_record (append_record (append_torn journal) commit_b) intent_a)
            ≡ none))
unfolding ebook_automation.BookFiler.JournalLines.AllParse
torn_journal_example = torn_journal journal commit_b intent_a refl tt

execute_move-Moved_example : Moved decision fs (execute_move os decision fs)
execute_move-Moved_example = execute_move-Moved os decision fs
