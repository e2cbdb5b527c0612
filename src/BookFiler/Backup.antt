-- ===== src/BookFiler/Backup.antt =====
-- tools/book_filer/backup.py: the proof of an external mirror. `resolve` is `Path.resolve`, `none`
-- an `OSError`; `join` is `root / text`; a proof is what `json.loads` reads, `none` in a field for a
-- value that is missing or of another type. A count below 0, which no tree has, is no count here.
use ebook_automation.Text.{lower}
use ebook_automation.BookFiler.Path.{FilePath, is_prefix}
use ebook_automation.BookFiler.FileSystem.{Fs, is_file, exists, read_bytes}
use ebook_automation.BookFiler.Journal.{has_hash}
use ebook_automation.BookFiler.Gates.{is_empty}
use ebook_automation.Common.{
  ℕ, suc, Bool, false, not, ◌&&◌, ◌||◌, Option, none, some, List, [], ◌∷◌, map, ◌==◌, if◌then◌else◌,
}

-- What `pathlib` and `hashlib` do.
pub record Library : Type 0 where
  pub resolve : FilePath → Option FilePath
  pub path_of : List ℕ → FilePath
  pub join : FilePath → List ℕ → FilePath
  pub hash : List ℕ → List ℕ

pub record Sampled : Type 0 where
  pub relpath : Option (List ℕ)
  pub sha256 : Option (List ℕ)

pub record BackupProof : Type 0 where
  pub mirror_root : Option (List ℕ)
  pub file_count : Option ℕ
  pub sample : Option (List Sampled)

-- `tuple(p.lower() for p in path.resolve().parts)`
abbrev pub lower_parts : Option FilePath → Option FilePath
lower_parts none = none
lower_parts (some p) = some (map lower p)

-- `ap[:n] != bp[:n]` for the shorter length
unfoldable pub parts_differ : FilePath → FilePath → Bool
parts_differ a b = not (is_prefix a b) && not (is_prefix b a)

abbrev pub differ : Option FilePath → Option FilePath → Bool
differ none _ = false
differ (some a) none = false
differ (some a) (some b) = parts_differ a b

-- `_disjoint`
unfoldable pub disjoint : Library → FilePath → FilePath → Bool
disjoint lib a b = differ (lower_parts (lib.resolve a)) (lower_parts (lib.resolve b))

-- `root.rglob("*")`, the files of it
unfoldable pub count_files : FilePath → List (FilePath × List ℕ) → ℕ
count_files root [] = 0
count_files root ((q, _) ∷ fs) =
    let rest = count_files root fs in
    if is_prefix root q && not (is_prefix q root) then suc rest else rest

pub data TreeCheck : Type 0 where
  matches count_drift malformed_sample sample_missing sample_mismatch : TreeCheck

-- one round of the loop; `rest` is the rounds after it
abbrev pub check_sampled :
    Library → FilePath → Fs → Option (List ℕ) → Option (List ℕ) → TreeCheck → TreeCheck
check_sampled lib root fs none want rest = malformed_sample
check_sampled lib root fs (some rel) none rest = malformed_sample
check_sampled lib root fs (some rel) (some want) rest =
    if is_empty rel || is_empty want
    then malformed_sample
    else if not (is_file (lib.join root rel) fs.files)
    then sample_missing
    else if not (has_hash lib.hash (read_bytes (lib.join root rel) fs.files) want)
    then sample_mismatch
    else rest

unfoldable pub check_sample : Library → FilePath → Fs → List Sampled → TreeCheck
check_sample lib root fs [] = matches
check_sample lib root fs (s ∷ ss) =
    check_sampled lib root fs s.relpath s.sha256 (check_sample lib root fs ss)

-- `_verify_tree`
unfoldable pub verify_tree : Library → FilePath → ℕ → List Sampled → Fs → TreeCheck
verify_tree lib root expected_count sample fs =
    if not (count_files root fs.files == expected_count)
    then count_drift
    else check_sample lib root fs sample

pub data BackupCheck : Type 0 where
  verified no_proof no_mirror_root mirror_missing mirror_inside no_file_count no_sample :
      BackupCheck
  mirror_fails live_fails : TreeCheck → BackupCheck

abbrev pub check_live : TreeCheck → BackupCheck
check_live matches = verified
check_live t = live_fails t

abbrev pub check_mirror : TreeCheck → TreeCheck → BackupCheck
check_mirror matches live = check_live live
check_mirror t live = mirror_fails t

abbrev pub check_trees :
    Library → FilePath → FilePath → Option ℕ → Option (List Sampled) → Fs → BackupCheck
check_trees lib live_root mirror none sample fs = no_file_count
check_trees lib live_root mirror (some n) none fs = no_sample
check_trees lib live_root mirror (some n) (some []) fs = no_sample
check_trees lib live_root mirror (some n) (some (s ∷ ss)) fs =
    check_mirror (verify_tree lib mirror n (s ∷ ss) fs) (verify_tree lib live_root n (s ∷ ss) fs)

abbrev pub check_root : Library → FilePath → BackupProof → Option (List ℕ) → Fs → BackupCheck
check_root lib live_root proof none fs = no_mirror_root
check_root lib live_root proof (some t) fs =
    if is_empty t
    then no_mirror_root
    else if not (exists (lib.path_of t) fs)
    then mirror_missing
    else if not (disjoint lib (lib.path_of t) live_root)
    then mirror_inside
    else check_trees lib live_root (lib.path_of t) proof.file_count proof.sample fs

unfoldable pub verify_backup_proof : Library → FilePath → Option BackupProof → Fs → BackupCheck
verify_backup_proof lib live_root none fs = no_proof
verify_backup_proof lib live_root (some proof) fs =
    check_root lib live_root proof proof.mirror_root fs
