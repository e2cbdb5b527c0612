-- ===== src/BookFiler/Mirror.antt =====
-- What a verified backup proof says of the mirror and of the library.

use ebook_automation.BookFiler.Path.{FilePath}
use ebook_automation.BookFiler.FileSystem.{Fs, read_bytes}
use ebook_automation.BookFiler.Journal.{has_hash}
use ebook_automation.BookFiler.Backup.{
  Library, Sampled, BackupProof, TreeCheck, matches, count_drift, malformed_sample, sample_missing,
  sample_mismatch, verified, disjoint, count_files, check_sampled, check_sample, verify_tree,
  check_live, check_mirror, check_trees, check_root, verify_backup_proof,
}
use ebook_automation.Common.{
  ℕ, ◌≡◌, refl, Bool, true, false, ◌&&◌, Option, none, some, List, [], ◌∷◌, arith,
}

abbrev pub sample_holds : Library → FilePath → Fs → Option (List ℕ) → Option (List ℕ) → Bool
sample_holds lib root fs none want = false
sample_holds lib root fs (some rel) none = false
sample_holds lib root fs (some rel) (some want) =
    has_hash lib.hash (read_bytes (lib.join root rel) fs.files) want

-- every sampled file is under the root, with the sampled hash
unfoldable pub all_hold : Library → FilePath → Fs → List Sampled → Bool
all_hold lib root fs [] = true
all_hold lib root fs (s ∷ ss) =
    sample_holds lib root fs s.relpath s.sha256 && all_hold lib root fs ss

check_sampled-holds :
    (lib : Library) (root : FilePath) (fs : Fs) (rel want : Option (List ℕ)) (rest : TreeCheck)
    → check_sampled lib root fs rel want rest ≡ matches
    → (sample_holds lib root fs rel want ≡ true) × (rest ≡ matches)
check_sampled-holds lib root fs none want rest h = cc
check_sampled-holds lib root fs (some rel) none rest h = cc
check_sampled-holds lib root fs (some rel) (some want) rest h = ground arith

check_sample-all_hold :
    (lib : Library) (root : FilePath) (fs : Fs) (ss : List Sampled)
    → check_sample lib root fs ss ≡ matches
    → all_hold lib root fs ss ≡ true
unfolding check_sample all_hold
check_sample-all_hold lib root fs [] h = refl
check_sample-all_hold lib root fs (s ∷ ss) h =
    let (now, later) =
      check_sampled-holds lib root fs s.relpath s.sha256 (check_sample lib root fs ss) h in
    ground (arith, now, check_sample-all_hold lib root fs ss later)

-- What one tree has: the files that the proof counts, and the sampled ones with their hashes.
pub record Mirrored (lib : Library) (root : FilePath) (n : ℕ) (ss : List Sampled) (fs : Fs)
    : Type 0 where
  pub counted : count_files root fs.files ≡ n
  pub sampled : all_hold lib root fs ss ≡ true

verify_tree-Mirrored :
    (lib : Library) (root : FilePath) (n : ℕ) (ss : List Sampled) (fs : Fs)
    → verify_tree lib root n ss fs ≡ matches
    → Mirrored lib root n ss fs
unfolding verify_tree
verify_tree-Mirrored lib root n ss fs h = record {
  counted = ground arith;
  sampled = check_sample-all_hold lib root fs ss (ground arith);
}

-- An external mirror of the library that holds what the proof says.
pub record Backed (lib : Library) (live_root : FilePath) (proof : BackupProof) (fs : Fs)
    : Type 0 where
  pub text : List ℕ
  pub n : ℕ
  pub first : Sampled
  pub others : List Sampled
  pub named : proof.mirror_root ≡ some text
  pub file_count : proof.file_count ≡ some n
  pub sample : proof.sample ≡ some (first ∷ others)
  pub external : disjoint lib (lib.path_of text) live_root ≡ true
  pub mirror : Mirrored lib (lib.path_of text) n (first ∷ others) fs
  pub live : Mirrored lib live_root n (first ∷ others) fs

check_live-matches : (t : TreeCheck) → check_live t ≡ verified → t ≡ matches
check_live-matches matches h = refl
check_live-matches count_drift h = cc
check_live-matches malformed_sample h = cc
check_live-matches sample_missing h = cc
check_live-matches sample_mismatch h = cc

check_mirror-matches :
    (t live : TreeCheck) → check_mirror t live ≡ verified → (t ≡ matches) × (live ≡ matches)
check_mirror-matches matches live h = (refl, check_live-matches live h)
check_mirror-matches count_drift live h = cc
check_mirror-matches malformed_sample live h = cc
check_mirror-matches sample_missing live h = cc
check_mirror-matches sample_mismatch live h = cc

check_trees-Backed :
    (lib : Library) (live_root : FilePath) (proof : BackupProof) (text : List ℕ) (fs : Fs)
    (count : Option ℕ) (sample : Option (List Sampled))
    → proof.mirror_root ≡ some text
    → disjoint lib (lib.path_of text) live_root ≡ true
    → proof.file_count ≡ count
    → proof.sample ≡ sample
    → check_trees lib live_root (lib.path_of text) count sample fs ≡ verified
    → Backed lib live_root proof fs
check_trees-Backed lib live_root proof text fs none sample m d c s h = cc
check_trees-Backed lib live_root proof text fs (some n) none m d c s h = cc
check_trees-Backed lib live_root proof text fs (some n) (some []) m d c s h = cc
check_trees-Backed lib live_root proof text fs (some n) (some (x ∷ xs)) m d c s h =
    let both =
      check_mirror-matches (verify_tree lib (lib.path_of text) n (x ∷ xs) fs)
        (verify_tree lib live_root n (x ∷ xs) fs) h in
    record {
      text = text;
      n = n;
      first = x;
      others = xs;
      named = m;
      file_count = c;
      sample = s;
      external = d;
      mirror = verify_tree-Mirrored lib (lib.path_of text) n (x ∷ xs) fs both.0;
      live = verify_tree-Mirrored lib live_root n (x ∷ xs) fs both.1;
    }

check_root-Backed :
    (lib : Library) (live_root : FilePath) (proof : BackupProof) (o : Option (List ℕ)) (fs : Fs)
    → proof.mirror_root ≡ o
    → check_root lib live_root proof o fs ≡ verified
    → Backed lib live_root proof fs
check_root-Backed lib live_root proof none fs m h = cc
check_root-Backed lib live_root proof (some t) fs m h =
    check_trees-Backed lib live_root proof t fs proof.file_count proof.sample m (ground arith) refl
      refl (ground arith)

-- A backup proof is verified only where its mirror is outside the library and the library outside
-- it, both trees have as many files as the proof counts, and every sampled file, of which there is
-- one at least, stands in both with the sampled hash.
pub verify_backup_proof-Backed :
    (lib : Library) (live_root : FilePath) (proof : BackupProof) (fs : Fs)
    → verify_backup_proof lib live_root (some proof) fs ≡ verified
    → Backed lib live_root proof fs
unfolding verify_backup_proof
verify_backup_proof-Backed lib live_root proof fs h =
    check_root-Backed lib live_root proof proof.mirror_root fs refl h
