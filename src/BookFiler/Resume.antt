-- ===== src/BookFiler/Resume.antt =====
-- A run that is started again.

use ebook_automation.BookFiler.Path.{FilePath}
use ebook_automation.BookFiler.FileSystem.{
  gone-rename, Fs, is_file, is_dir, read_bytes, rename, is_file-rename,
}
use ebook_automation.BookFiler.Path.{path_eq_iff}
use ebook_automation.BookFiler.Journal.{
  Entry, is_committed, find_intent, intents_by_seq, has_hash, already_applied,
}
use ebook_automation.BookFiler.Manifest.{Row}
use ebook_automation.BookFiler.Routing.{route_target}
use ebook_automation.BookFiler.Apply.{
  World, Setting, apply, routed_row, run_row, run_rows, applied_intent, backfill_or, log, commit_of,
}
use ebook_automation.BookFiler.Move.{Os}
use ebook_automation.BookFiler.Gates.{is_empty}
use ebook_automation.BookFiler.Undo.{undo_record, undone, current_missing, never_applied, holds}
use ebook_automation.Common.{
  ℕ, suc, ◌≡◌, refl, ap, ◌∙◌, Bool, true, false, ◌&&◌, Option, none, some, List, [], ◌∷◌, arith,
  if◌then◌else◌,
}

-- the rows from `seq` on that the journal has committed
unfoldable pub all_committed : ℕ → List Row → List Entry → Bool
all_committed seq [] records = true
all_committed seq (r ∷ rs) records = is_committed seq records && all_committed (suc seq) rs records

routed_row-committed :
    (s : Setting) (records : List Entry) (row : Row) (seq : ℕ) (t : Option FilePath) (w : World)
    → is_committed seq records ≡ true
    → (routed_row s apply records row seq t w).1 ≡ w
unfolding routed_row
routed_row-committed s records row seq none w h = refl
routed_row-committed s records row seq (some target) w h = ground (arith, h)

-- A run on a journal that has committed every row changes nothing: no row is moved twice.
pub run_rows-committed :
    (s : Setting) (records : List Entry) (rows : List Row) (seq : ℕ) (w : World)
    → all_committed seq rows records ≡ true
    → (run_rows s apply records rows seq w).1 ≡ w
unfolding run_rows run_row all_committed
run_rows-committed s records [] seq w h = refl
run_rows-committed s records (row ∷ rows) seq w h =
    let step =
      routed_row-committed s records row seq (route_target s.lib row s.library_root s.operational) w
        (ground (arith, h)) in
    run_rows-committed s records rows (suc seq) (run_row s apply records row seq w).1
      (ground (arith, h))
    ∙ step

read_bytes-rename :
    (src dst : FilePath) (files : List (FilePath × List ℕ))
    → is_file dst files ≡ false
    → is_file src files ≡ true
    → read_bytes dst (rename src dst files) ≡ read_bytes src files
unfolding read_bytes rename is_file
read_bytes-rename src dst [] d s = cc
read_bytes-rename src dst ((q, c) ∷ fs) d s =
    ground (
      arith,
      read_bytes-rename src dst fs,
      path_eq_iff q src,
      path_eq_iff q dst,
      path_eq_iff dst dst,
    )

there-rename :
    (src dst : FilePath) (files : List (FilePath × List ℕ))
    → is_file src files ≡ true
    → is_file dst (rename src dst files) ≡ true
there-rename src dst files s = ground (arith, is_file-rename dst src dst files, path_eq_iff dst dst)

-- A world in which the move of an intent was made.
pub record MoveMade (e : Entry) (fs fs' : Fs) : Type 0 where
  pub was_there : is_file e.src fs.files ≡ true
  pub was_free : is_file e.dst fs.files ≡ false
  pub is_renamed : fs'.files ≡ rename e.src e.dst fs.files

module _ {e : Entry} {fs fs' : Fs} (m : MoveMade e fs fs') where
  gone : is_file e.src fs'.files ≡ false
  gone = ap (is_file e.src) m.is_renamed ∙ gone-rename e.src e.dst fs.files m.was_there m.was_free

  there : is_file e.dst fs'.files ≡ true
  there = ap (is_file e.dst) m.is_renamed ∙ there-rename e.src e.dst fs.files m.was_there

  same_bytes : read_bytes e.dst fs'.files ≡ read_bytes e.src fs.files
  same_bytes =
      ap (read_bytes e.dst) m.is_renamed
      ∙ read_bytes-rename e.src e.dst fs.files m.was_free m.was_there

  already_applied-made :
      (hash : List ℕ → List ℕ)
      → is_dir e.src fs'.dirs ≡ false
      → has_hash hash (read_bytes e.src fs.files) e.sha256 ≡ true
      → already_applied hash e.src e.dst e.sha256 fs' ≡ true
  unfolding already_applied
  already_applied-made hash d h =
      let hashed : has_hash hash (read_bytes e.dst fs'.files) e.sha256 ≡ true =
        ap (λ o. has_hash hash o e.sha256) same_bytes ∙ h in
      ground (arith, gone, there, hashed, d)

if_false {ℓ} : {A : Type ℓ} (b : Bool) (x y : A) → b ≡ false → (if b then x else y) ≡ y
if_false true x y h = cc
if_false false x y h = refl

routed_row-crashed :
    (s : Setting) (records : List Entry) (row : Row) (seq : ℕ) (target : FilePath) (e : Entry)
    (w : World)
    → is_committed seq records ≡ false
    → find_intent seq (intents_by_seq records) ≡ some e
    → already_applied s.lib.hash e.src e.dst e.sha256 w.fs ≡ true
    → (routed_row s apply records row seq (some target) w).1 ≡ log (commit_of e) w
unfolding routed_row backfill_or applied_intent
routed_row-crashed s records row seq target e w c f a =
    let found : applied_intent s (find_intent seq (intents_by_seq records)) w.fs ≡ some e =
      ap (λ o. applied_intent s o w.fs) f ∙ ground (arith, a) in
    ap (λ r. r.1)
      (if_false (is_committed seq records) _
        (backfill_or s apply row seq target
          (applied_intent s (find_intent seq (intents_by_seq records)) w.fs) w)
        c)
    ∙ ap (λ o. (backfill_or s apply row seq target o w).1) found

-- A run that was stopped between a row's move and its commit: where the file that was moved has the
-- row's hash, and no directory stands at the path it left, the next run appends the commit, changes
-- no file, and does not move the row again.
pub run_row-crashed :
    (s : Setting) (records : List Entry) (row : Row) (seq : ℕ) (target : FilePath) (e : Entry)
    (fs : Fs) (w : World)
    → route_target s.lib row s.library_root s.operational ≡ some target
    → is_committed seq records ≡ false
    → find_intent seq (intents_by_seq records) ≡ some e
    → MoveMade e fs w.fs
    → is_dir e.src w.fs.dirs ≡ false
    → has_hash s.lib.hash (read_bytes e.src fs.files) e.sha256 ≡ true
    → (run_row s apply records row seq w).1 ≡ log (commit_of e) w
unfolding run_row
run_row-crashed s records row seq target e fs w t c f m d h =
    ap (λ o. (routed_row s apply records row seq o w).1) t
    ∙ routed_row-crashed s records row seq target e w c f (already_applied-made m s.lib.hash d h)

-- Where a move was made of a file whose hash is not the one of its row, undoing its record changes
-- no file: the file stays where the move put it. With a commit in the journal the record is
-- reported as not restored; without one, after a crash, it is reported as restored.
pub undo_record-stale :
    (os : Os) (hash : List ℕ → List ℕ) (records : List Entry) (e : Entry) (fs fs' : Fs)
    → MoveMade e fs fs'
    → is_empty e.sha256 ≡ false
    → has_hash hash (read_bytes e.src fs.files) e.sha256 ≡ false
    → undo_record os hash records e fs' ≡ (
        if is_committed e.seq records
        then (undone e false current_missing, fs')
        else (undone e true never_applied, fs'))
unfolding undo_record holds
undo_record-stale os hash records e fs fs' m given h =
    let hashed : has_hash hash (read_bytes e.dst fs'.files) e.sha256 ≡ false =
      ap (λ o. has_hash hash o e.sha256) (same_bytes m) ∙ h in
    ground (arith, gone m, there m, hashed, given)
