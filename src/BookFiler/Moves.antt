-- ===== src/BookFiler/Moves.antt =====
-- What one move may do to the files.
use ebook_automation.Raises.{Result, returned, raised}
use ebook_automation.BookFiler.Path.{FilePath, parent}
use ebook_automation.BookFiler.FileSystem.{
  Fs, is_file, exists, mkdir, replace, rename, remove_file-of_free,
}
use ebook_automation.BookFiler.Move.{
  refused_overwrite, refused_missing, refused_reparse, has_reparse_in_ancestry, Reason, move_failed,
  Os, MoveDecision, MoveOutcome, attempt_move, execute_move, outcome,
}
use ebook_automation.Common.{◌≡◌, refl, ap, ◌∙◌, Bool, true, false, not, ◌||◌, arith, if◌then◌else◌}

-- What an execution leaves: the files with the one renamed whose path was free and whose source
-- was there, or the files as they were.
pub data Moved (d : MoveDecision) (fs : Fs) : MoveOutcome × Fs → Type 0 where
  did :
      {r : MoveOutcome × Fs}
      → r.0.moved ≡ true
      → is_file d.src fs.files ≡ true
      → exists d.dst fs ≡ false
      → r.1.files ≡ rename d.src d.dst fs.files
      → Moved d fs r
  not_done : {r : MoveOutcome × Fs} → r.0.moved ≡ false → r.1.files ≡ fs.files → Moved d fs r

replace-of_free :
    (src dst : FilePath) (fs : Fs)
    → exists dst fs ≡ false
    → replace src dst fs.files ≡ rename src dst fs.files
unfolding replace
replace-of_free src dst fs h =
    ap (rename src dst) (remove_file-of_free dst fs.files (ground (arith, h)))

locked-Moved :
    (b : Bool) (d : MoveDecision) (fs fs' : Fs)
    → is_file d.src fs.files ≡ true
    → exists d.dst fs ≡ false
    → fs'.files ≡ fs.files
    → Moved d fs (
        if b
        then (outcome false d move_failed, fs')
        else (outcome true d d.reason, record fs' { files = replace d.src d.dst fs'.files }))
locked-Moved true d fs fs' there free same = not_done refl same
locked-Moved false d fs fs' there free same =
    did refl there free (ap (replace d.src d.dst) same ∙ replace-of_free d.src d.dst fs free)

attempt-Moved :
    (os : Os) (d : MoveDecision) (fs : Fs) (r : Result (Unit {0}) × Fs)
    → is_file d.src fs.files ≡ true
    → exists d.dst fs ≡ false
    → r.1.files ≡ fs.files
    → Moved d fs (attempt_move os d r)
unfolding attempt_move
attempt-Moved os d fs (raised e, fs') there free same = not_done refl same
attempt-Moved os d fs (returned _, fs') there free same =
    locked-Moved (os.refuses_move d.src d.dst) d fs fs' there free same

files-mkdir : (p : FilePath) (fs : Fs) → (mkdir p fs).1.files ≡ fs.files
unfolding mkdir
files-mkdir p fs = ground arith

still-Moved : (d : MoveDecision) (fs : Fs) (r : Reason) → Moved d fs (outcome false d r, fs)
still-Moved d fs r = not_done refl refl

if-Moved :
    (b : Bool) (d : MoveDecision) (fs : Fs) (x y : MoveOutcome × Fs)
    → (b ≡ true → Moved d fs x)
    → (b ≡ false → Moved d fs y)
    → Moved d fs (if b then x else y)
if-Moved true d fs x y l r = l refl
if-Moved false d fs x y l r = r refl

-- Whatever the decision, executing it either renames one file from a path where it is to a path
-- where nothing is, reports the move, and changes no other file; or reports no move and changes no
-- file. No file is overwritten or removed.
pub execute_move-Moved : (os : Os) (d : MoveDecision) (fs : Fs) → Moved d fs (execute_move os d fs)
unfolding execute_move
execute_move-Moved os d fs =
    if-Moved (not d.is_move) d fs _ _ (λ _. still-Moved d fs d.reason)
      (λ _.
        if-Moved (has_reparse_in_ancestry os d.src || has_reparse_in_ancestry os d.dst) d fs _ _
          (λ _. still-Moved d fs refused_reparse)
          (λ _.
            if-Moved (not (is_file d.src fs.files)) d fs _ _ (λ _. still-Moved d fs refused_missing)
              (λ h.
                if-Moved (exists d.dst fs) d fs _ _ (λ _. still-Moved d fs refused_overwrite)
                  (λ free.
                    if-Moved (os.refuses_dir (parent d.dst)) d fs _ _
                      (λ _. still-Moved d fs move_failed)
                      (λ _.
                        attempt-Moved os d fs (mkdir (parent d.dst) fs) (ground arith) free
                          (files-mkdir (parent d.dst) fs))))))
