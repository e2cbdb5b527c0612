-- ===== src/BookFiler/RoundTrip.antt =====
-- `apply_manifest` on an empty journal, and `undo_apply` after it.
use ebook_automation.BookFiler.Path.{FilePath}
use ebook_automation.BookFiler.Journal.{Entry}
use ebook_automation.BookFiler.Manifest.{Row}
use ebook_automation.BookFiler.Routing.{route_target}
use ebook_automation.BookFiler.Apply.{
  World, Setting, dry_run, run_rows, act, fresh_row, routed_row, run_row,
}
use ebook_automation.BookFiler.Actuate.{UndoResult}
use ebook_automation.BookFiler.Steps.{Ran}
use ebook_automation.Common.{
  ℕ, suc, ◌≡◌, refl, ◌∙◌, Bool, true, false, Option, none, some, List, [], ◌∷◌,
}

-- What a run leaves is what the steps of a fresh run leave, up to the lock.
pub data Fresh {ℓ} {A : Type ℓ} (w : World) : A × World → Type ℓ where
  fresh :
      {r : A × World} {w0 w1 : World} {es : List Entry}
      → Ran 0 w0 es w1
      → w0.journal ≡ none
      → w0.fs ≡ w.fs
      → r.1.fs ≡ w1.fs
      → r.1.journal ≡ w1.journal
      → Fresh w r

routed_row-dry_run :
    (s : Setting) (row : Row) (seq : ℕ) (t : Option FilePath) (records : List Entry) (w : World)
    → (routed_row s dry_run records row seq t w).1 ≡ w
unfolding routed_row fresh_row act
routed_row-dry_run s row seq none records w = refl
routed_row-dry_run s row seq (some target) records w = refl

-- planning changes nothing
pub run_rows-dry_run :
    (s : Setting) (records : List Entry) (rows : List Row) (seq : ℕ) (w : World)
    → (run_rows s dry_run records rows seq w).1 ≡ w
unfolding run_rows run_row
run_rows-dry_run s records [] seq w = refl
run_rows-dry_run s records (row ∷ rows) seq w =
    run_rows-dry_run s records rows (suc seq) (run_row s dry_run records row seq w).1
    ∙ routed_row-dry_run s row seq (route_target s.lib row s.library_root s.operational) records w

-- whether an undo is reported as complete
abbrev pub is_complete : Option UndoResult → Bool
is_complete none = false
is_complete (some u) = u.ok

-- an undo that is reported as complete leaves these files
abbrev Undone : List (FilePath × List ℕ) → Option UndoResult × World → Type 0
Undone files r = is_complete r.0 ≡ true → r.1.fs.files ≡ files
