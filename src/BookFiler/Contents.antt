-- ===== src/BookFiler/Contents.antt =====
-- What the rows of a run do to the contents of the library's files.

use ebook_automation.BookFiler.Path.{FilePath}
use ebook_automation.BookFiler.FileSystem.{Fs, rename}
use ebook_automation.BookFiler.Move.{Os, MoveDecision, MoveOutcome, plan_move, execute_move}
use ebook_automation.BookFiler.Moves.{Moved, did, not_done, execute_move-Moved}
use ebook_automation.BookFiler.Journal.{Entry, find_intent, intents_by_seq, is_committed}
use ebook_automation.BookFiler.Manifest.{Row}
use ebook_automation.BookFiler.Routing.{route_target}
use ebook_automation.BookFiler.Apply.{
  World, Setting, Mode, dry_run, apply, log, finish_move, carry_out, act, fresh_row, backfill_or,
  routed_row, run_row, run_rows, applied_intent, intent_of,
}
use ebook_automation.Common.{
  ℕ, suc, ◌≡◌, refl, ap, ◌∙◌, Bool, true, false, not, Option, none, some, List, [], ◌∷◌, arith,
  if◌then◌else◌,
}

-- the bytes of the files, in the order of the file system's entries
unfoldable pub contents : List (FilePath × List ℕ) → List (List ℕ)
contents [] = []
contents ((_, c) ∷ fs) = c ∷ contents fs

contents-rename :
    (src dst : FilePath) (files : List (FilePath × List ℕ))
    → contents (rename src dst files) ≡ contents files
unfolding contents rename
contents-rename src dst [] = refl
contents-rename src dst ((q, c) ∷ fs) = ap (λ t. c ∷ t) (contents-rename src dst fs)

contents-Moved :
    (d : MoveDecision) (fs : Fs) (r : MoveOutcome × Fs)
    → Moved d fs r
    → contents r.1.files ≡ contents fs.files
contents-Moved d fs r (did m t f e) = ap contents e ∙ contents-rename d.src d.dst fs.files
contents-Moved d fs r (not_done m e) = ap contents e

pub contents-execute_move :
    (os : Os) (d : MoveDecision) (fs : Fs)
    → contents (execute_move os d fs).1.files ≡ contents fs.files
contents-execute_move os d fs =
    contents-Moved d fs (execute_move os d fs) (execute_move-Moved os d fs)

abbrev pub Keeps {ℓ} : {A : Type ℓ} → World → A × World → Type 0
Keeps w r = contents r.1.fs.files ≡ contents w.fs.files

pub if-Keeps {ℓ} :
    {A : Type ℓ} (b : Bool) (w : World) (x y : A × World)
    → Keeps w x
    → Keeps w y
    → Keeps w (if b then x else y)
if-Keeps true w x y l r = l
if-Keeps false w x y l r = r

finish_move-Keeps :
    (e : Entry) (row : Row) (r : MoveOutcome × Fs) (w : World)
    → contents r.1.files ≡ contents w.fs.files
    → Keeps w (finish_move e row r w)
unfolding finish_move log
finish_move-Keeps e row (o, fs') w h = ground (arith, h)

act-Keeps :
    (s : Setting) (mode : Mode) (row : Row) (seq : ℕ) (d : MoveDecision) (w : World)
    → Keeps w (act s mode row seq d w)
unfolding act carry_out log
act-Keeps s dry_run row seq d w = refl
act-Keeps s apply row seq d w = if-Keeps (not d.is_move) w _ _ refl (
    finish_move-Keeps (intent_of s row seq d) row (execute_move s.os d w.fs)
      (log (intent_of s row seq d) w) (contents-execute_move s.os d w.fs))

backfill_or-Keeps :
    (s : Setting) (row : Row) (seq : ℕ) (target : FilePath) (o : Option Entry) (w : World)
    → Keeps w (backfill_or s apply row seq target o w)
unfolding backfill_or fresh_row log
backfill_or-Keeps s row seq target none w =
    act-Keeps s apply row seq (plan_move s.os (s.lib.path_of row.original_path) target true w.fs) w
backfill_or-Keeps s row seq target (some e) w = refl

routed_row-Keeps :
    (s : Setting) (mode : Mode) (records : List Entry) (row : Row) (seq : ℕ) (t : Option FilePath)
    (w : World)
    → Keeps w (routed_row s mode records row seq t w)
unfolding routed_row fresh_row
routed_row-Keeps s mode records row seq none w = refl
routed_row-Keeps s dry_run records row seq (some target) w =
    act-Keeps s dry_run row seq (plan_move s.os (s.lib.path_of row.original_path) target true w.fs)
      w
routed_row-Keeps s apply records row seq (some target) w =
    if-Keeps (is_committed seq records) w _ _ refl (
      backfill_or-Keeps s row seq target
        (applied_intent s (find_intent seq (intents_by_seq records)) w.fs) w)

pub run_rows-Keeps :
    (s : Setting) (mode : Mode) (records : List Entry) (rows : List Row) (seq : ℕ) (w : World)
    → Keeps w (run_rows s mode records rows seq w)
unfolding run_rows run_row
run_rows-Keeps s mode records [] seq w = refl
run_rows-Keeps s mode records (row ∷ rows) seq w =
    run_rows-Keeps s mode records rows (suc seq) (run_row s mode records row seq w).1
    ∙ routed_row-Keeps s mode records row seq (route_target s.lib row s.library_root s.operational)
        w
