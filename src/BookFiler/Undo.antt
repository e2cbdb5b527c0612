-- ===== src/BookFiler/Undo.antt =====
-- tools/book_filer/actuate.py: the loop of `undo_apply`, which takes the moves back, the last first.
use ebook_automation.BookFiler.Path.{FilePath}
use ebook_automation.BookFiler.FileSystem.{Fs, is_file, read_bytes}
use ebook_automation.BookFiler.Move.{Os, Reason, MoveOutcome, plan_move, execute_move}
use ebook_automation.BookFiler.Journal.{Entry, intents_by_seq, is_committed, has_hash}
use ebook_automation.BookFiler.Gates.{is_empty}
use ebook_automation.Common.{
  ℕ, Bool, true, false, not, ◌&&◌, ◌||◌, List, [], ◌∷◌, leb, if◌then◌else◌,
}

pub data UndoReason : Type 0 where
  restored_now restored_mismatch already_restored current_missing never_applied : UndoReason
  not_moved : Reason → UndoReason

pub record UndoOutcome : Type 0 where
  pub seq : ℕ
  pub src : FilePath
  pub dst : FilePath
  pub restored : Bool
  pub reason : UndoReason

abbrev pub undone : Entry → Bool → UndoReason → UndoOutcome
undone e restored reason = record {
  seq = e.seq;
  src = e.src;
  dst = e.dst;
  restored = restored;
  reason = reason;
}

-- `p.is_file() and (not sha or sha256_file(p) == sha)`
unfoldable pub holds : (List ℕ → List ℕ) → FilePath → List ℕ → Fs → Bool
holds hash p sha fs =
    is_file p fs.files && (is_empty sha || has_hash hash (read_bytes p fs.files) sha)

-- what is made of the move back to the original path
unfoldable pub check_restored : (List ℕ → List ℕ) → Entry → MoveOutcome × Fs → UndoOutcome × Fs
check_restored hash e (o, fs) = (
  if not o.moved
      then undone e false (not_moved o.reason)
      else if not (is_empty e.sha256) && not (has_hash hash (read_bytes e.src fs.files) e.sha256)
      then undone e false restored_mismatch
      else undone e true restored_now,
  fs,
)

-- the body of the loop
unfoldable pub undo_record : Os → (List ℕ → List ℕ) → List Entry → Entry → Fs → UndoOutcome × Fs
undo_record os hash records e fs =
    if holds hash e.dst e.sha256 fs
    then check_restored hash e (execute_move os (plan_move os e.dst e.src false fs) fs)
    else if holds hash e.src e.sha256 fs
    then (undone e true already_restored, fs)
    else if is_committed e.seq records
    then (undone e false current_missing, fs)
    else (undone e true never_applied, fs)

unfoldable pub undo_records :
    Os → (List ℕ → List ℕ) → List Entry → List Entry → Fs → List UndoOutcome × Fs
undo_records os hash records [] fs = ([], fs)
undo_records os hash records (e ∷ es) fs =
    let (o, fs1) = undo_record os hash records e fs in
    let (os', fs2) = undo_records os hash records es fs1 in (o ∷ os', fs2)

unfoldable pub all_restored : List UndoOutcome → Bool
all_restored [] = true
all_restored (o ∷ os) = o.restored && all_restored os

unfoldable pub insert_desc : Entry → List Entry → List Entry
insert_desc e [] = e ∷ []
insert_desc e (x ∷ xs) =
    let rest = insert_desc e xs in if leb x.seq e.seq then e ∷ x ∷ xs else x ∷ rest

-- `sorted(intents, reverse=True)`
unfoldable pub sort_desc : List Entry → List Entry
unfolding insert_desc
sort_desc [] = []
sort_desc (e ∷ es) = insert_desc e (sort_desc es)

-- the loop, on the records of a journal
unfoldable pub undo_journal : Os → (List ℕ → List ℕ) → List Entry → Fs → List UndoOutcome × Fs
undo_journal os hash records fs =
    undo_records os hash records (sort_desc (intents_by_seq records)) fs
