-- ===== src/BookFiler/Move.antt =====
-- tools/book_filer/move.py, and `has_reparse_in_ancestry` of tools/book_filer/reparse.py.
use ebook_automation.Raises.{Result, returned, raised}
use ebook_automation.BookFiler.Path.{FilePath, parent, ancestry}
use ebook_automation.BookFiler.FileSystem.{Fs, is_file, exists, mkdir, replace}
use ebook_automation.BookFiler.Unique.{unique_path}
use ebook_automation.Common.{Bool, true, false, not, ◌||◌, List, [], ◌∷◌, if◌then◌else◌}

-- How `os.lstat` ends: `FileNotFoundError`, another `OSError`, a result without Windows
-- attributes, or one with them and their reparse bit.
pub data Stat : Type 0 where
  absent unreadable no_attributes : Stat
  attributes : Bool → Stat

-- The operating system beside the files: `lstat`, and the moves and directories that it refuses
-- with an `OSError` (a locked file, a full disk).
pub record Os : Type 0 where
  pub lstat : FilePath → Stat
  pub refuses_dir : FilePath → Bool
  pub refuses_move : FilePath → FilePath → Bool

-- `_is_reparse_point`
abbrev pub is_reparse_point : Stat → Bool
is_reparse_point absent = false
is_reparse_point unreadable = true
is_reparse_point no_attributes = false
is_reparse_point (attributes bit) = bit

unfoldable pub any_reparse : Os → List FilePath → Bool
any_reparse os [] = false
any_reparse os (p ∷ ps) = is_reparse_point (os.lstat p) || any_reparse os ps

unfoldable pub has_reparse_in_ancestry : Os → FilePath → Bool
has_reparse_in_ancestry os p = any_reparse os (ancestry p)

pub data Reason : Type 0 where
  reparse_in_source reparse_in_destination source_missing destination_exists : Reason
  routed clean_move refused_reparse refused_missing refused_overwrite move_failed : Reason

pub record MoveDecision : Type 0 where
  pub is_move : Bool
  pub src : FilePath
  pub dst : FilePath
  pub reason : Reason

pub record MoveOutcome : Type 0 where
  pub moved : Bool
  pub src : FilePath
  pub dst : FilePath
  pub reason : Reason

abbrev pub decide : Bool → FilePath → FilePath → Reason → MoveDecision
decide is_move src dst reason = record { is_move = is_move; src = src; dst = dst; reason = reason }

unfoldable pub plan_move : Os → FilePath → FilePath → Bool → Fs → MoveDecision
plan_move os src dst allow_unique fs =
    if has_reparse_in_ancestry os src
    then decide false src dst reparse_in_source
    else if has_reparse_in_ancestry os dst
    then decide false src dst reparse_in_destination
    else if not (is_file src fs.files)
    then decide false src dst source_missing
    else if not (exists dst fs)
    then decide true src dst clean_move
    else if not allow_unique
    then decide false src dst destination_exists
    else decide true src (unique_path dst fs) routed

abbrev pub outcome : Bool → MoveDecision → Reason → MoveOutcome
outcome moved d reason = record { moved = moved; src = d.src; dst = d.dst; reason = reason }

-- the `try`: the directories, and the rename
unfoldable pub attempt_move : Os → MoveDecision → Result (Unit {0}) × Fs → MoveOutcome × Fs
attempt_move os d (raised e, fs) = (outcome false d move_failed, fs)
attempt_move os d (returned _, fs) =
    if os.refuses_move d.src d.dst
    then (outcome false d move_failed, fs)
    else (outcome true d d.reason, record fs { files = replace d.src d.dst fs.files })

unfoldable pub execute_move : Os → MoveDecision → Fs → MoveOutcome × Fs
execute_move os d fs =
    if not d.is_move
    then (outcome false d d.reason, fs)
    else if has_reparse_in_ancestry os d.src || has_reparse_in_ancestry os d.dst
    then (outcome false d refused_reparse, fs)
    else if not (is_file d.src fs.files)
    then (outcome false d refused_missing, fs)
    else if exists d.dst fs
    then (outcome false d refused_overwrite, fs)
    else if os.refuses_dir (parent d.dst)
    then (outcome false d move_failed, fs)
    else attempt_move os d (mkdir (parent d.dst) fs)
