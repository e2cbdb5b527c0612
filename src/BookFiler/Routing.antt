-- ===== src/BookFiler/Routing.antt =====
-- tools/book_filer/actuate.py: the target of a row, and what keeps the moves inside the library.
use ebook_automation.Text.{text_eq}
use ebook_automation.BookFiler.Path.{FilePath, is_prefix, name}
use ebook_automation.BookFiler.Manifest.{Row}
use ebook_automation.BookFiler.Gates.{is_empty}
use ebook_automation.BookFiler.Backup.{Library, lower_parts}
use ebook_automation.Common.{
  ℕ, suc, Bool, true, false, not, ◌||◌, Option, none, some, List, [], ◌∷◌, ◌++◌, if◌then◌else◌,
  codes,
}

-- an operational dict: a folder for each action
abbrev pub Folders : Type 0
Folders = List (List ℕ × List ℕ)

-- `DEFAULT_OPERATIONAL`
abbrev pub default_operational : Folders
default_operational =
    ((codes "review"), (codes "_Needs_Review"))
    ∷ ((codes "trash"), (codes "_Trash_Pending"))
    ∷ ((codes "quarantine"), (codes "_Quarantine"))
    ∷ []

-- `operational or DEFAULT_OPERATIONAL`
abbrev pub or_default : Folders → Folders
or_default [] = default_operational
or_default (f ∷ fs) = f ∷ fs

-- `operational.get(action)`
unfoldable pub find_folder : List ℕ → Folders → Option (List ℕ)
find_folder action [] = none
find_folder action ((a, f) ∷ fs) =
    let rest = find_folder action fs in if text_eq a action then some f else rest

-- `path.relative_to(root)`, where the root's parts are the first of the path's
unfoldable pub relative_to : FilePath → FilePath → Option FilePath
relative_to p [] = some p
relative_to [] (r ∷ rs) = none
relative_to (x ∷ xs) (r ∷ rs) = let rest = relative_to xs rs in if text_eq x r then rest else none

abbrev pub or_name : FilePath → Option FilePath → FilePath
or_name p none = name p ∷ []
or_name p (some q) = q

-- `_original_relpath`
unfoldable pub original_relpath : FilePath → FilePath → FilePath
original_relpath p library_root = or_name p (relative_to p library_root)

abbrev pub is_shelve_action : List ℕ → Bool
is_shelve_action action = text_eq action (codes "copy") || text_eq action (codes "hardlink")

abbrev pub under_folder : Library → Row → FilePath → Option (List ℕ) → Option FilePath
under_folder lib row library_root none = none
under_folder lib row library_root (some folder) =
    some (library_root ++ folder ∷ original_relpath (lib.path_of row.original_path) library_root)

unfoldable pub route_target : Library → Row → FilePath → Folders → Option FilePath
route_target lib row library_root operational =
    if is_shelve_action row.action
    then (if is_empty row.destination_path then none else some (lib.path_of row.destination_path))
    else under_folder lib row library_root (find_folder row.action operational)

pub data DirConflict : Type 0 where
  no_conflict unresolved run_dir_inside library_inside : DirConflict

abbrev pub compare_dirs : Option FilePath → Option FilePath → DirConflict
compare_dirs none _ = unresolved
compare_dirs (some rd) none = unresolved
compare_dirs (some rd) (some lib) =
    if is_prefix lib rd
    then run_dir_inside
    else if is_prefix rd lib
    then library_inside
    else no_conflict

-- `_run_dir_conflict`
unfoldable pub run_dir_conflict : Library → FilePath → FilePath → DirConflict
run_dir_conflict lib run_dir library_root =
    compare_dirs (lower_parts (lib.resolve run_dir)) (lower_parts (lib.resolve library_root))

abbrev pub starts_with : FilePath → Option FilePath → Bool
starts_with root_parts none = false
starts_with root_parts (some pp) = is_prefix root_parts pp

-- `_path_inside`
unfoldable pub path_inside : Library → FilePath → FilePath → Bool
path_inside lib p root_parts = starts_with root_parts (lower_parts (lib.resolve p))

abbrev pub target_inside : Library → FilePath → Option FilePath → Bool
target_inside lib root_parts none = true
target_inside lib root_parts (some target) = path_inside lib target root_parts

pub data Escape : Type 0 where
  contained root_unresolved : Escape
  source_escapes target_escapes : ℕ → Escape

-- the loop of `_containment_violation`, from the row `seq` on
unfoldable pub rows_violation : Library → List Row → ℕ → FilePath → FilePath → Folders → Escape
rows_violation lib [] seq root_parts library_root operational = contained
rows_violation lib (row ∷ rows) seq root_parts library_root operational =
    let rest = rows_violation lib rows (suc seq) root_parts library_root operational in
    if not (path_inside lib (lib.path_of row.original_path) root_parts)
    then source_escapes seq
    else if not (target_inside lib root_parts (route_target lib row library_root operational))
    then target_escapes seq
    else rest

abbrev pub from_root : Library → List Row → FilePath → Folders → Option FilePath → Escape
from_root lib rows library_root operational none = root_unresolved
from_root lib rows library_root operational (some root_parts) =
    rows_violation lib rows 0 root_parts library_root operational

-- `_containment_violation`
unfoldable pub containment_violation : Library → List Row → FilePath → Folders → Escape
containment_violation lib rows library_root operational =
    from_root lib rows library_root operational (lower_parts (lib.resolve library_root))
