-- ===== src/BookFiler/FileSystem.antt =====
-- A file system: the files with their bytes, and the directories. Nothing else is on it; a path
-- is a file, a directory or free.
use ebook_automation.Raises.{Result, returned, raised, other_error}
use ebook_automation.BookFiler.Path.{FilePath, path_eq, path_eq_iff, ancestry}
use ebook_automation.Common.{
  true, ℕ, ◌≡◌, refl, Bool, false, not, ◌&&◌, ◌||◌, Option, none, some, List, [], ◌∷◌, arith,
  if◌then◌else◌,
}

pub record Fs : Type 0 where
  pub files : List (FilePath × List ℕ)
  pub dirs : List FilePath

abbrev pub at_path : FilePath → FilePath × List ℕ → Bool
at_path p (q, _) = path_eq q p

unfoldable pub is_file : FilePath → List (FilePath × List ℕ) → Bool
is_file p [] = false
is_file p ((q, _) ∷ fs) = path_eq q p || is_file p fs

unfoldable pub is_dir : FilePath → List FilePath → Bool
is_dir p [] = false
is_dir p (d ∷ ds) = path_eq d p || is_dir p ds

-- `path.exists()`
abbrev pub exists : FilePath → Fs → Bool
exists p fs = is_file p fs.files || is_dir p fs.dirs

-- the bytes of a file
unfoldable pub read_bytes : FilePath → List (FilePath × List ℕ) → Option (List ℕ)
read_bytes p [] = none
read_bytes p ((q, c) ∷ fs) = let rest = read_bytes p fs in if path_eq q p then some c else rest

-- whether one of the paths is a file
unfoldable pub any_file : List FilePath → List (FilePath × List ℕ) → Bool
any_file [] files = false
any_file (p ∷ ps) files = is_file p files || any_file ps files

unfoldable pub add_dirs : List FilePath → List FilePath → List FilePath
add_dirs [] dirs = dirs
add_dirs (p ∷ ps) dirs = add_dirs ps (if is_dir p dirs then dirs else p ∷ dirs)

-- `path.mkdir(parents=True, exist_ok=True)`: an `OSError` where a file is in the way
unfoldable pub mkdir : FilePath → Fs → Result (Unit {0}) × Fs
mkdir p fs =
    if any_file (ancestry p) fs.files
    then (raised other_error, fs)
    else (returned tt, record fs { dirs = add_dirs (ancestry p) fs.dirs })

unfoldable pub remove_file : FilePath → List (FilePath × List ℕ) → List (FilePath × List ℕ)
remove_file p [] = []
remove_file p ((q, c) ∷ fs) =
    let rest = remove_file p fs in if path_eq q p then rest else (q, c) ∷ rest

unfoldable pub rename : FilePath → FilePath → List (FilePath × List ℕ) → List (FilePath × List ℕ)
rename src dst [] = []
rename src dst ((q, c) ∷ fs) = (if path_eq q src then dst else q, c) ∷ rename src dst fs

-- `os.replace(src, dst)`: a file at the destination is overwritten
unfoldable pub replace : FilePath → FilePath → List (FilePath × List ℕ) → List (FilePath × List ℕ)
unfolding remove_file rename
replace src dst files = rename src dst (remove_file dst files)

pub remove_file-of_free :
    (p : FilePath) (files : List (FilePath × List ℕ))
    → is_file p files ≡ false
    → remove_file p files ≡ files
unfolding remove_file is_file
remove_file-of_free p [] h = refl
remove_file-of_free p ((q, c) ∷ fs) h = ground (arith, remove_file-of_free p fs)

pub rename-rename :
    (src dst : FilePath) (files : List (FilePath × List ℕ))
    → is_file dst files ≡ false
    → rename dst src (rename src dst files) ≡ files
unfolding rename is_file
rename-rename src dst [] h = refl
rename-rename src dst ((q, c) ∷ fs) h =
    ground
      (arith, rename-rename src dst fs, path_eq_iff q src, path_eq_iff q dst, path_eq_iff dst dst)

pub is_file-rename :
    (p src dst : FilePath) (files : List (FilePath × List ℕ))
    → is_file p (rename src dst files)
      ≡ ((path_eq dst p && is_file src files) || (not (path_eq src p) && is_file p files))
unfolding rename is_file
is_file-rename p src dst [] = ground arith
is_file-rename p src dst ((q, c) ∷ fs) = ground (
  arith,
  is_file-rename p src dst fs,
  path_eq_iff q src,
  path_eq_iff q p,
  path_eq_iff src p,
  path_eq_iff dst p,
)

-- a file that was renamed to a free path has left its own
pub gone-rename :
    (src dst : FilePath) (files : List (FilePath × List ℕ))
    → is_file src files ≡ true
    → is_file dst files ≡ false
    → is_file src (rename src dst files) ≡ false
gone-rename src dst files s d =
    ground (arith, is_file-rename src src dst files, path_eq_iff src src, path_eq_iff dst src)
