-- ===== src/BookFiler/Unique.antt =====
-- `unique_path` of tools/book_filer/pathsafe.py. Its loop ends at a free name; the fuel is one more
-- than the number of paths on the file system.
use ebook_automation.Text.{rpartition, str_of}
use ebook_automation.BookFiler.Path.{FilePath, parent, name}
use ebook_automation.BookFiler.FileSystem.{Fs, exists}
use ebook_automation.Common.{
  ℕ, zero, suc, ◌+◌, Bool, true, false, ◌||◌, Option, none, some, List, [], ◌∷◌, ◌++◌,
  if◌then◌else◌, length,
}

abbrev pub is_nil : List ℕ → Bool
is_nil [] = true
is_nil (_ ∷ _) = false

-- `path.stem` and `path.suffix`, by the name's parts around its last dot
abbrev pub split_name : List ℕ → Option (List ℕ × List ℕ) → List ℕ × List ℕ
split_name n none = (n, [])
split_name n (some (l, d)) = if is_nil l || is_nil d then (n, []) else (l, b'.' ∷ d)

unfoldable pub stem_suffix : List ℕ → List ℕ × List ℕ
stem_suffix n = split_name n (rpartition b'.' n)

-- `parent / f"{stem} ({i}){suffix}"`
unfoldable pub candidate : FilePath → ℕ → FilePath
candidate dest i =
    let (stem, suffix) = stem_suffix (name dest) in
    parent dest ++ (stem ++ (b' ' ∷ b'(' ∷ (str_of i ++ (b')' ∷ suffix)))) ∷ []

-- the loop from `i` on
unfoldable pub search : ℕ → ℕ → FilePath → Fs → FilePath
search zero i dest fs = candidate dest i
search (suc fuel) i dest fs =
    let rest = search fuel (suc i) dest fs in
    if exists (candidate dest i) fs then rest else candidate dest i

unfoldable pub unique_path : FilePath → Fs → FilePath
unique_path dest fs =
    if exists dest fs then search (length fs.files + length fs.dirs + 1) 2 dest fs else dest
