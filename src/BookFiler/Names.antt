-- ===== src/BookFiler/Names.antt =====
-- tools/book_filer/pathsafe.py: the names of folders and files. A text is its code points; `lower`
-- and `upper` are Python's on ASCII text, which is enough for the reserved names.
use ebook_automation.Text.{take, str_of, text_eq, is_space, strip, strip_right}
use ebook_automation.BookFiler.Path.{FilePath}
use ebook_automation.BookFiler.Gates.{is_empty}
use ebook_automation.Common.{
  max, ℕ, suc, ◌-◌, Bool, true, false, not, ◌&&◌, ◌||◌, Option, none, some, List, [], ◌∷◌, ◌++◌,
  map, leb, ◌==◌, if◌then◌else◌, codes, length,
}

-- `name.replace("·", " ")`
abbrev pub middot_to_space : ℕ → ℕ
middot_to_space c = if c == 183 then 32 else c

abbrev pub is_separator : ℕ → Bool
is_separator c = c == b'/' || (c == b'\\' || c == b':')

-- `_TO_DASH_RE.sub(" - ", name)`
unfoldable pub to_dash : List ℕ → List ℕ
to_dash [] = []
to_dash (c ∷ cs) = let rest = to_dash cs in if is_separator c then 32 ∷ 45 ∷ 32 ∷ rest else c ∷ rest

-- the characters of `_STRIP_RE`
abbrev pub is_stripped : ℕ → Bool
is_stripped c =
    c == b'<' || (c == b'>' || (c == b'"' || (c == b'|' || (c == b'?' || (c == b'*' || leb c 31)))))

unfoldable pub strip_illegal : List ℕ → List ℕ
strip_illegal [] = []
strip_illegal (c ∷ cs) = let rest = strip_illegal cs in if is_stripped c then rest else c ∷ rest

-- `_WS_RE.sub(" ", name)`; the flag says whether a space stands before
unfoldable pub collapse_spaces : Bool → List ℕ → List ℕ
collapse_spaces before [] = []
collapse_spaces before (c ∷ cs) =
    let again = collapse_spaces true cs in
    let other = collapse_spaces false cs in
    if is_space c then (if before then again else 32 ∷ again) else c ∷ other

-- a run of spaces and dashes that has ended: two dashes or more are one separator
abbrev pub end_run : List ℕ → ℕ → List ℕ → List ℕ
end_run run dashes rest = if leb 2 dashes then 32 ∷ 45 ∷ 32 ∷ rest else run ++ rest

-- `_MULTI_DASH_RE.sub(" - ", name)`, with the run of spaces and dashes that was read and its
-- number of dashes
unfoldable pub collapse_dashes : List ℕ → ℕ → List ℕ → List ℕ
collapse_dashes run dashes [] = end_run run dashes []
collapse_dashes run dashes (c ∷ cs) =
    let space = collapse_dashes (run ++ c ∷ []) dashes cs in
    let dash = collapse_dashes (run ++ c ∷ []) (suc dashes) cs in
    let other = collapse_dashes [] 0 cs in
    if is_space c then space else if c == 45 then dash else end_run run dashes (c ∷ other)

abbrev pub is_dot_or_space : ℕ → Bool
is_dot_or_space c = c == b'.' || c == 32

-- `name.rstrip(". ")`
unfoldable pub rstrip_dots : List ℕ → List ℕ
rstrip_dots [] = []
rstrip_dots (c ∷ cs) =
    let rest = rstrip_dots cs in if is_empty rest && is_dot_or_space c then [] else c ∷ rest

-- `name.split(".")[0]`
unfoldable pub before_dot : List ℕ → List ℕ
before_dot [] = []
before_dot (c ∷ cs) = let rest = before_dot cs in if c == b'.' then [] else c ∷ rest

abbrev pub upper_char : ℕ → ℕ
upper_char c = if leb b'a' c && leb c b'z' then c - 32 else c

-- `COM1` to `COM9` and `LPT1` to `LPT9`
abbrev pub is_port : List ℕ → Bool
is_port (a ∷ b ∷ d ∷ n ∷ []) =
    (text_eq (a ∷ b ∷ d ∷ []) (codes "COM") || text_eq (a ∷ b ∷ d ∷ []) (codes "LPT"))
    && (leb b'1' n && leb n b'9')
is_port _ = false

-- `name in _RESERVED`
unfoldable pub is_reserved : List ℕ → Bool
is_reserved t =
    text_eq t (codes "CON")
    || (text_eq t (codes "PRN")
        || (text_eq t (codes "AUX") || (text_eq t (codes "NUL") || is_port t)))

-- the end of `sanitize_component`
unfoldable pub finish_name : List ℕ → List ℕ
finish_name [] = b'_' ∷ []
finish_name (c ∷ cs) =
    if is_reserved (map upper_char (before_dot (c ∷ cs))) then b'_' ∷ c ∷ cs else c ∷ cs

unfoldable pub sanitize_component : List ℕ → List ℕ
sanitize_component name = finish_name (
    rstrip_dots (
      strip (
        collapse_dashes [] 0
          (strip (collapse_spaces false (strip_illegal (to_dash (map middot_to_space name))))))))

abbrev pub is_given_text : Option (List ℕ) → Bool
is_given_text none = false
is_given_text (some t) = not (is_empty t)

abbrev pub text_or_empty : Option (List ℕ) → List ℕ
text_or_empty none = []
text_or_empty (some t) = t

abbrev pub year_part : Option ℕ → List ℕ
year_part none = []
year_part (some y) = if y == 0 then [] else codes " (" ++ str_of y ++ codes ")"

abbrev pub series_part : Option (List ℕ) → Option (List ℕ) → List ℕ
series_part series index =
    if is_given_text series && is_given_text index
    then codes "["
      ++ sanitize_component (text_or_empty series)
      ++ codes " "
      ++ sanitize_component (text_or_empty index)
      ++ codes "] "
    else []

abbrev pub disambiguator_part : Option (List ℕ) → List ℕ
disambiguator_part d =
    if is_given_text d then codes " [" ++ sanitize_component (text_or_empty d) ++ codes "]" else []

-- What `build_base_name` is given beside the title.
pub record Naming : Type 0 where
  pub author_sort : List ℕ
  pub year : Option ℕ
  pub series : Option (List ℕ)
  pub series_index : Option (List ℕ)
  pub disambiguator : Option (List ℕ)

unfoldable pub build_base_name : Naming → List ℕ → List ℕ
build_base_name n title =
    sanitize_component n.author_sort
    ++ codes " - "
    ++ series_part n.series n.series_index
    ++ sanitize_component title
    ++ year_part n.year
    ++ disambiguator_part n.disambiguator

-- What `compute_shelf_path` is given beside them; `path_length` is the length of `str(path)`.
pub record Shelf : Type 0 where
  pub library_root : FilePath
  pub section : List ℕ
  pub subcategory : List ℕ
  pub ext : List ℕ
  pub max_path_length : ℕ
  pub path_length : FilePath → ℕ

-- `assemble`
unfoldable pub assemble : Shelf → Naming → List ℕ → FilePath
assemble s n title =
    s.library_root
    ++ sanitize_component s.section
      ∷ sanitize_component s.subcategory
      ∷ sanitize_component n.author_sort
      ∷ (build_base_name n title ++ s.ext)
      ∷ []

-- the title, cut by the overflow and one more, to 8 characters at least, with an ellipsis
unfoldable pub truncate_title : ℕ → List ℕ → List ℕ
truncate_title overflow san_title =
    strip_right (take (max 8 (length san_title - overflow - 1)) san_title) ++ 8230 ∷ []

unfoldable pub compute_shelf_path : Shelf → Naming → List ℕ → FilePath
compute_shelf_path s n title =
    let full = assemble s n title in
    if leb (s.path_length full) s.max_path_length
    then full
    else assemble s n
        (truncate_title (s.path_length full - s.max_path_length) (sanitize_component title))
