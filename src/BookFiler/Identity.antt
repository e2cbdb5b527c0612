-- ===== src/BookFiler/Identity.antt =====
-- tools/book_filer/identity.py: the key that names a planned book. A key is first the evidence that
-- it stands on, then its text.
use ebook_automation.Text.{take, lower, str_of}
use ebook_automation.BookFiler.Classify.{Words, normalize}
use ebook_automation.Common.{
  ℕ, zero, suc, Bool, true, false, ◌&&◌, ◌||◌, Option, none, some, List, [], ◌∷◌, ◌++◌, leb, ◌==◌,
  if◌then◌else◌, codes, length,
}

-- what `planned_calibre_key` reads of `BookMetadata`; an empty text stands for none
pub record BookMetadata : Type 0 where
  pub title : List ℕ
  pub author : List ℕ
  pub isbn : List ℕ
  pub year : Option ℕ

-- what a key stands on: the digits of an ISBN, the author and title with the year's text, or the
-- beginning of a hash
pub data Evidence : Type 0 where
  by_isbn : List ℕ → Evidence
  by_meta : List ℕ → List ℕ → List ℕ → Evidence
  by_hash : List ℕ → Evidence

abbrev pub dashed : List ℕ → List ℕ
dashed [] = []
dashed (c ∷ cs) = b'-' ∷ c ∷ cs

unfoldable pub join : Words → List ℕ
join [] = []
join (w ∷ ws) = w ++ dashed (join ws)

-- `_normalize`: runs of other characters become a dash, but for those at the ends
abbrev pub dash_words : List ℕ → List ℕ
dash_words text = join (normalize text)

abbrev pub is_decimal_digit : ℕ → Bool
is_decimal_digit c = leb b'0' c && leb c b'9'

-- the digits and check characters of a text, in upper case
unfoldable pub isbn_digits : List ℕ → List ℕ
isbn_digits [] = []
isbn_digits (c ∷ cs) =
    let rest = isbn_digits cs in
    if is_decimal_digit c || c == b'X' then c ∷ rest else if c == b'x' then b'X' ∷ rest else rest

unfoldable pub all_digits : List ℕ → Bool
all_digits [] = true
all_digits (c ∷ cs) = is_decimal_digit c && all_digits cs

-- `_ISBN_SHAPE`, of a text of digits and `X`
unfoldable pub has_isbn_shape : List ℕ → Bool
has_isbn_shape t = (length t == 13 && all_digits t) || (length t == 10 && all_digits (take 9 t))

abbrev pub is_blank : List ℕ → Bool
is_blank [] = true
is_blank (c ∷ cs) = false

-- `str(meta.year) if meta.year else ""`
abbrev pub year_text : Option ℕ → List ℕ
year_text none = []
year_text (some zero) = []
year_text (some (suc n)) = str_of (suc n)

unfoldable pub evidence : BookMetadata → List ℕ → Evidence
evidence meta sha =
    if has_isbn_shape (isbn_digits meta.isbn)
    then by_isbn (isbn_digits meta.isbn)
    else if is_blank meta.author || is_blank meta.title
    then by_hash (take 16 (lower sha))
    else by_meta (dash_words meta.author) (dash_words meta.title) (year_text meta.year)

unfoldable pub render_key : Evidence → List ℕ
render_key (by_isbn digits) = codes "isbn:" ++ digits
render_key (by_meta author title year) = codes "meta:" ++ (author ++ b'|' ∷ (title ++ b'|' ∷ year))
render_key (by_hash digits) = codes "sha:" ++ digits

-- `planned_calibre_key`
unfoldable pub planned_calibre_key : BookMetadata → List ℕ → List ℕ
planned_calibre_key meta sha = render_key (evidence meta sha)
