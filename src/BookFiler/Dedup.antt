-- ===== src/BookFiler/Dedup.antt =====
-- tools/book_filer/dedup.py: what becomes of the copies of a work. A text is its code points; the
-- pattern's `\d` is read as an ASCII digit.
use ebook_automation.Text.{text_eq, lower}
use ebook_automation.BookFiler.Manifest.{text_le}
use ebook_automation.Common.{
  ℕ, Bool, true, false, not, ◌&&◌, ◌||◌, List, [], ◌∷◌, ◌++◌, ltb, leb, ◌==◌, if◌then◌else◌,
}

pub record FileInfo : Type 0 where
  pub path : List ℕ
  pub sha256 : List ℕ
  pub format : List ℕ
  pub size : ℕ
  pub has_metadata : Bool
  pub work_key : List ℕ

pub data Action : Type 0 where
  keep merge_format trash review : Action

pub data Why : Type 0 where
  canonical_copy alternate_format distinct_copy : Why
  duplicate_of : List ℕ → Why

pub record Member : Type 0 where
  pub path : List ℕ
  pub action : Action
  pub why : Why

pub record DupGroup : Type 0 where
  pub work_key : List ℕ
  pub members : List Member

-- `\d+\)` where the text begins, after the digits that were read
unfoldable pub digits_then_close : Bool → List ℕ → Bool
digits_then_close seen [] = false
digits_then_close seen (c ∷ cs) =
    let rest = digits_then_close true cs in
    if leb b'0' c && leb c b'9' then rest else (c == b')' && seen)

abbrev pub copy_at : List ℕ → Bool
copy_at (a ∷ b ∷ d ∷ e ∷ _) = a == b'c' && (b == b'o' && (d == b'p' && e == b'y'))
copy_at _ = false

-- `_REDOWNLOAD_RE.search`, of a text in lower case
unfoldable pub is_redownload : List ℕ → Bool
is_redownload [] = false
is_redownload (c ∷ cs) =
    (c == b'(' && digits_then_close false cs) || (copy_at (c ∷ cs) || is_redownload cs)

-- `False <= True`, strictly
abbrev pub bool_lt : Bool → Bool → Bool
bool_lt a b = not a && b

-- `_keeper_sort_key(a) <= _keeper_sort_key(b)`
unfoldable pub keeper_le : FileInfo → FileInfo → Bool
keeper_le a b =
    let da = is_redownload (lower a.path) in
    let db = is_redownload (lower b.path) in
    if bool_lt a.has_metadata b.has_metadata
    then false
    else if bool_lt b.has_metadata a.has_metadata
    then true
    else if ltb b.size a.size
    then true
    else if ltb a.size b.size
    then false
    else if bool_lt da db
    then true
    else if bool_lt db da
    then false
    else text_le a.path b.path

module _ {A : Type 0} (le : A → A → Bool) where
  unfoldable pub insert_sorted : A → List A → List A
  insert_sorted a [] = a ∷ []
  insert_sorted a (x ∷ xs) =
      let rest = insert_sorted a xs in if le a x then a ∷ x ∷ xs else x ∷ rest

  -- `sorted`, a stable sort
  unfoldable pub sort : List A → List A
  unfolding insert_sorted
  sort [] = []
  sort (a ∷ xs) = insert_sorted a (sort xs)

-- `groups.setdefault(key, []).append(f)`
unfoldable pub add_to :
    List ℕ → FileInfo → List (List ℕ × List FileInfo) → List (List ℕ × List FileInfo)
add_to key f [] = (key, f ∷ []) ∷ []
add_to key f ((k, fs) ∷ gs) =
    let rest = add_to key f gs in if text_eq k key then (k, fs ++ f ∷ []) ∷ gs else (k, fs) ∷ rest

-- the dict of the files by a key
unfoldable pub group_from :
    (FileInfo → List ℕ)
    → List (List ℕ × List FileInfo)
    → List FileInfo
    → List (List ℕ × List FileInfo)
unfolding add_to
group_from key gs [] = gs
group_from key gs (f ∷ fs) = group_from key (add_to (key f) f gs) fs

abbrev pub trashed : FileInfo → FileInfo → Member
trashed kept f = record { path = f.path; action = trash; why = duplicate_of kept.path }

unfoldable pub trash_all : FileInfo → List FileInfo → List Member
trash_all kept [] = []
trash_all kept (f ∷ fs) = trashed kept f ∷ trash_all kept fs

-- the first of the ranked copies, and the members of the others
abbrev pub collapse : List FileInfo → List FileInfo × List Member
collapse [] = ([], [])
collapse (r ∷ extras) = (r ∷ [], trash_all r extras)

-- the loop over the contents of a format: the representatives and the members
unfoldable pub collapse_all : List (List ℕ × List FileInfo) → List FileInfo × List Member
collapse_all [] = ([], [])
collapse_all ((k, dups) ∷ gs) =
    let (reps, ms) = collapse (sort keeper_le dups) in
    let (more, rest) = collapse_all gs in (reps ++ more, ms ++ rest)

unfoldable pub rep_member : FileInfo → FileInfo → FileInfo → Member
rep_member overall fmt_rep rep =
    if text_eq rep.path overall.path
    then record { path = rep.path; action = keep; why = canonical_copy }
    else if text_eq rep.path fmt_rep.path && not (text_eq rep.format overall.format)
    then record { path = rep.path; action = merge_format; why = alternate_format }
    else record { path = rep.path; action = review; why = distinct_copy }

unfoldable pub rep_members : FileInfo → FileInfo → List FileInfo → List Member
rep_members overall fmt_rep [] = []
rep_members overall fmt_rep (r ∷ rs) = rep_member overall fmt_rep r ∷ rep_members overall fmt_rep rs

-- the members of the representatives; there is one at least
abbrev pub place : FileInfo → List FileInfo → List FileInfo → List Member
place overall reps [] = []
place overall reps (fmt_rep ∷ _) = rep_members overall fmt_rep reps

-- the files of one format
unfoldable pub plan_format : FileInfo → List FileInfo → List Member
plan_format overall fs =
    let (reps, ms) = collapse_all (group_from (λ f. f.sha256) [] fs) in
    ms ++ place overall reps (sort keeper_le reps)

unfoldable pub plan_formats : FileInfo → List (List ℕ × List FileInfo) → List Member
plan_formats overall [] = []
plan_formats overall ((fmt, fs) ∷ gs) = plan_format overall fs ++ plan_formats overall gs

abbrev pub plan_ranked : List FileInfo → List FileInfo → List Member
plan_ranked fs [] = []
plan_ranked fs (overall ∷ _) = plan_formats overall (group_from (λ f. f.format) [] fs)

-- the members of one work
unfoldable pub plan_work : List FileInfo → List Member
plan_work fs = sort (λ a b. text_le a.path b.path) (plan_ranked fs (sort keeper_le fs))

unfoldable pub plan_works : List (List ℕ × List FileInfo) → List DupGroup
plan_works [] = []
plan_works ((k, fs) ∷ gs) = record { work_key = k; members = plan_work fs } ∷ plan_works gs

unfoldable pub plan_dedup : List FileInfo → List DupGroup
plan_dedup files =
    sort (λ a b. text_le a.work_key b.work_key) (plan_works (group_from (λ f. f.work_key) [] files))
