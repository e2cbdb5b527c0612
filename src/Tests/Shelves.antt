-- ===== src/Tests/Shelves.antt =====
-- The names of books and the copies of a work at concrete inputs.

use ebook_automation.Text.{
  take, decimal, rpartition, extend_parts, contains, text_eq, strip, strip_right, strip_left,
  lower_char, is_space,
}
use ebook_automation.BookFiler.Manifest.{undo_lines, sort_rows, insert_row, text_le}
use ebook_automation.BookFiler.Path.{ancestry, name, parent, is_prefix, path_eq}
use ebook_automation.BookFiler.Dedup.{
  plan_works, plan_work, plan_formats, plan_format, rep_members, rep_member, collapse_all,
  trash_all, group_from, add_to, sort, insert_sorted, keeper_le, is_redownload, digits_then_close,
  FileInfo, plan_dedup,
}
use ebook_automation.BookFiler.Counted.{count_plan, count_scanned, count-plan_dedup}
use ebook_automation.BookFiler.Every.{All, In}
use ebook_automation.BookFiler.Trash.{Safe, plan_dedup-Safe}
use ebook_automation.BookFiler.Names.{sanitize_component}
use ebook_automation.BookFiler.SafeNames.{SafeName, sanitize_component-SafeName}
use ebook_automation.BookFiler.Classify.{
  apply_format_guard, any_matched, is_among, classify_core, any_matches, from_ranked, sum_hits,
  add_scores, score_text, add_targets, add_score, remove_phrase, keyword_matches, contains_phrase,
  split_words, Taxonomy, normalize, strip_boilerplate, title_words, is_shelf, classify_name,
}
use ebook_automation.BookFiler.Identity.{
  render_key, has_isbn_shape, all_digits, isbn_digits, join, BookMetadata, planned_calibre_key,
  evidence,
}
use ebook_automation.BookFiler.Identities.{planned_calibre_key-determines}
use ebook_automation.BookFiler.Shelved.{Evident, classify_name-Evident}
use ebook_automation.Common.{some, ◌≡◌, refl, true, none, false, List, [], ◌∷◌, codes}

-- three copies of a work, of which two have one content
abbrev copy_1 : FileInfo
copy_1 = record {
  path = codes "b/x (1).pdf";
  sha256 = codes "11";
  format = codes "pdf";
  size = 10;
  has_metadata = false;
  work_key = codes "x";
}

abbrev copy_2 : FileInfo
copy_2 = record copy_1 { path = codes "a/x.pdf" }

abbrev copy_3 : FileInfo
copy_3 = record copy_1 {
  path = codes "a/x.epub";
  sha256 = codes "22";
  format = codes "epub";
  size = 20;
}

abbrev scanned : List FileInfo
scanned = copy_1 ∷ copy_2 ∷ copy_3 ∷ []

count-plan_dedup_example :
    count_plan (codes "a/x.pdf") (plan_dedup scanned) ≡ count_scanned (codes "a/x.pdf") scanned
count-plan_dedup_example = count-plan_dedup (codes "a/x.pdf") scanned

plan_dedup-Safe_example : All (λ g. Safe (λ f. In f scanned) g.members) (plan_dedup scanned)
plan_dedup-Safe_example = plan_dedup-Safe scanned

sanitize_component-SafeName_example : SafeName (sanitize_component (codes "con: a/b?. "))
sanitize_component-SafeName_example = sanitize_component-SafeName (codes "con: a/b?. ")

-- a taxonomy of two sections, in which `dictionary` is a word of form
abbrev small_taxonomy : Taxonomy
small_taxonomy = record {
  threshold = (3, 5);
  non_library_keywords = codes "resume" ∷ [];
  index =
      (codes "algebra", (codes "510", codes "Algebra") ∷ [])
      ∷ (codes "dictionary", (codes "030", codes "Dictionaries") ∷ [])
      ∷ (codes "linear algebra", (codes "510", codes "Algebra") ∷ [])
      ∷ [];
  format_keywords = codes "dictionary" ∷ [];
  boilerplate_keywords = [];
}

algebra_is_shelved :
    is_shelf
      (classify_name small_taxonomy (codes "Linear_Algebra (dictionary).pdf") none).disposition
    ≡ true
unfolding split_words contains_phrase keyword_matches remove_phrase strip_boilerplate add_score
    add_targets score_text add_scores sum_hits from_ranked any_matches classify_core is_among
    any_matched apply_format_guard classify_name path_eq is_prefix parent name ancestry text_le
    insert_row sort_rows undo_lines digits_then_close is_redownload keeper_le insert_sorted sort
    add_to group_from trash_all collapse_all rep_member rep_members plan_format plan_formats
    plan_work plan_works plan_dedup is_space lower_char strip_left strip_right strip text_eq
    contains extend_parts rpartition decimal take
algebra_is_shelved = refl

dictionary_is_reviewed :
    is_shelf (classify_name small_taxonomy (codes "Dictionary.pdf") none).disposition ≡ false
unfolding split_words contains_phrase keyword_matches remove_phrase strip_boilerplate add_score
    add_targets score_text add_scores sum_hits from_ranked any_matches classify_core is_among
    any_matched apply_format_guard classify_name path_eq is_prefix parent name ancestry text_le
    insert_row sort_rows undo_lines digits_then_close is_redownload keeper_le insert_sorted sort
    add_to group_from trash_all collapse_all rep_member rep_members plan_format plan_formats
    plan_work plan_works plan_dedup is_space lower_char strip_left strip_right strip text_eq
    contains extend_parts rpartition decimal take
dictionary_is_reviewed = refl

classify_name-Evident_example :
    Evident small_taxonomy
      (strip_boilerplate (normalize (codes "Linear_Algebra (dictionary).pdf")))
      (title_words none)
      (classify_name small_taxonomy (codes "Linear_Algebra (dictionary).pdf") none)
classify_name-Evident_example =
    classify_name-Evident small_taxonomy (codes "Linear_Algebra (dictionary).pdf") none
      algebra_is_shelved

-- one book by two editions of its metadata
abbrev book : BookMetadata
book = record {
  title = codes "Linear Algebra";
  author = codes "Serge Lang";
  isbn = codes "N/A";
  year = some 1987;
}

abbrev same_book : BookMetadata
same_book = record book { title = codes "linear algebra."; isbn = codes "" }

book_key : planned_calibre_key book (codes "AB") ≡ codes "meta:serge-lang|linear-algebra|1987"
unfolding join isbn_digits all_digits has_isbn_shape evidence render_key planned_calibre_key
    split_words contains_phrase keyword_matches remove_phrase strip_boilerplate add_score
    add_targets score_text add_scores sum_hits from_ranked any_matches classify_core is_among
    any_matched apply_format_guard classify_name is_space lower_char strip_left strip_right strip
    text_eq contains extend_parts rpartition decimal take
book_key = refl

same_key : planned_calibre_key book (codes "AB") ≡ planned_calibre_key same_book (codes "CD")
unfolding join isbn_digits all_digits has_isbn_shape evidence render_key planned_calibre_key
    split_words contains_phrase keyword_matches remove_phrase strip_boilerplate add_score
    add_targets score_text add_scores sum_hits from_ranked any_matches classify_core is_among
    any_matched apply_format_guard classify_name is_space lower_char strip_left strip_right strip
    text_eq contains extend_parts rpartition decimal take
same_key = refl

planned_calibre_key-determines_example :
    evidence book (codes "AB") ≡ evidence same_book (codes "CD")
planned_calibre_key-determines_example =
    planned_calibre_key-determines book same_book (codes "AB") (codes "CD") same_key
