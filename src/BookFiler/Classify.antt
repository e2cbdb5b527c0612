-- ===== src/BookFiler/Classify.antt =====
-- tools/book_filer/classify.py, on a loaded taxonomy. A normalized text is the list of its words,
-- since one space stands between two of them; a keyword matches where its words stand in a row. A
-- confidence is a fraction, hits and total, and the threshold another: the quotients that the
-- source compares are so far apart that their rounding does not matter.
use ebook_automation.Text.{text_eq, lower}
use ebook_automation.BookFiler.Path.{is_prefix}
use ebook_automation.BookFiler.Manifest.{text_le}
use ebook_automation.BookFiler.Dedup.{sort}
use ebook_automation.BookFiler.Gates.{Disposition, shelf, review, non_library}
use ebook_automation.Common.{
  ℕ, zero, suc, ◌+◌, ◌-◌, ◌*◌, Bool, true, false, not, ◌&&◌, ◌||◌, Option, none, some, List, [],
  ◌∷◌, ◌++◌, ltb, leb, ◌==◌, if◌then◌else◌, codes, length,
}

abbrev pub Words : Type 0
Words = List (List ℕ)

abbrev pub Target : Type 0
Target = List ℕ × List ℕ

-- a taxonomy: each keyword with the (section, subcategory) pairs that it maps to, in their order
pub record Taxonomy : Type 0 where
  pub threshold : ℕ × ℕ
  pub non_library_keywords : List (List ℕ)
  pub index : List (List ℕ × List Target)
  pub format_keywords : List (List ℕ)
  pub boilerplate_keywords : List (List ℕ)

pub data Source : Type 0 where
  rule metadata : Source

pub record Classification : Type 0 where
  pub disposition : Disposition
  pub target : Option Target
  pub confidence : ℕ × ℕ
  pub source : Source
  pub format_only : Bool

abbrev pub is_word_char : ℕ → Bool
is_word_char c = (leb b'a' c && leb c b'z') || (leb b'0' c && leb c b'9')

abbrev pub end_word : List ℕ → Words → Words
end_word [] ws = ws
end_word (c ∷ cs) ws = (c ∷ cs) ∷ ws

unfoldable pub split_words : List ℕ → List ℕ → Words
split_words word [] = end_word word []
split_words word (c ∷ cs) =
    let longer = split_words (word ++ c ∷ []) cs in
    let next = split_words [] cs in if is_word_char c then longer else end_word word next

-- `_normalize_match_text`
abbrev pub normalize : List ℕ → Words
normalize text = split_words [] (lower text)

unfoldable pub contains_phrase : Words → Words → Bool
contains_phrase phrase [] = false
contains_phrase phrase (w ∷ ws) = is_prefix phrase (w ∷ ws) || contains_phrase phrase ws

abbrev pub matches_words : Words → Words → Bool
matches_words [] text = false
matches_words (w ∷ ws) text = contains_phrase (w ∷ ws) text

-- `_keyword_matches`
unfoldable pub keyword_matches : List ℕ → Words → Bool
keyword_matches keyword text = matches_words (normalize keyword) text

-- what is left of a text without a phrase; `skip` words of a match are still to be dropped
unfoldable pub remove_phrase : Words → ℕ → Words → Words
remove_phrase phrase skip [] = []
remove_phrase phrase (suc skip) (w ∷ ws) = remove_phrase phrase skip ws
remove_phrase phrase zero (w ∷ ws) =
    let dropped = remove_phrase phrase (length phrase - 1) ws in
    let kept = remove_phrase phrase 0 ws in if is_prefix phrase (w ∷ ws) then dropped else w ∷ kept

-- `_strip_source_boilerplate`
unfoldable pub strip_boilerplate : Words → Words
strip_boilerplate text = remove_phrase (normalize (codes "random house publishing group")) 0 text

abbrev pub same_target : Target → Target → Bool
same_target (a, b) (x, y) = text_eq a x && text_eq b y

-- `scores[target] += n`
unfoldable pub add_score : Target → ℕ → List (Target × ℕ) → List (Target × ℕ)
add_score t n [] = (t, n) ∷ []
add_score t n ((u, k) ∷ ss) =
    let rest = add_score t n ss in if same_target u t then (u, k + n) ∷ ss else (u, k) ∷ rest

unfoldable pub add_targets : List Target → List (Target × ℕ) → List (Target × ℕ)
add_targets [] ss = ss
add_targets (t ∷ ts) ss = add_targets ts (add_score t 1 ss)

-- `_score_text`
unfoldable pub score_text :
    Words → List (List ℕ × List Target) → List (Target × ℕ) → List (Target × ℕ)
score_text text [] ss = ss
score_text text ((kw, ts) ∷ index) ss =
    score_text text index (if keyword_matches kw text then add_targets ts ss else ss)

-- `title_scores + name_scores`
unfoldable pub add_scores : List (Target × ℕ) → List (Target × ℕ) → List (Target × ℕ)
add_scores ss [] = ss
add_scores ss ((t, n) ∷ more) = add_scores (add_score t n ss) more

abbrev pub rank_le : Target × ℕ → Target × ℕ → Bool
rank_le ((s, b), n) ((t, d), k) =
    ltb k n || (n == k && (not (text_le t s) || (text_eq s t && text_le b d)))

-- `_rank_scores`
abbrev pub rank_scores : List (Target × ℕ) → List (Target × ℕ)
rank_scores = sort rank_le

unfoldable pub sum_hits : List (Target × ℕ) → ℕ
sum_hits [] = 0
sum_hits ((_, n) ∷ ss) = n + sum_hits ss

-- `confidence < taxonomy.confidence_threshold`
abbrev pub below : ℕ × ℕ → ℕ × ℕ → Bool
below (best, total) (num, den) = ltb (best * den) (num * total)

-- a second target with as many hits, of another section
abbrev pub is_tie : List ℕ → ℕ → List (Target × ℕ) → Bool
is_tie best_section best_hits [] = false
is_tie best_section best_hits (((s, _), n) ∷ _) = n == best_hits && not (text_eq s best_section)

abbrev pub classified : Disposition → Option Target → ℕ × ℕ → Source → Classification
classified d t c s = record {
  disposition = d;
  target = t;
  confidence = c;
  source = s;
  format_only = false;
}

-- `_classification_from_scores`, of the ranked scores and their sum
unfoldable pub from_ranked : Taxonomy → Source → ℕ → List (Target × ℕ) → Classification
from_ranked tax source total [] = classified review none (0, 1) source
from_ranked tax source total ((t, best) ∷ others) =
    if is_tie t.0 best others || below (best, total) tax.threshold
    then classified review (some t) (best, total) source
    else classified shelf (some t) (best, total) source

abbrev pub from_scores : Taxonomy → Source → List (Target × ℕ) → Classification
from_scores tax source ss = from_ranked tax source (sum_hits ss) (rank_scores ss)

unfoldable pub any_matches : List (List ℕ) → Words → Bool
any_matches [] text = false
any_matches (kw ∷ kws) text = keyword_matches kw text || any_matches kws text

-- the section of the best target
abbrev pub top_section : List (Target × ℕ) → List ℕ
top_section [] = []
top_section (((s, _), _) ∷ _) = s

-- the scores of the title and of the name
abbrev pub by_scores : Taxonomy → List (Target × ℕ) → List (Target × ℕ) → Classification
by_scores tax [] name = from_scores tax rule name
by_scores tax (t ∷ ts) [] = from_scores tax metadata (t ∷ ts)
by_scores tax (t ∷ ts) (n ∷ ns) =
    if text_eq (top_section (rank_scores (t ∷ ts))) (top_section (rank_scores (n ∷ ns)))
    then from_scores tax metadata (add_scores (t ∷ ts) (n ∷ ns))
    else record (from_scores tax metadata (t ∷ ts)) { disposition = review }

-- `_classify_core`
unfoldable pub classify_core : Taxonomy → Words → Words → Classification
classify_core tax name title =
    if any_matches tax.non_library_keywords name || any_matches tax.non_library_keywords title
    then classified non_library none (1, 1) rule
    else by_scores tax (score_text title tax.index []) (score_text name tax.index [])

unfoldable pub is_among : List ℕ → List (List ℕ) → Bool
is_among kw [] = false
is_among kw (k ∷ ks) = text_eq k kw || is_among kw ks

-- whether an indexed keyword that matches the name or the title is of a kind
unfoldable pub any_matched : (List ℕ → Bool) → Words → Words → List (List ℕ × List Target) → Bool
any_matched kind name title [] = false
any_matched kind name title ((kw, _) ∷ index) =
    (kind kw && (keyword_matches kw name || keyword_matches kw title))
    || any_matched kind name title index

abbrev pub has_format_word : Taxonomy → Words → Words → Bool
has_format_word tax name title =
    any_matched (λ kw. is_among kw tax.format_keywords) name title tax.index

abbrev pub has_subject : Taxonomy → Words → Words → Bool
has_subject tax name title =
    any_matched
      (λ kw. not (is_among kw tax.format_keywords) && not (is_among kw tax.boilerplate_keywords))
      name title tax.index

abbrev pub is_shelf : Disposition → Bool
is_shelf shelf = true
is_shelf review = false
is_shelf non_library = false

-- `_apply_format_guard`
unfoldable pub apply_format_guard : Taxonomy → Words → Words → Classification → Classification
apply_format_guard tax name title c =
    if not (is_shelf c.disposition)
    then c
    else if not (has_format_word tax name title)
    then c
    else if has_subject tax name title
    then c
    else record c { disposition = review; format_only = true }

abbrev pub title_words : Option (List ℕ) → Words
title_words none = []
title_words (some t) = normalize t

-- `classify_name`
unfoldable pub classify_name : Taxonomy → List ℕ → Option (List ℕ) → Classification
classify_name tax name title =
    let n = strip_boilerplate (normalize name) in
    let t = title_words title in apply_format_guard tax n t (classify_core tax n t)
