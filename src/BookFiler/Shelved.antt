-- ===== src/BookFiler/Shelved.antt =====
-- What a name that is shelved on its own has shown.
use ebook_automation.BookFiler.Classify.{
  Words, Target, Taxonomy, Source, rule, metadata, Classification, classified, normalize,
  strip_boilerplate, add_scores, rank_le, rank_scores, sum_hits, from_ranked, from_scores,
  any_matches, by_scores, classify_core, score_text, has_format_word, has_subject, is_shelf,
  apply_format_guard, title_words, classify_name, top_section,
}
use ebook_automation.BookFiler.Every.{All, In, All-sort, All-In}
use ebook_automation.BookFiler.Ranks.{AtMost, HasBest, rank_scores-HasBest}
use ebook_automation.BookFiler.Gates.{review, non_library}
use ebook_automation.Text.{text_eq}
use mathlib.Core.Bool.{true≢false}
use ebook_automation.Common.{
  ℕ, ◌*◌, ◌≤◌, ◌≡◌, sym, Bool, true, false, not, ◌||◌, Option, none, some, List, [], ◌∷◌, arith,
  if◌then◌else◌,
}

-- What a classification that shelves has to show for its target, among the scores `scores`: the
-- target is one of them and has the most hits, the confidence is its share of all hits, and the
-- threshold is not above it.
pub record Share (tax : Taxonomy) (scores : List (Target × ℕ)) (c : Classification) : Type 0 where
  pub target : Target
  pub hits : ℕ
  pub is_scored : In (target, hits) scores
  pub is_best : AtMost hits scores
  pub is_target : c.target ≡ some target
  pub is_share : c.confidence ≡ (hits, sum_hits scores)
  pub is_enough : tax.threshold.0 * sum_hits scores ≤ hits * tax.threshold.1

Share-from_ranked :
    (tax : Taxonomy) (source : Source) (scores ranked : List (Target × ℕ))
    → All (λ x. In x scores) ranked
    → HasBest scores ranked
    → is_shelf (from_ranked tax source (sum_hits scores) ranked).disposition ≡ true
    → Share tax scores (from_ranked tax source (sum_hits scores) ranked)
unfolding from_ranked All
Share-from_ranked tax source scores [] a b h = absurd (true≢false (sym h))
Share-from_ranked tax source scores ((t, best) ∷ others) (i, a) b h = record {
  target = t;
  hits = best;
  is_scored = i;
  is_best = b;
  is_target = ground arith;
  is_share = ground arith;
  is_enough = ground (arith, h);
}

shelf-from_scores :
    (tax : Taxonomy) (source : Source) (scores : List (Target × ℕ))
    → is_shelf (from_scores tax source scores).disposition ≡ true
    → Share tax scores (from_scores tax source scores)
shelf-from_scores tax source scores =
    Share-from_ranked tax source scores (rank_scores scores)
      (All-sort (λ x. In x scores) rank_le scores (All-In scores)) (rank_scores-HasBest scores)

if-Share :
    (tax : Taxonomy) (scores : List (Target × ℕ)) (b : Bool) (c d : Classification)
    → (is_shelf c.disposition ≡ true → Share tax scores c)
    → (is_shelf d.disposition ≡ true → Share tax scores d)
    → is_shelf (if b then c else d).disposition ≡ true
    → Share tax scores (if b then c else d)
if-Share tax scores true c d l r h = l h
if-Share tax scores false c d l r h = r h

-- the scores that decide: those of the title and of the name together
abbrev pub both_scores : List (Target × ℕ) → List (Target × ℕ) → List (Target × ℕ)
both_scores [] name = name
both_scores (t ∷ ts) name = add_scores (t ∷ ts) name

abbrev pub evidence_scores : Taxonomy → Words → Words → List (Target × ℕ)
evidence_scores tax name title =
    both_scores (score_text title tax.index []) (score_text name tax.index [])

from_title_and_name :
    (tax : Taxonomy) (title name : List (Target × ℕ))
    → is_shelf (by_scores tax title name).disposition ≡ true
    → Share tax (both_scores title name) (by_scores tax title name)
unfolding add_scores
from_title_and_name tax [] name = shelf-from_scores tax rule name
from_title_and_name tax (t ∷ ts) [] = shelf-from_scores tax metadata (t ∷ ts)
from_title_and_name tax (t ∷ ts) (n ∷ ns) =
    let sum = add_scores (t ∷ ts) (n ∷ ns) in
    if-Share tax sum
      (text_eq (top_section (rank_scores (t ∷ ts))) (top_section (rank_scores (n ∷ ns))))
      (from_scores tax metadata sum)
      (record (from_scores tax metadata (t ∷ ts)) { disposition = review })
      (shelf-from_scores tax metadata sum) (λ h. absurd (true≢false (sym h)))

shelf-classify_core :
    (tax : Taxonomy) (name title : Words)
    → is_shelf (classify_core tax name title).disposition ≡ true
    → Share tax (evidence_scores tax name title) (classify_core tax name title)
unfolding classify_core
shelf-classify_core tax name title =
    if-Share tax (evidence_scores tax name title)
      (any_matches tax.non_library_keywords name || any_matches tax.non_library_keywords title)
      (classified non_library none (1, 1) rule)
      (by_scores tax (score_text title tax.index []) (score_text name tax.index []))
      (λ h. absurd (true≢false (sym h)))
      (from_title_and_name tax (score_text title tax.index []) (score_text name tax.index []))

book-classify_core :
    (tax : Taxonomy) (name title : Words)
    → is_shelf (classify_core tax name title).disposition ≡ true
    → (any_matches tax.non_library_keywords name || any_matches tax.non_library_keywords title)
      ≡ false
unfolding classify_core
book-classify_core tax name title h = ground (arith, h)

-- What a name that is shelved has shown: no word of things that are no books; a share of the hits
-- that is enough for the threshold; and, if a word of form matched, a word of a subject too.
pub record Evident (tax : Taxonomy) (name title : Words) (c : Classification) : Type 0 where
  pub is_book :
      (any_matches tax.non_library_keywords name || any_matches tax.non_library_keywords title)
      ≡ false
  pub share : Share tax (evidence_scores tax name title) c
  pub has_evidence : (not (has_format_word tax name title) || has_subject tax name title) ≡ true

Share-guard :
    (tax : Taxonomy) (name title : Words) (scores : List (Target × ℕ)) (c : Classification)
    → Share tax scores c
    → Share tax scores (apply_format_guard tax name title c)
unfolding apply_format_guard
Share-guard tax name title scores c s = record {
  target = s.target;
  hits = s.hits;
  is_scored = s.is_scored;
  is_best = s.is_best;
  is_target = ground (arith, s.is_target);
  is_share = ground (arith, s.is_share);
  is_enough = s.is_enough;
}

shelf-guard :
    (tax : Taxonomy) (name title : Words) (c : Classification)
    → is_shelf (apply_format_guard tax name title c).disposition ≡ true
    → is_shelf c.disposition ≡ true
unfolding apply_format_guard
shelf-guard tax name title c h = ground (arith, h)

subject-guard :
    (tax : Taxonomy) (name title : Words) (c : Classification)
    → is_shelf (apply_format_guard tax name title c).disposition ≡ true
    → (not (has_format_word tax name title) || has_subject tax name title) ≡ true
unfolding apply_format_guard
subject-guard tax name title c h = ground (arith, h)

-- A name is shelved without review only where no word of things that are no books matches it or its
-- title; its target was scored and has the most hits, the confidence is the target's share of all
-- the hits of the title and the name, and that share is not below the threshold; and, where a word
-- of form such as `dictionary` matches, a word of a subject matches too.
pub classify_name-Evident :
    (tax : Taxonomy) (name : List ℕ) (title : Option (List ℕ))
    → is_shelf (classify_name tax name title).disposition ≡ true
    → Evident tax
        (strip_boilerplate (normalize name))
        (title_words title)
        (classify_name tax name title)
unfolding classify_name
classify_name-Evident tax name title h =
    let n = strip_boilerplate (normalize name) in
    let t = title_words title in
    let core = classify_core tax n t in
    let shelved = shelf-guard tax n t core h in
    record {
      is_book = book-classify_core tax n t shelved;
      share =
          Share-guard tax n t (evidence_scores tax n t) core (shelf-classify_core tax n t shelved);
      has_evidence = subject-guard tax n t core h;
    }
