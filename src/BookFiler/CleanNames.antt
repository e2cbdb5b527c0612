-- ===== src/BookFiler/CleanNames.antt =====
-- The characters that `sanitize_component` leaves.

use ebook_automation.Text.{contains, is_space, strip_left, strip_right}
use ebook_automation.BookFiler.Names.{
  is_separator, to_dash, is_stripped, strip_illegal, collapse_spaces, end_run, collapse_dashes,
  rstrip_dots, finish_name,
}
use ebook_automation.Common.{
  ℕ, suc, ◌≡◌, refl, Bool, true, false, not, ◌&&◌, List, [], ◌∷◌, ◌++◌, arith, leb, if◌then◌else◌,
  codes,
}

-- a character that neither `to_dash` nor `strip_illegal` takes away
abbrev pub is_clean : ℕ → Bool
is_clean c = not (is_separator c) && not (is_stripped c)

unfoldable pub all_clean : List ℕ → Bool
all_clean [] = true
all_clean (c ∷ cs) = is_clean c && all_clean cs

unfoldable pub no_separator : List ℕ → Bool
no_separator [] = true
no_separator (c ∷ cs) = not (is_separator c) && no_separator cs

all_clean-append :
    (xs ys : List ℕ) → all_clean xs ≡ true → all_clean ys ≡ true → all_clean (xs ++ ys) ≡ true
unfolding all_clean
all_clean-append [] ys a b = b
all_clean-append (x ∷ xs) ys a b = ground (arith, all_clean-append xs ys)

pub no_separator-to_dash : (cs : List ℕ) → no_separator (to_dash cs) ≡ true
unfolding no_separator to_dash
no_separator-to_dash [] = refl
no_separator-to_dash (c ∷ cs) = ground (arith, no_separator-to_dash cs)

pub all_clean-strip_illegal :
    (cs : List ℕ) → no_separator cs ≡ true → all_clean (strip_illegal cs) ≡ true
unfolding no_separator strip_illegal all_clean
all_clean-strip_illegal [] h = refl
all_clean-strip_illegal (c ∷ cs) h = ground (arith, all_clean-strip_illegal cs)

pub all_clean-collapse_spaces :
    (b : Bool) (cs : List ℕ) → all_clean cs ≡ true → all_clean (collapse_spaces b cs) ≡ true
unfolding collapse_spaces all_clean
all_clean-collapse_spaces b [] h = refl
all_clean-collapse_spaces b (c ∷ cs) h =
    ground (arith, all_clean-collapse_spaces true cs, all_clean-collapse_spaces false cs)

all_clean-end_run :
    (run : List ℕ) (n : ℕ) (cs : List ℕ)
    → all_clean run ≡ true
    → all_clean cs ≡ true
    → all_clean (end_run run n cs) ≡ true
unfolding all_clean
all_clean-end_run run n cs a b = ground (arith, all_clean-append run cs a b)

pub all_clean-collapse_dashes :
    (run : List ℕ) (n : ℕ) (cs : List ℕ)
    → all_clean run ≡ true
    → all_clean cs ≡ true
    → all_clean (collapse_dashes run n cs) ≡ true
unfolding collapse_dashes all_clean
all_clean-collapse_dashes run n [] a h = all_clean-end_run run n [] a refl
all_clean-collapse_dashes run n (c ∷ cs) a h =
    let first : is_clean c ≡ true = ground (arith, h) in
    let others : all_clean cs ≡ true = ground (arith, h) in
    let longer = all_clean-append run (c ∷ []) a (ground (arith, first)) in
    let space = all_clean-collapse_dashes (run ++ c ∷ []) n cs longer others in
    let dash = all_clean-collapse_dashes (run ++ c ∷ []) (suc n) cs longer others in
    let other =
      all_clean-end_run run n (c ∷ collapse_dashes [] 0 cs) a
        (ground (arith, first, all_clean-collapse_dashes [] 0 cs refl others)) in
    ground (arith, space, dash, other)

pub all_clean-strip_left : (cs : List ℕ) → all_clean cs ≡ true → all_clean (strip_left cs) ≡ true
unfolding strip_left all_clean
all_clean-strip_left [] h = refl
all_clean-strip_left (c ∷ cs) h = ground (arith, all_clean-strip_left cs)

strip_cons :
    (c : ℕ) (rest : List ℕ)
    → is_clean c ≡ true
    → all_clean rest ≡ true
    → all_clean (elim rest as (λ x. List ℕ) [
      | [] ↦ (if is_space c then [] else c ∷ [])
      | d ∷ ds ↦ c ∷ d ∷ ds
    ])
      ≡ true
unfolding all_clean
strip_cons c [] a b = ground (arith, a)
strip_cons c (d ∷ ds) a b = ground (arith, a, b)

pub all_clean-strip_right : (cs : List ℕ) → all_clean cs ≡ true → all_clean (strip_right cs) ≡ true
unfolding strip_right all_clean
all_clean-strip_right [] h = refl
all_clean-strip_right (c ∷ cs) h =
    strip_cons c (strip_right cs) (ground (arith, h)) (all_clean-strip_right cs (ground (arith, h)))

pub all_clean-rstrip_dots : (cs : List ℕ) → all_clean cs ≡ true → all_clean (rstrip_dots cs) ≡ true
unfolding rstrip_dots all_clean
all_clean-rstrip_dots [] h = refl
all_clean-rstrip_dots (c ∷ cs) h = ground (arith, all_clean-rstrip_dots cs)

pub all_clean-finish_name : (cs : List ℕ) → all_clean cs ≡ true → all_clean (finish_name cs) ≡ true
unfolding finish_name all_clean
all_clean-finish_name [] h = refl
all_clean-finish_name (c ∷ cs) h = ground (arith, h)

-- the characters that Windows refuses in a name, beside those below U+0020
abbrev pub refused_characters : List ℕ
refused_characters = 34 ∷ codes "<>:|?*/\\"

abbrev pub is_legal : ℕ → Bool
is_legal c = leb 32 c && not (contains c refused_characters)

unfoldable pub all_legal : List ℕ → Bool
all_legal [] = true
all_legal (c ∷ cs) = is_legal c && all_legal cs

clean_legal : (c : ℕ) → is_clean c ≡ true → is_legal c ≡ true
unfolding contains
clean_legal c h = ground (arith, h)

pub all_clean_legal : (cs : List ℕ) → all_clean cs ≡ true → all_legal cs ≡ true
unfolding all_clean all_legal
all_clean_legal [] h = refl
all_clean_legal (c ∷ cs) h = ground (arith, h, clean_legal c, all_clean_legal cs)
