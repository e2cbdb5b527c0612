-- ===== src/BookFiler/SafeNames.antt =====
-- What `sanitize_component` gives.

use ebook_automation.Text.{strip, strip_left, strip_right}
use ebook_automation.BookFiler.Gates.{is_empty}
use ebook_automation.BookFiler.Names.{
  to_dash, strip_illegal, collapse_spaces, collapse_dashes, is_dot_or_space, rstrip_dots,
  finish_name, sanitize_component, middot_to_space,
}
use ebook_automation.Common.{
  ℕ, ◌≡◌, refl, Bool, true, false, not, ◌&&◌, List, [], ◌∷◌, map, arith, if◌then◌else◌,
}
use ebook_automation.BookFiler.CleanNames.{
  all_clean, no_separator-to_dash, all_clean-strip_illegal, all_clean-collapse_spaces,
  all_clean-collapse_dashes, all_clean-strip_left, all_clean-strip_right, all_clean-rstrip_dots,
  all_clean-finish_name, all_legal, all_clean_legal,
}
use ebook_automation.BookFiler.Devices.{
  reserved_stem-finish_name, devices, names_any, names_none, devices-all_reserved,
}

-- whether the last character is neither a dot nor a space
unfoldable pub ends_well : List ℕ → Bool
ends_well [] = true
ends_well (c ∷ cs) = if is_empty cs then not (is_dot_or_space c) else ends_well cs

ends_well-cons :
    (c : ℕ) (rest : List ℕ)
    → ends_well rest ≡ true
    → ends_well (if is_empty rest && is_dot_or_space c then [] else c ∷ rest) ≡ true
unfolding ends_well
ends_well-cons c [] h = ground (arith, h)
ends_well-cons c (d ∷ ds) h = h

ends_well-rstrip_dots : (cs : List ℕ) → ends_well (rstrip_dots cs) ≡ true
unfolding rstrip_dots ends_well
ends_well-rstrip_dots [] = refl
ends_well-rstrip_dots (c ∷ cs) = ends_well-cons c (rstrip_dots cs) (ends_well-rstrip_dots cs)

ends_well-finish_name : (cs : List ℕ) → ends_well cs ≡ true → ends_well (finish_name cs) ≡ true
unfolding finish_name ends_well
ends_well-finish_name [] h = refl
ends_well-finish_name (c ∷ cs) h = ground (arith, h)

-- A name of a folder or a file that Windows takes as one path segment.
pub record SafeName (t : List ℕ) : Type 0 where
  pub legal : all_legal t ≡ true
  pub not_empty : is_empty t ≡ false
  pub good_end : ends_well t ≡ true
  pub no_device : names_any devices t ≡ false

is_empty-finish_name : (cs : List ℕ) → is_empty (finish_name cs) ≡ false
unfolding finish_name
is_empty-finish_name [] = refl
is_empty-finish_name (c ∷ cs) = ground arith

-- Whatever the name, what is made of it is not empty, has no slash, backslash or colon, no character
-- below U+0020 and none of `<>"|?*`, does not end in a dot or a space, and is not, in any case of
-- ASCII letters, one of CON, PRN, AUX, NUL, COM1 to COM9 and LPT1 to LPT9, alone or before a dot.
pub sanitize_component-SafeName : (name : List ℕ) → SafeName (sanitize_component name)
unfolding sanitize_component strip all_clean
sanitize_component-SafeName name =
    let clean = strip_illegal (to_dash (map middot_to_space name)) in
    let spaced = collapse_spaces false clean in
    let spaced_ok = all_clean-collapse_spaces false clean (
      all_clean-strip_illegal (to_dash (map middot_to_space name))
        (no_separator-to_dash (map middot_to_space name))) in
    let inner = strip_right (strip_left spaced) in
    let inner_ok =
      all_clean-strip_right (strip_left spaced) (all_clean-strip_left spaced spaced_ok) in
    let dashed = collapse_dashes [] 0 inner in
    let dashed_ok = all_clean-collapse_dashes [] 0 inner refl inner_ok in
    let outer = strip_right (strip_left dashed) in
    let outer_ok =
      all_clean-strip_right (strip_left dashed) (all_clean-strip_left dashed dashed_ok) in
    record {
      legal =
          all_clean_legal _
            (all_clean-finish_name (rstrip_dots outer) (all_clean-rstrip_dots outer outer_ok));
      not_empty = is_empty-finish_name (rstrip_dots outer);
      good_end = ends_well-finish_name (rstrip_dots outer) (ends_well-rstrip_dots outer);
      no_device =
          names_none devices _ devices-all_reserved (reserved_stem-finish_name (rstrip_dots outer));
    }
