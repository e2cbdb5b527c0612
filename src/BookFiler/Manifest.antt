-- ===== src/BookFiler/Manifest.antt =====
-- tools/book_filer/manifest.py: the rows of a manifest, its projection and its digest. `json.dumps`
-- and `sha256` are parameters.
use ebook_automation.Text.{text_eq}
use ebook_automation.Common.{
  ℕ, Bool, true, false, ◌&&◌, ◌||◌, Option, List, [], ◌∷◌, ◌++◌, map, ltb, ◌==◌, if◌then◌else◌,
}

-- a row: `other` is the fields that are only serialized
pub record Row : Type 0 where
  pub original_path : List ℕ
  pub destination_path : List ℕ
  pub sha256 : List ℕ
  pub action : List ℕ
  pub calibre_id : Option (List ℕ)
  pub undo_action : List ℕ
  pub other : List (List ℕ)

-- the rows that are serialized have no `calibre_id`
pub record Projected : Type 0 where
  pub original_path : List ℕ
  pub destination_path : List ℕ
  pub sha256 : List ℕ
  pub action : List ℕ
  pub undo_action : List ℕ
  pub other : List (List ℕ)

abbrev pub project : Row → Projected
project r = record {
  original_path = r.original_path;
  destination_path = r.destination_path;
  sha256 = r.sha256;
  action = r.action;
  undo_action = r.undo_action;
  other = r.other;
}

-- `a <= b` of two texts, by code points
unfoldable pub text_le : List ℕ → List ℕ → Bool
text_le [] ys = true
text_le (x ∷ xs) [] = false
text_le (x ∷ xs) (y ∷ ys) = ltb x y || (x == y && text_le xs ys)

unfoldable pub insert_row : Row → List Row → List Row
insert_row r [] = r ∷ []
insert_row r (x ∷ xs) =
    let rest = insert_row r xs in
    if text_le r.original_path x.original_path then r ∷ x ∷ xs else x ∷ rest

-- `sorted(rows, key=lambda r: r.original_path)`, a stable sort
unfoldable pub sort_rows : List Row → List Row
unfolding insert_row
sort_rows [] = []
sort_rows (r ∷ rs) = insert_row r (sort_rows rs)

module _ (dumps : List Projected → List ℕ) (sha : List ℕ → List ℕ) where
  abbrev pub canonical_projection : List Row → List ℕ
  canonical_projection rows = dumps (map project (sort_rows rows))

  abbrev pub manifest_digest : List Row → List ℕ
  manifest_digest rows = sha (canonical_projection rows)

-- the lines of `generate_undo_script` after its first two
unfoldable pub undo_lines : List Row → List (List ℕ)
undo_lines [] = []
undo_lines (r ∷ rs) = undo_lines rs ++ (if text_eq r.undo_action [] then [] else r.undo_action ∷ [])
