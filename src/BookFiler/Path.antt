-- ===== src/BookFiler/Path.antt =====
-- Paths as `pathlib` reads them: the parts, root first. A path of the file system is compared by
-- its parts, so a text stands for the one way in which it is written.
use ebook_automation.Text.{text_eq, text_eq-true}
use ebook_automation.Common.{ℕ, ◌≡◌, refl, ◌↔◌, Bool, true, false, ◌&&◌, List, [], ◌∷◌, map, arith}

abbrev pub FilePath : Type 0
FilePath = List (List ℕ)

unfoldable pub path_eq : FilePath → FilePath → Bool
path_eq [] [] = true
path_eq [] (y ∷ ys) = false
path_eq (x ∷ xs) [] = false
path_eq (x ∷ xs) (y ∷ ys) = text_eq x y && path_eq xs ys

-- `a.parts[:len(b.parts)] == b.parts`, the second path first
unfoldable pub is_prefix : FilePath → FilePath → Bool
is_prefix [] ys = true
is_prefix (x ∷ xs) [] = false
is_prefix (x ∷ xs) (y ∷ ys) = text_eq x y && is_prefix xs ys

-- `path.parent`, where the path has parts
unfoldable pub parent : FilePath → FilePath
parent [] = []
parent (x ∷ xs) = elim xs [ [] ↦ [] | y ∷ ys ↦ x ∷ parent xs ]

-- `path.name`
unfoldable pub name : FilePath → List ℕ
name [] = []
name (x ∷ xs) = elim xs [ [] ↦ x | y ∷ ys ↦ name xs ]

-- the path and its parents, the root first
unfoldable pub ancestry : FilePath → List FilePath
ancestry [] = []
ancestry (x ∷ xs) = (x ∷ []) ∷ map (λ p. x ∷ p) (ancestry xs)

text_eq_refl : (x : List ℕ) → text_eq x x ≡ true
unfolding text_eq
text_eq_refl [] = refl
text_eq_refl (c ∷ cs) = ground (arith, text_eq_refl cs)

pub text_eq_iff : (x y : List ℕ) → (text_eq x y ≡ true) ↔ (x ≡ y)
text_eq_iff x y = (text_eq-true x y, λ e. rw e (text_eq_refl y))

path_eq-true : (p q : FilePath) → path_eq p q ≡ true → p ≡ q
unfolding path_eq
path_eq-true [] [] h = refl
path_eq-true [] (y ∷ ys) h = cc
path_eq-true (x ∷ xs) [] h = cc
path_eq-true (x ∷ xs) (y ∷ ys) h = ground (arith, text_eq_iff x y, path_eq-true xs ys)

pub path_eq_refl : (p : FilePath) → path_eq p p ≡ true
unfolding path_eq
path_eq_refl [] = refl
path_eq_refl (x ∷ xs) = ground (arith, text_eq_refl x, path_eq_refl xs)

pub path_eq_iff : (p q : FilePath) → (path_eq p q ≡ true) ↔ (p ≡ q)
path_eq_iff p q = (path_eq-true p q, λ e. rw e (path_eq_refl q))
