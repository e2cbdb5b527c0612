-- ===== src/BookFiler/Every.antt =====
-- What holds of every element of a list, also of a sorted one.

use ebook_automation.BookFiler.Dedup.{insert_sorted, sort}
use ebook_automation.Common.{
  ◌≡◌, refl, ◌⊎◌, inl, inr, Bool, true, false, List, [], ◌∷◌, ◌++◌, if◌then◌else◌,
}

module _ {A : Type 0} where
  unfoldable pub All : (A → Type 0) → List A → Type 0
  All P [] = Unit {0}
  All P (x ∷ xs) = P x × All P xs

  unfoldable pub In : A → List A → Type 0
  In a [] = ⊥
  In a (x ∷ xs) = (a ≡ x) ⊎ In a xs

  pub All-map : (P Q : A → Type 0) → ((x : A) → P x → Q x) → (xs : List A) → All P xs → All Q xs
  unfolding All
  All-map P Q h [] a = tt
  All-map P Q h (x ∷ xs) (p, a) = (h x p, All-map P Q h xs a)

  pub All-if :
      (P : A → Type 0) (b : Bool) (xs ys : List A)
      → (b ≡ true → All P xs)
      → (b ≡ false → All P ys)
      → All P (if b then xs else ys)
  All-if P true xs ys l r = l refl
  All-if P false xs ys l r = r refl

  pub All-append : (P : A → Type 0) (xs ys : List A) → All P xs → All P ys → All P (xs ++ ys)
  unfolding All
  All-append P [] ys a b = b
  All-append P (x ∷ xs) ys (p, a) b = (p, All-append P xs ys a b)

  pub All-insert_sorted :
      (P : A → Type 0) (le : A → A → Bool) (a : A) (xs : List A)
      → P a
      → All P xs
      → All P (insert_sorted le a xs)
  unfolding All insert_sorted
  All-insert_sorted P le a [] p q = (p, tt)
  All-insert_sorted P le a (x ∷ xs) p (q, r) =
      All-if P (le a x) _ _ (λ e. (p, (q, r))) (λ e. (q, All-insert_sorted P le a xs p r))

  pub All-sort : (P : A → Type 0) (le : A → A → Bool) (xs : List A) → All P xs → All P (sort le xs)
  unfolding All sort
  All-sort P le [] a = tt
  All-sort P le (x ∷ xs) (p, a) = All-insert_sorted P le x (sort le xs) p (All-sort P le xs a)

  pub All-In : (xs : List A) → All (λ x. In x xs) xs
  unfolding All In
  All-In [] = tt
  All-In (x ∷ xs) =
      (inl refl, All-map (λ y. In y xs) (λ y. In y (x ∷ xs)) (λ y i. inr i) xs (All-In xs))
