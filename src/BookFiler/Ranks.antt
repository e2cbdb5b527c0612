-- ===== src/BookFiler/Ranks.antt =====
-- The first of the ranked scores has the most hits.
use mathlib.Core.Path.{subst}
use ebook_automation.BookFiler.Classify.{Target, rank_le, rank_scores}
use ebook_automation.BookFiler.Dedup.{insert_sorted, sort}
use ebook_automation.BookFiler.Every.{All, All-map, All-insert_sorted}
use ebook_automation.Common.{
  ℕ, ◌≤◌, ◌≡◌, refl, Bool, true, false, List, [], ◌∷◌, arith, if◌then◌else◌,
}

-- no score of a list has more hits
abbrev pub AtMost : ℕ → List (Target × ℕ) → Type 0
AtMost n scores = All (λ s. s.1 ≤ n) scores

-- the first of a ranking has the most hits of some scores
abbrev pub HasBest : List (Target × ℕ) → List (Target × ℕ) → Type 0
HasBest scores [] = Unit {0}
HasBest scores ((_, n) ∷ _) = AtMost n scores

All-if_either :
    (P : Target × ℕ → Type 0) (b : Bool) (a x : Target × ℕ) (xs ys : List (Target × ℕ))
    → All P (if b then a ∷ x ∷ xs else x ∷ ys)
    → (All P ys → P a × All P xs)
    → P a × (P x × All P xs)
unfolding All
All-if_either P true a x xs ys (pa, (px, q)) h = (pa, (px, q))
All-if_either P false a x xs ys (px, q) h = let r = h q in (r.0, (px, r.1))

module _ (P : Target × ℕ → Type 0) where
  All-of_insert :
      (a : Target × ℕ) (xs : List (Target × ℕ))
      → All P (insert_sorted rank_le a xs)
      → P a × All P xs
  unfolding insert_sorted All
  All-of_insert a [] (p, _) = (p, tt)
  All-of_insert a (x ∷ xs) all =
      All-if_either P (rank_le a x) a x xs (insert_sorted rank_le a xs) all (All-of_insert a xs)

  All-of_sort : (xs : List (Target × ℕ)) → All P (sort rank_le xs) → All P xs
  unfolding sort All
  All-of_sort [] all = tt
  All-of_sort (x ∷ xs) all =
      let r = All-of_insert x (sort rank_le xs) all in (r.0, All-of_sort xs r.1)

-- the first of a list has the most hits of it
abbrev IsHeaded : List (Target × ℕ) → Type 0
IsHeaded xs = HasBest xs xs

IsHeaded-if :
    (b : Bool) (a x : Target × ℕ) (xs ys : List (Target × ℕ))
    → (b ≡ true → AtMost a.1 (a ∷ x ∷ xs))
    → (b ≡ false → AtMost x.1 (x ∷ ys))
    → IsHeaded (if b then a ∷ x ∷ xs else x ∷ ys)
IsHeaded-if true a x xs ys l r = l refl
IsHeaded-if false a x xs ys l r = r refl

rank_le-hits : (a x : Target × ℕ) → rank_le a x ≡ true → x.1 ≤ a.1
rank_le-hits ((s, b), n) ((t, d), k) h = ground (arith, h)

rank_le-hits_not : (a x : Target × ℕ) → rank_le a x ≡ false → a.1 ≤ x.1
rank_le-hits_not ((s, b), n) ((t, d), k) h = ground (arith, h)

IsHeaded-insert :
    (a : Target × ℕ) (xs : List (Target × ℕ)) → IsHeaded xs → IsHeaded (insert_sorted rank_le a xs)
unfolding insert_sorted All
IsHeaded-insert a [] h = (omega arith, tt)
IsHeaded-insert a (x ∷ xs) (q, h) =
    IsHeaded-if (rank_le a x) a x xs (insert_sorted rank_le a xs)
      (λ e.
        let le = rank_le-hits a x e in
        (omega arith, (le, All-map (λ s. s.1 ≤ x.1) (λ s. s.1 ≤ a.1) (λ s i. omega arith) xs h)))
      (λ e.
        (omega arith, All-insert_sorted (λ s. s.1 ≤ x.1) rank_le a xs (rank_le-hits_not a x e) h))

IsHeaded-sort : (xs : List (Target × ℕ)) → IsHeaded (sort rank_le xs)
unfolding sort
IsHeaded-sort [] = tt
IsHeaded-sort (x ∷ xs) = IsHeaded-insert x (sort rank_le xs) (IsHeaded-sort xs)

best_of_ranked :
    (scores ranked : List (Target × ℕ))
    → ranked ≡ rank_scores scores
    → IsHeaded ranked
    → HasBest scores ranked
best_of_ranked scores [] e h = tt
best_of_ranked scores ((t, n) ∷ others) e h =
    All-of_sort (λ s. s.1 ≤ n) scores (subst (AtMost n) e h)

-- The first of the ranked scores has the most hits of them.
pub rank_scores-HasBest : (scores : List (Target × ℕ)) → HasBest scores (rank_scores scores)
rank_scores-HasBest scores = best_of_ranked scores (rank_scores scores) refl (IsHeaded-sort scores)
