-- ===== src/Sql/Laws.antt =====
-- How the statements act on the number of rows that a condition matches.
use ebook_automation.Common.{
  ◌+◌, ◌≤◌, ◌≡◌, refl, Bool, true, false, not, none, some, List, [], ◌∷◌, ◌++◌, arith, ◌==◌,
  if◌then◌else◌, is_some,
}
use ebook_automation.Sql.{assign, select, fetch_one, rowcount, update, delete, insert}

module _ {ℓ} {A : Type ℓ} where
  -- An update that no row's answer to `q` depends on keeps the number of rows for `q`.
  pub rowcount-update_keep :
      (q p : A → Bool) (f : A → A) (xs : List A)
      → ((x : A) → q (f x) ≡ q x)
      → rowcount q (update p f xs) ≡ rowcount q xs
  unfolding rowcount update
  rowcount-update_keep q p f [] h = refl
  rowcount-update_keep q p f (x ∷ xs) h = ground (arith, h x, rowcount-update_keep q p f xs h)

  pub rowcount-append :
      (q : A → Bool) (xs ys : List A) → rowcount q (xs ++ ys) ≡ rowcount q xs + rowcount q ys
  unfolding rowcount
  rowcount-append q [] ys = ground arith
  rowcount-append q (x ∷ xs) ys = ground (arith, rowcount-append q xs ys)

  pub rowcount-insert :
      (q : A → Bool) (x : A) (xs : List A)
      → rowcount q (insert x xs) ≡ rowcount q xs + (if q x then 1 else 0)
  unfolding rowcount insert
  rowcount-insert q x xs = ground (arith, rowcount-append q xs (x ∷ []))

  -- A stronger condition matches no more rows.
  pub rowcount_mono :
      (p q : A → Bool) (xs : List A)
      → ((x : A) → p x ≡ true → q x ≡ true)
      → rowcount p xs ≤ rowcount q xs
  unfolding rowcount
  rowcount_mono p q [] h = ground arith
  rowcount_mono p q (x ∷ xs) h = ground (arith, h x, rowcount_mono p q xs h)

  -- Deleting rows that `q` rules out keeps the number of rows for `q`.
  pub rowcount-delete_keep :
      (q p : A → Bool) (xs : List A)
      → ((x : A) → p x ≡ true → q x ≡ false)
      → rowcount q (delete p xs) ≡ rowcount q xs
  unfolding rowcount delete select
  rowcount-delete_keep q p [] h = refl
  rowcount-delete_keep q p (x ∷ xs) h = ground (arith, h x, rowcount-delete_keep q p xs h)

  pub rowcount-delete-le : (q p : A → Bool) (xs : List A) → rowcount q (delete p xs) ≤ rowcount q xs
  unfolding rowcount delete select
  rowcount-delete-le q p [] = ground arith
  rowcount-delete-le q p (x ∷ xs) = ground (arith, rowcount-delete-le q p xs)

  -- What a query for one row finds, it finds among the rows that match.
  pub fetch_one-rowcount : (p : A → Bool) (xs : List A) → rowcount p xs ≡ 0 → fetch_one p xs ≡ none
  unfolding rowcount fetch_one
  fetch_one-rowcount p [] h = refl
  fetch_one-rowcount p (x ∷ xs) h = ground (arith, fetch_one-rowcount p xs)

  pub fetch_one_holds : (p : A → Bool) (xs : List A) {x : A} → fetch_one p xs ≡ some x → p x ≡ true
  unfolding fetch_one
  fetch_one_holds p [] h = cc
  fetch_one_holds p (y ∷ ys) {x = z} h = ground (arith, fetch_one_holds p ys {x = z})

  pub select-append :
      (p : A → Bool) (xs ys : List A) → select p (xs ++ ys) ≡ select p xs ++ select p ys
  unfolding select
  select-append p [] ys = refl
  select-append p (x ∷ xs) ys = ground (arith, select-append p xs ys)

  -- A statement whose condition matches no row changes nothing.
  pub update-of_none :
      (p : A → Bool) (f : A → A) (xs : List A) → rowcount p xs ≡ 0 → update p f xs ≡ xs
  unfolding rowcount update
  update-of_none p f [] h = refl
  update-of_none p f (x ∷ xs) h = ground (arith, update-of_none p f xs)

  -- The row that a key finds after an update that keeps the key.
  pub fetch_one-update :
      (q p : A → Bool) (f : A → A) (xs : List A)
      → ((x : A) → q (f x) ≡ q x)
      → fetch_one q (update p f xs)
        ≡ elim (fetch_one q xs) [ none ↦ none | some x ↦ some (assign p f x) ]
  unfolding fetch_one update
  fetch_one-update q p f [] h = refl
  fetch_one-update q p f (x ∷ xs) h = ground (arith, h x, fetch_one-update q p f xs h)

  pub fetch_one-insert :
      (q : A → Bool) (x : A) (xs : List A)
      → fetch_one q (insert x xs)
        ≡ elim (fetch_one q xs) [ none ↦ (if q x then some x else none) | some y ↦ some y ]
  unfolding fetch_one insert
  fetch_one-insert q x [] = refl
  fetch_one-insert q x (y ∷ ys) = ground (arith, fetch_one-insert q x ys)

  -- A key is free exactly when the query for it finds nothing.
  pub is_free-fetch_one :
      (p : A → Bool) (xs : List A) → (rowcount p xs == 0) ≡ not (is_some (fetch_one p xs))
  unfolding rowcount fetch_one
  is_free-fetch_one p [] = refl
  is_free-fetch_one p (x ∷ xs) = ground (arith, is_free-fetch_one p xs)

  pub rowcount_found :
      (p q : A → Bool) (xs : List A) {x : A}
      → fetch_one p xs ≡ some x
      → q x ≡ true
      → 1 ≤ rowcount q xs
  unfolding fetch_one rowcount
  rowcount_found p q [] e h = cc
  rowcount_found p q (y ∷ ys) {x = x} e h = ground (arith, rowcount_found p q ys {x = x})

  -- A row that any query finds is the row that its own key finds.
  pub fetch_one-key :
      (p q : A → Bool) (xs : List A) {x : A}
      → fetch_one p xs ≡ some x
      → rowcount q xs ≤ 1
      → q x ≡ true
      → fetch_one q xs ≡ some x
  unfolding fetch_one rowcount
  fetch_one-key p q [] e k h = cc
  fetch_one-key p q (y ∷ ys) {x = x} e k h =
      ground (arith, fetch_one-key p q ys {x = x}, rowcount_found p q ys {x = x})
