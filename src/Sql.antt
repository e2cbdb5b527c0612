-- ===== src/Sql.antt =====
-- The SQL statements of the stores of web_service, on a table that is the list of its rows in
-- rowid order. A function of a store whose statements run in one transaction is one step; where
-- they do not, each statement is a step of its own.
pub mod Laws
use ebook_automation.Common.{
  ℕ, suc, Bool, not, Option, none, some, List, [], ◌∷◌, ◌++◌, map, if◌then◌else◌,
}

module _ {ℓ} {A : Type ℓ} where
  -- `SELECT ... WHERE p ORDER BY rowid`, all rows
  unfoldable pub select : (A → Bool) → List A → List A
  select p [] = []
  select p (x ∷ xs) = let rest = select p xs in if p x then x ∷ rest else rest

  -- `fetchone()` of such a query
  unfoldable pub fetch_one : (A → Bool) → List A → Option A
  fetch_one p [] = none
  fetch_one p (x ∷ xs) = let rest = fetch_one p xs in if p x then some x else rest

  -- the rows that a statement's `WHERE p` matches: `cursor.rowcount` of an UPDATE or a DELETE
  unfoldable pub rowcount : (A → Bool) → List A → ℕ
  rowcount p [] = 0
  rowcount p (x ∷ xs) = let rest = rowcount p xs in if p x then suc rest else rest

  abbrev pub assign : (A → Bool) → (A → A) → A → A
  assign p f x = if p x then f x else x

  -- `UPDATE ... SET f WHERE p`
  unfoldable pub update : (A → Bool) → (A → A) → List A → List A
  update p f [] = []
  update p f (x ∷ xs) = assign p f x ∷ update p f xs

  -- `DELETE ... WHERE p`
  unfoldable pub delete : (A → Bool) → List A → List A
  delete p xs = select (λ x. not (p x)) xs

  -- `INSERT`: the new row has the largest rowid
  unfoldable pub insert : A → List A → List A
  insert x xs = xs ++ x ∷ []
