-- ===== src/JobStore/Children.antt =====
-- `list_children` of web_service/job_store.py: `ORDER BY created_at ASC`.
use ebook_automation.Sql
use ebook_automation.Sql.{rowcount}
use ebook_automation.JobStore.Schema.{Job}
use ebook_automation.Common.{
  ℕ, suc, ◌+◌, ◌≤◌, String, ◌≡◌, refl, inl, inr, Bool, ◌&&◌, List, [], ◌∷◌, arith, ltb,
  if◌then◌else◌, is_text, Bool-cases,
}

-- into a list that is in order, behind the rows that are as old
unfoldable pub insert_by_age : Job → List Job → List Job
insert_by_age j [] = j ∷ []
insert_by_age j (k ∷ ks) =
    let rest = insert_by_age j ks in if ltb j.created_at k.created_at then j ∷ k ∷ ks else k ∷ rest

-- rows in rowid order, put in the order of their creation
unfoldable pub order_by_age : List Job → List Job → List Job
unfolding insert_by_age
order_by_age sorted [] = sorted
order_by_age sorted (j ∷ js) = order_by_age (insert_by_age j sorted) js

abbrev pub is_child : String → Job → Bool
is_child parent j = is_text j.parent_job_id parent

unfoldable pub list_children : String → List Job → List Job
unfolding order_by_age
list_children parent jobs = order_by_age [] (Sql.select (is_child parent) jobs)

-- a lower bound of the ages
abbrev pub AllFrom : ℕ → List Job → Type 0
AllFrom t [] = Unit {0}
AllFrom t (j ∷ js) = (t ≤ j.created_at) × AllFrom t js

abbrev pub IsOldestFirst : List Job → Type 0
IsOldestFirst [] = Unit {0}
IsOldestFirst (j ∷ js) = AllFrom j.created_at js × IsOldestFirst js

AllFrom-trans : (s t : ℕ) (js : List Job) → s ≤ t → AllFrom t js → AllFrom s js
AllFrom-trans s t [] le h = tt
AllFrom-trans s t (j ∷ js) le h = (omega arith, AllFrom-trans s t js le h.1)

insert-AllFrom :
    (t : ℕ) (j : Job) (js : List Job)
    → t ≤ j.created_at
    → AllFrom t js
    → AllFrom t (insert_by_age j js)
unfolding insert_by_age
insert-AllFrom t j [] le h = (le, tt)
insert-AllFrom t j (k ∷ ks) le h = ground (arith, insert-AllFrom t j ks le h.1)

insert-IsOldestFirst :
    (j : Job) (js : List Job) → IsOldestFirst js → IsOldestFirst (insert_by_age j js)
unfolding insert_by_age
insert-IsOldestFirst j [] h = (tt, tt)
insert-IsOldestFirst j (k ∷ ks) h = elim (Bool-cases (ltb j.created_at k.created_at)) [
  | inl lt ↦
      rw lt ((ground arith, AllFrom-trans j.created_at k.created_at ks (ground arith) h.0), h)
  | inr ge ↦
      rw ge (insert-AllFrom k.created_at j ks (ground arith) h.0, insert-IsOldestFirst j ks h.1)
]

rowcount-insert_by_age :
    (q : Job → Bool) (j : Job) (js : List Job)
    → rowcount q (insert_by_age j js) ≡ (if q j then suc (rowcount q js) else rowcount q js)
unfolding insert_by_age Sql.rowcount
rowcount-insert_by_age q j [] = refl
rowcount-insert_by_age q j (k ∷ ks) = ground (arith, rowcount-insert_by_age q j ks)

order-IsOldestFirst :
    (sorted js : List Job) → IsOldestFirst sorted → IsOldestFirst (order_by_age sorted js)
unfolding order_by_age
order-IsOldestFirst sorted [] h = h
order-IsOldestFirst sorted (j ∷ js) h =
    order-IsOldestFirst (insert_by_age j sorted) js (insert-IsOldestFirst j sorted h)

rowcount-order_by_age :
    (q : Job → Bool) (sorted js : List Job)
    → rowcount q (order_by_age sorted js) ≡ rowcount q sorted + rowcount q js
unfolding order_by_age Sql.rowcount
rowcount-order_by_age q sorted [] = omega arith
rowcount-order_by_age q sorted (j ∷ js) =
    ground (
      arith,
      rowcount-order_by_age q (insert_by_age j sorted) js,
      rowcount-insert_by_age q j sorted,
    )

rowcount-select :
    (q p : Job → Bool) (js : List Job)
    → rowcount q (Sql.select p js) ≡ rowcount (λ j. p j && q j) js
unfolding Sql.rowcount Sql.select
rowcount-select q p [] = refl
rowcount-select q p (j ∷ js) = ground (arith, rowcount-select q p js)

-- The list is the children of the parent, each row as often as in the table, oldest first.
pub list_children_ordered :
    (parent : String) (jobs : List Job)
    → IsOldestFirst (list_children parent jobs)
      × ((q : Job → Bool)
          → rowcount q (list_children parent jobs) ≡ rowcount (λ j. is_child parent j && q j) jobs)
unfolding list_children Sql.rowcount
list_children_ordered parent jobs = (
  order-IsOldestFirst [] (Sql.select (is_child parent) jobs) tt,
  λ q. omega (
    arith,
    rowcount-order_by_age q [] (Sql.select (is_child parent) jobs),
    rowcount-select q (is_child parent) jobs,
  ),
)
