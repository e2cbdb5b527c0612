-- ===== src/JobStore/Migrations.antt =====
-- `_apply_migrations` of web_service/job_store.py, on the names of the columns of `jobs`.
use ebook_automation.Raises.{Result, returned, raised, operational_error, ◌>>=◌}
use ebook_automation.Sql
use ebook_automation.Sql.{rowcount}
use ebook_automation.Sql.Laws.{rowcount-insert}
use ebook_automation.Common.{
  ◌≤◌, String, ◌≡◌, refl, inl, inr, Bool, List, [], ◌∷◌, arith, eq_iff, str_eq, ◌==◌, if◌then◌else◌,
  Bool-cases,
}

-- `_LATER_COLUMNS`, by name
abbrev pub later_columns : List String
later_columns =
    "gemini_cost_usd" ∷ "vqa_score" ∷ "vqa_pass" ∷ "vqa_cost_usd" ∷ "vqa_skipped_reason"
    ∷ "original_filename" ∷ "parent_job_id" ∷ "resend_message_id" ∷ "kindle_delivery_status" ∷ []

abbrev pub is_column : String → String → Bool
is_column col c = str_eq c col

-- `ALTER TABLE jobs ADD COLUMN`: SQLite refuses a name that the table has
unfoldable pub add_column : String → List String → Result (List String)
add_column col columns =
    if rowcount (is_column col) columns == 0
    then returned (Sql.insert col columns)
    else raised operational_error

-- The loop: `existing` is what `PRAGMA table_info` gave before it, under the write lock.
unfoldable pub add_missing : List String → List String → List String → Result (List String)
add_missing existing [] columns = returned columns
add_missing existing (col ∷ cols) columns =
    (if rowcount (is_column col) existing == 0 then add_column col columns else returned columns)
    >>= add_missing existing cols

unfoldable pub apply_migrations : List String → Result (List String)
apply_migrations columns = add_missing columns later_columns columns

abbrev Distinct : List String → Type 0
Distinct [] = Unit {0}
Distinct (c ∷ cs) = (rowcount (is_column c) cs ≡ 0) × Distinct cs

-- The table still has of the columns to come what it had at first.
abbrev Agree : List String → List String → List String → Type 0
Agree existing columns [] = Unit {0}
Agree existing columns (c ∷ cs) =
    (rowcount (is_column c) existing ≡ rowcount (is_column c) columns) × Agree existing columns cs

abbrev pub Present : List String → List String → Type 0
Present columns [] = Unit {0}
Present columns (c ∷ cs) = (1 ≤ rowcount (is_column c) columns) × Present columns cs

abbrev pub Keeps : List String → List String → Type 0
Keeps columns out = (k : String) → rowcount (is_column k) columns ≤ rowcount (is_column k) out

Agree-insert :
    (existing columns : List String) (d : String) (cs : List String)
    → rowcount (is_column d) cs ≡ 0
    → Agree existing columns cs
    → Agree existing (Sql.insert d columns) cs
unfolding rowcount
Agree-insert existing columns d [] z a = tt
Agree-insert existing columns d (c ∷ cs) z a = (
  ground (arith, rowcount-insert (is_column c) d columns, eq_iff c d, eq_iff d c),
  Agree-insert existing columns d cs (ground arith) a.1,
)

Agree-refl : (columns cs : List String) → Agree columns columns cs
Agree-refl columns [] = tt
Agree-refl columns (c ∷ cs) = (refl, Agree-refl columns cs)

-- The loop succeeds, keeps the columns that there were, and leaves each of the wanted ones.
add_missing_total :
    (existing cs columns : List String)
    → Distinct cs
    → Agree existing columns cs
    → (out : List String) × (add_missing existing cs columns ≡ returned out)
      × Keeps columns out
      × Present out cs
unfolding add_missing add_column
add_missing_total existing [] columns d a = (columns, refl, λ k. omega arith, tt)
add_missing_total existing (c ∷ cs) columns d a =
    elim (Bool-cases (rowcount (is_column c) existing == 0)) [
      | inl absent ↦
          let (out, e, keep, all) =
            add_missing_total existing cs (Sql.insert c columns) d.1
              (Agree-insert existing columns c cs d.0 a.1) in
          (
            out,
            ground (arith, a.0),
            λ k. omega (arith, keep k, rowcount-insert (is_column k) c columns, grows k c columns),
            (ground (arith, keep c, rowcount-insert (is_column c) c columns, eq_iff c c), all),
          )
      | inr present ↦
          let (out, e, keep, all) = add_missing_total existing cs columns d.1 a.1 in
          (out, ground arith, keep, (ground (arith, keep c, a.0), all))
    ]
  where
    grows :
        (k c : String) (xs : List String)
        → rowcount (is_column k) xs ≤ rowcount (is_column k) (Sql.insert c xs)
    grows k c xs = ground (arith, rowcount-insert (is_column k) c xs)

-- With all the columns there, the loop changes nothing.
add_missing-of_Present :
    (existing cs columns : List String)
    → Present existing cs
    → add_missing existing cs columns ≡ returned columns
unfolding add_missing
add_missing-of_Present existing [] columns p = refl
add_missing-of_Present existing (c ∷ cs) columns p =
    ground (arith, add_missing-of_Present existing cs columns p.1)

later_columns-Distinct : Distinct later_columns
unfolding rowcount
later_columns-Distinct = (refl, (refl, (refl, (refl, (refl, (refl, (refl, (refl, (refl, tt)))))))))

-- On every table the migration succeeds, keeps each column and leaves all the later ones, and a
-- second migration of what it leaves succeeds and changes nothing.
pub apply_migrations_idempotent :
    (columns : List String)
    → (out : List String) × (apply_migrations columns ≡ returned out)
      × Keeps columns out
      × Present out later_columns
      × (apply_migrations out ≡ returned out)
unfolding apply_migrations
apply_migrations_idempotent columns =
    let (out, e, keep, all) =
      add_missing_total columns later_columns columns later_columns-Distinct
        (Agree-refl columns later_columns) in
    (out, e, keep, all, add_missing-of_Present out later_columns out all)
