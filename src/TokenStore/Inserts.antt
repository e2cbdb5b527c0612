-- ===== src/TokenStore/Inserts.antt =====
-- What `mint_tokens_if_absent` may have done to the table of tokens.
use ebook_automation.Raises.{Result, returned, raised}
use ebook_automation.Sql
use ebook_automation.Sql.{rowcount}
use ebook_automation.Sql.Laws.{rowcount-insert}
use ebook_automation.Crypto.{Crypto, Minted}
use ebook_automation.TokenStore.Schema.{TokenRow, Db, has_hash, in_pack}
use ebook_automation.TokenStore.Mint.{
  MintResult, Generated, settle, new_row, insert_all, mint_fresh, mint_or_read,
  mint_tokens_if_absent, generate, from_rows,
}
use ebook_automation.Common.{
  ℕ, ◌+◌, ◌≤◌, String, ◌≡◌, refl, ap, ◌⊎◌, inl, inr, Bool, Option, List, [], ◌∷◌, arith, ltb, ◌==◌,
  Bool-cases,
}

module _ (c : Crypto) (session_id : String) (payment_intent_id : Option String) (now : ℕ) where
  -- New rows are unused, so a condition that holds of new rows by their digest alone grows with
  -- the rows of that digest.
  pub insert_all_grows :
      (h : ℕ) (q : TokenRow → Bool) (gs : List Generated) (rows : List TokenRow)
      → ((g : Generated) → q (new_row c session_id payment_intent_id now g) ≡ (g.token_hash == h))
      → let (rows', _) = insert_all c session_id payment_intent_id now gs rows in
        rowcount q rows' + rowcount (has_hash h) rows
        ≡ rowcount q rows + rowcount (has_hash h) rows'
  unfolding insert_all
  insert_all_grows h q [] rows e = refl
  insert_all_grows h q (g ∷ gs) rows e = ground (
    arith,
    e g,
    insert_all_grows h q gs (Sql.insert (new_row c session_id payment_intent_id now g) rows) e,
    rowcount-insert q (new_row c session_id payment_intent_id now g) rows,
    rowcount-insert (has_hash h) (new_row c session_id payment_intent_id now g) rows,
  )

  pub insert_all-le :
      (h : ℕ) (gs : List Generated) (rows : List TokenRow)
      → rowcount (has_hash h) rows
        ≤ rowcount (has_hash h) (insert_all c session_id payment_intent_id now gs rows).0
  unfolding insert_all
  insert_all-le h [] rows = omega arith
  insert_all-le h (g ∷ gs) rows = ground (
    arith,
    insert_all-le h gs (Sql.insert (new_row c session_id payment_intent_id now g) rows),
    rowcount-insert (has_hash h) (new_row c session_id payment_intent_id now g) rows,
  )

  same_digest :
      (h k : ℕ) (rows : List TokenRow)
      → h ≡ k
      → rowcount (has_hash h) rows ≡ rowcount (has_hash k) rows
  same_digest h k rows e = ap (λ d. rowcount (has_hash d) rows) e

  -- A digest is inserted only where the table does not have it.
  pub insert_all_keyed :
      (h : ℕ) (gs : List Generated) (rows : List TokenRow)
      → rowcount (has_hash h) rows ≤ 1
      → rowcount (has_hash h) (insert_all c session_id payment_intent_id now gs rows).0 ≤ 1
  unfolding insert_all
  insert_all_keyed h [] rows k = k
  insert_all_keyed h (g ∷ gs) rows k = ground (
    arith,
    insert_all_keyed h gs (Sql.insert (new_row c session_id payment_intent_id now g) rows),
    rowcount-insert (has_hash h) (new_row c session_id payment_intent_id now g) rows,
    same_digest h g.token_hash rows,
  )

  -- The two tables that a call may leave.
  abbrev pub WasMinted : ℕ → (ℕ → Minted) → Db → Db → Type 0
  WasMinted count random db db' =
      (db' ≡ db)
      ⊎ (db' ≡ record db {
        tokens =
            (insert_all c session_id payment_intent_id now (generate c random 0 count) db.tokens).0;
      })

  settle_cases :
      (r : Result MintResult) (committed before : Db)
      → ((settle c r committed before).1 ≡ before) ⊎ ((settle c r committed before).1 ≡ committed)
  settle_cases (returned m) committed before = inr refl
  settle_cases (raised e) committed before = inl refl

  mint_fresh_cases :
      (count : ℕ) (random : ℕ → Minted) (db : Db)
      → WasMinted count random db (mint_fresh c session_id count payment_intent_id now random db).1
  unfolding mint_fresh
  mint_fresh_cases count random db =
      let made =
        insert_all c session_id payment_intent_id now (generate c random 0 count) db.tokens in
      elim (Bool-cases made.1) [
        | inl violated ↦ rw violated (
            settle_cases (from_rows c (Sql.select (in_pack session_id) made.0))
              (record db { tokens = made.0 }) db)
        | inr fine ↦ rw fine (inr refl)
      ]

  mint_or_read_cases :
      (rows : List TokenRow) (count : ℕ) (random : ℕ → Minted) (db : Db)
      → WasMinted count random db
          (mint_or_read c rows session_id count payment_intent_id now random db).1
  unfolding mint_or_read
  mint_or_read_cases [] count random db = mint_fresh_cases count random db
  mint_or_read_cases (r ∷ rs) count random db = elim (settle_cases (from_rows c (r ∷ rs)) db db) [
    | inl e ↦ inl e
    | inr e ↦ inl e
  ]

  -- The call leaves the database alone, or leaves in `tokens` what the loop of inserts made of
  -- it and the other tables as they were.
  pub mint_tokens_cases :
      (count : ℕ) (random : ℕ → Minted) (db : Db)
      → WasMinted count random db
          (mint_tokens_if_absent c session_id count payment_intent_id now random db).1
  unfolding mint_tokens_if_absent
  mint_tokens_cases count random db = elim (Bool-cases (ltb 25 count)) [
    | inl many ↦ rw many (inl refl)
    | inr ok ↦ elim (Bool-cases (ltb count 1)) [
      | inl few ↦ rw (ok, few) (inl refl)
      | inr enough ↦
          rw (ok, enough)
            (mint_or_read_cases (Sql.select (in_pack session_id) db.tokens) count random db)
    ]
  ]
