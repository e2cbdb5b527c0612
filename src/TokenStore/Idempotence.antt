-- ===== src/TokenStore/Idempotence.antt =====
-- What `mint_tokens_if_absent` of web_service/token_store.py returns, against what the table then
-- holds for the session.
use ebook_automation.Raises.{Result, returned, raised, ◌>>=◌}
use ebook_automation.Sql
use ebook_automation.Sql.Laws.{select-append}
use ebook_automation.Crypto.{Crypto, Minted}
use ebook_automation.TokenStore.Schema.{TokenRow, Db, in_pack}
use ebook_automation.TokenStore.Mint.{
  cached, MintResult, Generated, decrypt_rows, settle, new_row, insert_all, mint_fresh,
  mint_or_read, mint_tokens_if_absent, generate, from_rows,
}
use mathlib.Core.List.{append_assoc, append-nil}
use ebook_automation.Common.{
  ℕ, zero, suc, String, ◌≡◌, refl, sym, ap, ◌∙◌, inl, inr, false, Option, List, [], ◌∷◌, ◌++◌, map,
  arith, eq_iff, ltb, Bool-cases,
}

insert-append {ℓ} : {A : Type ℓ} (x : A) (xs ys : List A) → Sql.insert x xs ++ ys ≡ xs ++ x ∷ ys
unfolding Sql.insert
insert-append x xs ys = append_assoc xs (x ∷ []) ys

module _ (c : Crypto) (s : String) where
  -- the rows of the session, in rowid order
  abbrev pub session_rows : Db → List TokenRow
  session_rows db = Sql.select (in_pack s) db.tokens

  -- the tokens that the table holds for the session
  abbrev pub stored_tokens : Db → Result (List String)
  stored_tokens db = decrypt_rows c (session_rows db)

  module _ (pi : Option String) (now : ℕ) where
    -- Without a collision the loop appends a row for each token.
    pub insert_all_fine :
        (gs : List Generated) (rows : List TokenRow)
        → (insert_all c s pi now gs rows).1 ≡ false
        → (insert_all c s pi now gs rows).0 ≡ rows ++ map (new_row c s pi now) gs
    unfolding insert_all
    insert_all_fine [] rows e = sym (append-nil rows)
    insert_all_fine (g ∷ gs) rows e = ground (
      arith,
      insert_all_fine gs (Sql.insert (new_row c s pi now g) rows),
      insert-append (new_row c s pi now g) rows (map (new_row c s pi now) gs),
    )

    select_new_rows :
        (gs : List Generated)
        → Sql.select (in_pack s) (map (new_row c s pi now) gs) ≡ map (new_row c s pi now) gs
    unfolding Sql.select
    select_new_rows [] = refl
    select_new_rows (g ∷ gs) = ground (arith, eq_iff s s, select_new_rows gs)

    -- What was just encrypted is decrypted to the tokens.
    decrypt_generated :
        (random : ℕ → Minted) (i n : ℕ)
        → decrypt_rows c (map (new_row c s pi now) (generate c random i n))
          ≡ returned (map (λ g. g.token_str) (generate c random i n))
    unfolding decrypt_rows generate
    decrypt_generated random i zero = refl
    decrypt_generated random i (suc n) = ground (
      arith,
      c.decrypt-encrypt 1 (random i).iv (random i).text,
      decrypt_generated random (suc i) n,
    )

    -- A minted session reads back as the tokens that were generated.
    fresh_reads :
        (gs : List Generated) (rows : List TokenRow)
        → (insert_all c s pi now gs rows).1 ≡ false
        → Sql.select (in_pack s) rows ≡ []
        → Sql.select (in_pack s) (insert_all c s pi now gs rows).0 ≡ map (new_row c s pi now) gs
    fresh_reads gs rows fine none_yet = rw (insert_all_fine gs rows fine) (
        select-append (in_pack s) rows (map (new_row c s pi now) gs)
        ∙ rw (none_yet, select_new_rows gs))

    -- what a call reports, against the table that it leaves
    abbrev Reads : Result MintResult × Db → Type 0
    Reads (returned m, db') = stored_tokens db' ≡ returned m.tokens
    Reads (raised e, db') = Unit {0}

    cached-Reads :
        (r : Result (List String)) (committed before : Db)
        → stored_tokens committed ≡ r
        → Reads (settle c (r >>= cached c) committed before)
    cached-Reads (returned ts) committed before e = e
    cached-Reads (raised x) committed before e = tt

    settle-Reads :
        (rows : List TokenRow) (committed before : Db)
        → session_rows committed ≡ rows
        → Reads (settle c (from_rows c rows) committed before)
    unfolding from_rows
    settle-Reads rows committed before e =
        cached-Reads (decrypt_rows c rows) committed before (ap (decrypt_rows c) e)

    mint_fresh-Reads :
        (count : ℕ) (random : ℕ → Minted) (db : Db)
        → session_rows db ≡ []
        → Reads (mint_fresh c s count pi now random db)
    unfolding mint_fresh
    mint_fresh-Reads count random db e =
        let gs = generate c random 0 count in
        let rows = (insert_all c s pi now gs db.tokens).0 in
        elim (Bool-cases (insert_all c s pi now gs db.tokens).1) [
          | inl violated ↦
              rw violated
                (settle-Reads (Sql.select (in_pack s) rows) (record db { tokens = rows }) db refl)
          | inr fine ↦ rw fine (
              ap (decrypt_rows c) (fresh_reads gs db.tokens fine e)
              ∙ decrypt_generated random 0 count)
        ]

    mint_or_read-Reads :
        (rows : List TokenRow) (count : ℕ) (random : ℕ → Minted) (db : Db)
        → session_rows db ≡ rows
        → Reads (mint_or_read c rows s count pi now random db)
    unfolding mint_or_read
    mint_or_read-Reads [] count random db e = mint_fresh-Reads count random db e
    mint_or_read-Reads (r ∷ rs) count random db e = settle-Reads (r ∷ rs) db db e

    mint_tokens-Reads :
        (count : ℕ) (random : ℕ → Minted) (db : Db)
        → Reads (mint_tokens_if_absent c s count pi now random db)
    unfolding mint_tokens_if_absent
    mint_tokens-Reads count random db = elim (Bool-cases (ltb 25 count)) [
      | inl many ↦ rw many tt
      | inr ok ↦ elim (Bool-cases (ltb count 1)) [
        | inl few ↦ rw (ok, few) tt
        | inr enough ↦ rw (ok, enough) (mint_or_read-Reads (session_rows db) count random db refl)
      ]
    ]

    Reads-returned :
        (o : Result MintResult × Db) {m : MintResult}
        → o.0 ≡ returned m
        → Reads o
        → stored_tokens o.1 ≡ returned m.tokens
    Reads-returned (returned m', db') {m = m} e h = h ∙ ground arith
    Reads-returned (raised x, db') e h = cc

    -- Whatever the call returns, minted or read back, and also after a collision of digests, is
    -- what the table then holds for the session.
    pub mint_tokens_stored :
        (count : ℕ) (random : ℕ → Minted) (db : Db) {m : MintResult}
        → (mint_tokens_if_absent c s count pi now random db).0 ≡ returned m
        → stored_tokens (mint_tokens_if_absent c s count pi now random db).1 ≡ returned m.tokens
    mint_tokens_stored count random db e =
        Reads-returned (mint_tokens_if_absent c s count pi now random db) e
          (mint_tokens-Reads count random db)
