-- ===== src/TokenStore/Repeat.antt =====
-- A second `mint_tokens_if_absent` for a session: the webhook and the success page both call it.
use ebook_automation.Raises.{returned}
use ebook_automation.Crypto.{Crypto, Minted}
use ebook_automation.TokenStore.Schema.{TokenRow, Db}
use ebook_automation.TokenStore.Mint.{
  MintResult, cached, decrypt_rows, mint_or_read, mint_tokens_if_absent, from_rows,
  max_tokens_per_session,
}
use ebook_automation.TokenStore.Idempotence.{session_rows, mint_tokens_stored}
use ebook_automation.Common.{
  ℕ, ◌≤◌, String, ◌≡◌, refl, sym, ◌∙◌, ◌≢◌, true, Option, List, [], ◌∷◌, arith,
}

module _ (c : Crypto) (s : String) (pi : Option String) (now : ℕ) where
  -- A call that finds rows of the session returns their tokens and writes nothing.
  mint_again :
      (rows : List TokenRow) (count : ℕ) (random : ℕ → Minted) (db : Db) {ts : List String}
      → decrypt_rows c rows ≡ returned ts
      → ts ≢ []
      → mint_or_read c rows s count pi now random db ≡ (cached c ts, db)
  unfolding mint_or_read from_rows decrypt_rows
  mint_again [] count random db {ts = ts} e ne = absurd (ne (sym (returned_injective e)))
    where
      returned_injective : returned [] ≡ returned ts → [] ≡ ts
      returned_injective p = ground arith
  mint_again (r ∷ rs) count random db e ne = rw e refl

  in_limits :
      (count : ℕ) (random : ℕ → Minted) (db : Db)
      → 1 ≤ count
      → count ≤ max_tokens_per_session
      → mint_tokens_if_absent c s count pi now random db
        ≡ mint_or_read c (session_rows c s db) s count pi now random db
  unfolding mint_tokens_if_absent
  in_limits count random db lo hi = ground arith

-- If a call returned at least one token for a session, a later call for the session, whatever
-- its time, its payment intent, its randomness and its count within the limits, returns the same
-- tokens as a cache hit and leaves the database as it is.
pub mint_tokens_twice :
    (c : Crypto) (s : String) (pi : Option String) (now count : ℕ) (random : ℕ → Minted) (db : Db)
    {m : MintResult} (pi' : Option String) (now' count' : ℕ) (random' : ℕ → Minted)
    → (mint_tokens_if_absent c s count pi now random db).0 ≡ returned m
    → m.tokens ≢ []
    → 1 ≤ count'
    → count' ≤ max_tokens_per_session
    → let db' = (mint_tokens_if_absent c s count pi now random db).1 in
      mint_tokens_if_absent c s count' pi' now' random' db'
      ≡ (returned (record { is_ok = true; tokens = m.tokens; from_cache = true }), db')
mint_tokens_twice c s pi now count random db pi' now' count' random' e ne lo hi =
    let db' = (mint_tokens_if_absent c s count pi now random db).1 in
    in_limits c s pi' now' count' random' db' lo hi
    ∙ mint_again c s pi' now' (session_rows c s db') count' random' db'
        (mint_tokens_stored c s pi now count random db e) ne
