-- ===== src/TokenStore/Mint.antt =====
-- `mint_tokens_if_absent` of web_service/token_store.py.
use ebook_automation.Raises.{Result, returned, raised, value_error, invalid_token, ◌>>=◌}
use ebook_automation.Sql
use ebook_automation.Crypto.{Crypto, Minted}
use ebook_automation.TokenStore.Schema.{TokenRow, Db, has_hash, in_pack}
use ebook_automation.Common.{
  ℕ, zero, suc, ◌+◌, ◌*◌, String, Bool, true, false, Option, none, some, List, [], ◌∷◌, map, ltb,
  ◌==◌, if◌then◌else◌,
}

abbrev pub max_tokens_per_session : ℕ
max_tokens_per_session = 25

-- 30 days
abbrev pub token_ttl_seconds : ℕ
token_ttl_seconds = 30 * 24 * 3600

pub record MintResult : Type 0 where
  pub is_ok : Bool
  pub tokens : List String
  pub from_cache : Bool

-- a tuple of the list `generated`
pub record Generated : Type 0 where
  pub token_str : String
  pub token_hash : ℕ
  pub encrypted : String

module _ (c : Crypto) where
  unfoldable pub decrypt_row : TokenRow → Result String
  decrypt_row r = elim (c.decrypt r.key_version r.token_encrypted) [
    | none ↦ raised invalid_token
    | some t ↦ returned t
  ]

  -- the loops that decrypt the rows of a session in rowid order
  unfoldable pub decrypt_rows : List TokenRow → Result (List String)
  unfolding decrypt_row
  decrypt_rows [] = returned []
  decrypt_rows (r ∷ rs) = do t ← decrypt_row r; ts ← decrypt_rows rs; returned (t ∷ ts)

  -- `mint_token` and the encryption of what it gave; `random i` is the i-th call's randomness
  unfoldable pub generate_one : Minted → Generated
  generate_one m = record {
    token_str = m.text;
    token_hash = c.token_hash m.text;
    encrypted = c.encrypt 1 m.iv m.text;
  }

  -- `for _ in range(count)`, from the i-th call on
  unfoldable pub generate : (ℕ → Minted) → ℕ → ℕ → List Generated
  unfolding generate_one
  generate random i zero = []
  generate random i (suc count) = generate_one (random i) ∷ generate random (suc i) count

  abbrev pub new_row : String → Option String → ℕ → Generated → TokenRow
  new_row session_id payment_intent_id now g = record {
    token_hash = g.token_hash;
    token_encrypted = g.encrypted;
    key_version = 1;
    pack_id = session_id;
    payment_intent_id = payment_intent_id;
    created_at = now;
    expires_at = now + token_ttl_seconds;
    used = false;
    used_at = none;
    disputed = false;
    disputed_at = none;
  }

  -- The loop of `INSERT OR IGNORE`: the rows then, and `invariant_violated`. A digest that the
  -- table already has inserts nothing and ends the loop.
  unfoldable pub insert_all :
      String → Option String → ℕ → List Generated → List TokenRow → List TokenRow × Bool
  insert_all session_id payment_intent_id now [] rows = (rows, false)
  insert_all session_id payment_intent_id now (g ∷ gs) rows =
      let rest =
        insert_all session_id payment_intent_id now gs
          (Sql.insert (new_row session_id payment_intent_id now g) rows) in
      if Sql.rowcount (has_hash g.token_hash) rows == 0 then rest else (rows, true)

  -- `MintResult(ok=True, tokens=tokens, from_cache=True)`
  abbrev pub cached : List String → Result MintResult
  cached tokens = returned (record { is_ok = true; tokens = tokens; from_cache = true })

  -- a result read back from the table
  unfoldable pub from_rows : List TokenRow → Result MintResult
  from_rows rows = decrypt_rows rows >>= cached

  -- a result that was read back: committed, or rolled back if a decryption raised
  abbrev pub settle : Result MintResult → Db → Db → Result MintResult × Db
  settle (returned m) committed before = (returned m, committed)
  settle (raised e) committed before = (raised e, before)

  -- step 2: no row of the session is there yet
  unfoldable pub mint_fresh :
      String → ℕ → Option String → ℕ → (ℕ → Minted) → Db → Result MintResult × Db
  mint_fresh session_id count payment_intent_id now random db =
      let generated = generate random 0 count in
      let (rows, violated) = insert_all session_id payment_intent_id now generated db.tokens in
      if violated
      then settle (from_rows (Sql.select (in_pack session_id) rows)) (record db { tokens = rows })
          db
      else (
        returned (record {
          is_ok = true;
          tokens = map (λ g. g.token_str) generated;
          from_cache = false;
        }),
        record db { tokens = rows },
      )

  -- step 1: the rows of the session decide
  unfoldable pub mint_or_read :
      List TokenRow → String → ℕ → Option String → ℕ → (ℕ → Minted) → Db → Result MintResult × Db
  mint_or_read [] session_id count payment_intent_id now random db =
      mint_fresh session_id count payment_intent_id now random db
  mint_or_read (r ∷ rs) session_id count payment_intent_id now random db =
      settle (from_rows (r ∷ rs)) db db

  unfoldable pub mint_tokens_if_absent :
      String → ℕ → Option String → ℕ → (ℕ → Minted) → Db → Result MintResult × Db
  mint_tokens_if_absent session_id count payment_intent_id now random db =
      if ltb max_tokens_per_session count
      then (raised value_error, db)
      else if ltb count 1
      then (raised value_error, db)
      else mint_or_read (Sql.select (in_pack session_id) db.tokens) session_id count
          payment_intent_id now random db
