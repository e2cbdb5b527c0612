-- ===== src/TokenStore/Lookup.antt =====
-- The read-only lookups of web_service/token_store.py.
use ebook_automation.Raises.{Result, returned, ◌>>=◌}
use ebook_automation.Sql
use ebook_automation.Crypto.{Crypto}
use ebook_automation.TokenStore.Schema.{TokenRow, Db, in_pack}
use ebook_automation.TokenStore.Mint.{decrypt_rows}
use ebook_automation.Common.{max, ℕ, String, Option, none, some, List, [], ◌∷◌, is_text}

-- `max(row["expires_at"] for row in rows)`
unfoldable pub latest_expiry : TokenRow → List TokenRow → ℕ
latest_expiry r [] = r.expires_at
latest_expiry r (s ∷ rs) = max r.expires_at (latest_expiry s rs)

unfoldable pub tokens_and_expiry : Crypto → List TokenRow → Result (Option (List String × ℕ))
unfolding latest_expiry
tokens_and_expiry c [] = returned none
tokens_and_expiry c (r ∷ rs) = do
  tokens ← decrypt_rows c (r ∷ rs)
  returned (some (tokens, latest_expiry r rs))

unfoldable pub get_tokens_for_session : Crypto → String → Db → Result (Option (List String × ℕ))
unfolding tokens_and_expiry
get_tokens_for_session c session_id db =
    tokens_and_expiry c (Sql.select (in_pack session_id) db.tokens)

unfoldable pub find_session_by_payment_intent : String → Db → Option String
find_session_by_payment_intent pi_id db =
    elim (Sql.fetch_one (λ r. is_text r.payment_intent_id pi_id) db.tokens) [
      | none ↦ none
      | some r ↦ some r.pack_id
    ]
