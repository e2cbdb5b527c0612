-- ===== src/Tests/Tokens.antt =====
-- The token store at one token, and at a session of three.
use ebook_automation.Raises.{returned}
use ebook_automation.Sql
use ebook_automation.TokenStore.Schema.{empty}
use ebook_automation.TokenStore.Mint.{mint_tokens_if_absent}
use ebook_automation.TokenStore.Consume
use ebook_automation.TokenStore.Consume.{
  validate_and_consume, consume_hash, reject, disputed, mark_disputed, cleanup_expired_tokens,
}
use ebook_automation.TokenStore.Refund.{refund_token}
use ebook_automation.TokenStore.Trace.{
  Call, mint, consume, refund, run, spent, refunded, minted, total, is_valid, has_refunded,
}
use ebook_automation.TokenStore.Credits.{credit}
use ebook_automation.TokenStore.Keys.{IsKeyed-empty}
use ebook_automation.TokenStore.Balance.{run-balance, single_use}
use ebook_automation.TokenStore.Outcomes.{validate_and_consume-verdict}
use ebook_automation.TokenStore.Clean.{reached, refund_restores_reachable}
use ebook_automation.TokenStore.Disputes.{dispute_revokes, usage}
use ebook_automation.Tests.Fixtures
use ebook_automation.Tests.Fixtures.{toy, token, one_token, one_token-IsKeyed}
use ebook_automation.Common.{ℕ, ◌+◌, ◌≤◌, String, ◌≡◌, refl, true, false, none, List, [], ◌∷◌}

-- a mint, a consume, its refund, a second consume, and one that is refused
abbrev calls : List Call
calls =
    mint "cs_2" 1 none 0 Fixtures.minted
    ∷ consume token 10
    ∷ refund 49 "j1" "pipeline_failed" "r1" 20
    ∷ consume token 30
    ∷ consume token 40
    ∷ []

single_use_example :
    total toy (spent toy 49) calls empty
    ≤ total toy (refunded toy 49) calls empty + total toy (minted toy 49) calls empty
single_use_example = single_use toy 49 calls

run-balance_example :
    credit 49 (run toy calls empty) + total toy (spent toy 49) calls empty
    ≡ credit 49 empty
      + total toy (refunded toy 49) calls empty
      + total toy (minted toy 49) calls empty
run-balance_example = run-balance toy 49 calls empty IsKeyed-empty

validate_and_consume-verdict_example :
    (validate_and_consume toy token 2000 one_token).0 ≡ reject Consume.invalid_or_expired 422
unfolding ebook_automation.TokenFormat.token_regex Sql.fetch_one
validate_and_consume-verdict_example =
    validate_and_consume-verdict toy token 2000 one_token one_token-IsKeyed

-- the store after one mint
abbrev minted_once : List Call
minted_once = mint "cs_2" 1 none 0 Fixtures.minted ∷ []

refund_restores_reachable_example :
    let (r, db) =
      refund_token 49 "j1" "pipeline_failed" "r1" 20
        (consume_hash 49 10 (reached toy minted_once)).1 in
    (r ≡ returned (record { refunded = true; ledgered = true; refund_id = "r1" }))
    × (db.tokens ≡ (reached toy minted_once).tokens)
unfolding consume_hash Sql.rowcount Sql.fetch_one run ebook_automation.TokenStore.Trace.step
    mint_tokens_if_absent ebook_automation.TokenStore.Mint.mint_or_read Sql.select
    ebook_automation.TokenStore.Mint.mint_fresh ebook_automation.TokenStore.Mint.insert_all
    ebook_automation.TokenStore.Mint.generate Sql.insert
refund_restores_reachable_example =
    refund_restores_reachable toy minted_once 49 10 20 "j1" "pipeline_failed" "r1" refl refl refl

dispute_revokes_example :
    let db' = (mark_disputed "cs_1" 300 one_token).1 in
    ((later : ℕ) → (validate_and_consume toy token later db').0 ≡ reject disputed 402)
    × ((job reason id : String) (later : ℕ)
        → has_refunded (refund_token 49 job reason id later db').0 ≡ false)
    × (usage db'.tokens ≡ usage one_token.tokens)
unfolding Sql.fetch_one ebook_automation.TokenFormat.token_regex
dispute_revokes_example = dispute_revokes toy "cs_1" token 300 one_token one_token-IsKeyed refl refl
