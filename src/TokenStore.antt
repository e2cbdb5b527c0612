-- ===== src/TokenStore.antt =====
-- web_service/token_store.py: the single-use credit tokens, by what the functions do.
--
-- `int(time.time())` is the argument `now`. Each function of the source that writes the tokens is
-- one transaction, so a database is a value and an interleaving of writers is a sequence of calls.
pub mod Schema
pub mod Mint
pub mod Consume
pub mod Refund
pub mod Lookup
pub mod FailedMints
pub mod Attempts
pub mod Inserts
pub mod Trace
pub mod Credits
pub mod Keys
pub mod Balance
pub mod Outcomes
pub mod Idempotence
pub mod Repeat
pub mod Reversal
pub mod Clean
pub mod Disputes
