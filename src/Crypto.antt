-- ===== src/Crypto.antt =====
-- web_service/crypto.py: what the token store takes from HMAC-SHA256, from Fernet and from
-- Python's hexadecimal notation of bytes.
--
-- A digest is the number that its 32 bytes write. HMAC and Fernet are the `hmac` and
-- `cryptography` packages, so they are a parameter of the model.
use ebook_automation.Common.{ℕ, ◌≡◌, String, false, Option, some, str_eq}

pub record Crypto : Type 0 where
  -- `compute_token_hash`
  pub token_hash : String → ℕ
  -- `get_fernet(key_version).encrypt(text)`; the second argument is the call's random IV and time
  pub encrypt : ℕ → ℕ → String → String
  -- `get_fernet(key_version).decrypt(text)`; `none` where it raises `InvalidToken`
  pub decrypt : ℕ → String → Option String
  -- What Fernet documents: a text that it encrypted is decrypted under the same key.
  pub decrypt-encrypt : (v iv : ℕ) (t : String) → decrypt v (encrypt v iv t) ≡ some t
  -- `bytes.hex` and `bytes.fromhex`; `none` where the latter raises `ValueError`
  pub hex : ℕ → String
  pub from_hex : String → Option ℕ
  pub from_hex-hex : (d : ℕ) → from_hex (hex d) ≡ some d
  pub hex_nonempty : (d : ℕ) → str_eq (hex d) "" ≡ false

-- `mint_token`: the token's text and its digest. `random` is what `secrets` and base64 gave.
pub record Minted : Type 0 where
  pub text : String
  pub iv : ℕ
