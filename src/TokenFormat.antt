-- ===== src/TokenFormat.antt =====
-- The token format, `lb_pk_` and 43 characters of the URL-safe base64 alphabet, as the two
-- regular expressions test it: web_service/token_validation.py (`\Z`, the end of the text) and
-- web_service/token_store.py (`$`, the end or a final newline).
pub mod Agree
use ebook_automation.Common.{
  ℕ, zero, suc, String, Bool, true, false, ◌&&◌, ◌||◌, List, [], ◌∷◌, leb, ◌==◌, codes, refl, ◌≡◌,
}

-- `[A-Za-z0-9_-]`
unfoldable pub is_token_char : ℕ → Bool
is_token_char c =
    (leb b'A' c && leb c b'Z')
    || ((leb b'a' c && leb c b'z') || ((leb b'0' c && leb c b'9') || (c == b'_' || c == b'-')))

abbrev pub token_prefix : List ℕ
token_prefix = codes "lb_pk_"

-- `[A-Za-z0-9_-]{n}` and then what `end` accepts
unfoldable pub match_body : (List ℕ → Bool) → ℕ → List ℕ → Bool
match_body end zero cs = end cs
match_body end (suc n) [] = false
match_body end (suc n) (c ∷ cs) = is_token_char c && match_body end n cs

unfoldable pub match_prefix : (List ℕ → Bool) → List ℕ → List ℕ → Bool
match_prefix rest [] cs = rest cs
match_prefix rest (p ∷ ps) [] = false
match_prefix rest (p ∷ ps) (c ∷ cs) = c == p && match_prefix rest ps cs

-- `\Z`
unfoldable pub at_end : List ℕ → Bool
at_end [] = true
at_end (_ ∷ _) = false

-- `$` without MULTILINE: the end, or a newline that ends the text
unfoldable pub at_dollar : List ℕ → Bool
unfolding at_end
at_dollar [] = true
at_dollar (c ∷ cs) = c == 10 && at_end cs

-- `validate_token_format` of token_validation.py: whether the result is `ok`
unfoldable pub validate_token_format : List ℕ → Bool
unfolding match_prefix match_body at_end is_token_char
validate_token_format = match_prefix (match_body at_end 43) token_prefix

-- `_TOKEN_REGEX.match` of token_store.py
unfoldable pub token_regex : List ℕ → Bool
unfolding match_prefix match_body at_dollar is_token_char
token_regex = match_prefix (match_body at_dollar 43) token_prefix
