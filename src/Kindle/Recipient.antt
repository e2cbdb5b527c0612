-- ===== src/Kindle/Recipient.antt =====
-- What the recipient validator of web_service/validation.py lets through.
use ebook_automation.Text.{text_eq, text_eq-true, contains, rpartition, Joins, rpartition-Joins}
use ebook_automation.Kindle.Validation.{
  valid, allowed_domains, is_member, is_empty, normalise, check_parts, validate_kindle_recipient,
}
use ebook_automation.Common.{
  ℕ, ◌≡◌, ◌∙◌, ◌⊎◌, inl, inr, true, false, Option, none, some, List, ◌∷◌, ◌++◌, arith, codes,
  Bool-cases,
}

-- The address that the allowlist is about, in words.
pub record IsKindleAddress (addr : List ℕ) : Type 0 where
  pub local : List ℕ
  pub domain : List ℕ
  pub split : addr ≡ local ++ b'@' ∷ domain
  pub local_nonempty : is_empty local ≡ false
  pub no_plus : contains b'+' local ≡ false
  pub allowed : (domain ≡ codes "kindle.com") ⊎ (domain ≡ codes "free.kindle.com")

allowed_cases :
    (d : List ℕ)
    → is_member d allowed_domains ≡ true
    → (d ≡ codes "kindle.com") ⊎ (d ≡ codes "free.kindle.com")
unfolding is_member
allowed_cases d h = elim (Bool-cases (text_eq d (codes "kindle.com"))) [
  | inl first ↦ inl (text_eq-true d (codes "kindle.com") first)
  | inr other ↦ inr (text_eq-true d (codes "free.kindle.com") (ground arith))
]

check_parts_valid :
    (addr : List ℕ) (o : Option (List ℕ × List ℕ)) {n : List ℕ}
    → Joins b'@' addr o
    → check_parts addr o ≡ valid n
    → (n ≡ addr) × IsKindleAddress addr
unfolding check_parts
check_parts_valid addr none j e = cc
check_parts_valid addr (some (l, d)) j e = (
  ground arith,
  record {
    local = l;
    domain = d;
    split = j;
    local_nonempty = ground arith;
    no_plus = ground arith;
    allowed = allowed_cases d (ground arith);
  },
)

check_addr_valid :
    (addr stripped n : List ℕ)
    → text_eq addr stripped ≡ true
    → check_parts addr (rpartition b'@' addr) ≡ valid n
    → (n ≡ stripped) × IsKindleAddress n
check_addr_valid addr stripped n same e =
    let (eq, is) = check_parts_valid addr (rpartition b'@' addr) (rpartition-Joins b'@' addr) e in
    (eq ∙ text_eq-true addr stripped same, rw eq is)

-- Whatever `parseaddr` does, a recipient that passes the validator is, stripped and in lower
-- case, the text that is returned, and that text is a non-empty local part with no `+`, an `@`,
-- and one of the two Kindle domains.
pub validate_kindle_recipient_sound :
    (parseaddr : List ℕ → List ℕ × List ℕ) (recipient : List ℕ) {n : List ℕ}
    → validate_kindle_recipient parseaddr recipient ≡ valid n
    → (n ≡ normalise recipient) × IsKindleAddress n
unfolding validate_kindle_recipient
validate_kindle_recipient_sound parseaddr recipient {n = n} e =
    let (display, addr) = parseaddr (normalise recipient) in
    check_addr_valid addr (normalise recipient) n (ground arith) (ground arith)
