-- ===== src/Kindle/Validation.antt =====
-- `validate_kindle_recipient`, `validate_kindle_format` and `validate_kindle_attachment_size` of
-- web_service/validation.py. `email.utils.parseaddr` is a parameter: the display name and the
-- address that it reads in a text.
use ebook_automation.Text.{lower, strip, text_eq, contains, rpartition}
use ebook_automation.Common.{
  ℕ, ◌*◌, String, Bool, true, false, not, ◌||◌, Option, none, some, List, [], ◌∷◌, leb,
  if◌then◌else◌, codes,
}

pub data KindleErrorCode : Type 0 where
  invalid_recipient_form : KindleErrorCode
  invalid_recipient_domain : KindleErrorCode
  format_not_kindle_eligible : KindleErrorCode
  output_too_large_for_kindle : KindleErrorCode

-- `KindleValidationResult`, with the normalised text on success
pub data KindleValidationResult : Type 0 where
  valid : List ℕ → KindleValidationResult
  invalid : KindleErrorCode → KindleValidationResult

abbrev pub allowed_domains : List (List ℕ)
allowed_domains = codes "kindle.com" ∷ codes "free.kindle.com" ∷ []

unfoldable pub is_member : List ℕ → List (List ℕ) → Bool
is_member t [] = false
is_member t (u ∷ us) = text_eq t u || is_member t us

abbrev pub is_empty : List ℕ → Bool
is_empty [] = true
is_empty (_ ∷ _) = false

-- from `addr.rpartition("@")` on
unfoldable pub check_parts : List ℕ → Option (List ℕ × List ℕ) → KindleValidationResult
check_parts addr none = invalid invalid_recipient_form
check_parts addr (some (local, domain)) =
    if is_empty local
    then invalid invalid_recipient_form
    else if contains b'+' local
    then invalid invalid_recipient_form
    else if not (is_member domain allowed_domains)
    then invalid invalid_recipient_domain
    else valid addr

abbrev pub normalise : List ℕ → List ℕ
normalise recipient = lower (strip recipient)

unfoldable pub validate_kindle_recipient :
    (List ℕ → List ℕ × List ℕ) → List ℕ → KindleValidationResult
unfolding check_parts
validate_kindle_recipient parseaddr recipient =
    let stripped = normalise recipient in
    let (display, addr) = parseaddr stripped in
    if not (is_empty display)
    then invalid invalid_recipient_form
    else if not (text_eq addr stripped)
    then invalid invalid_recipient_form
    else if is_empty addr || not (contains b'@' addr)
    then invalid invalid_recipient_form
    else check_parts addr (rpartition b'@' addr)

unfoldable pub validate_kindle_format : String → KindleValidationResult
validate_kindle_format output_fmt =
    let normalized = lower (codes output_fmt) in
    if text_eq normalized (codes "epub")
    then valid normalized
    else invalid format_not_kindle_eligible

-- 25 MiB
abbrev pub kindle_max_size_bytes : ℕ
kindle_max_size_bytes = 25 * 1024 * 1024

unfoldable pub validate_kindle_attachment_size : ℕ → KindleValidationResult
validate_kindle_attachment_size size_bytes =
    if leb size_bytes kindle_max_size_bytes then valid [] else invalid output_too_large_for_kindle
