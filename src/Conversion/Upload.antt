-- ===== src/Conversion/Upload.antt =====
-- `validate_upload` of web_service/validation.py. `filetype.guess` is a parameter, `mime`: the
-- MIME type it recognises in the header, if any; `ext` is the file name's suffix without its dot,
-- in lower case, as `pathlib` reads it.
use ebook_automation.Common.{
  ℕ, ◌≤◌, String, ◌≡◌, refl, sym, ap, ◌∙◌, ◌↔◌, Bool, true, false, not, ◌&&◌, ◌||◌, Option, none,
  some, arith, str_eq, ltb, ◌==◌, if◌then◌else◌,
}

pub data ValidationErrorCode : Type 0 where
  empty_file file_too_large invalid_mime invalid_output_format : ValidationErrorCode

-- `ValidationResult`: the detected format, or the error with its HTTP status
pub data ValidationResult : Type 0 where
  valid : String → ValidationResult
  invalid : ValidationErrorCode → ℕ → ValidationResult

pub record Settings : Type 0 where
  pub max_file_size_free : ℕ
  pub max_file_size_premium : ℕ

-- `DETECTABLE_MIME_TYPES`
unfoldable pub detectable_mime_type : String → Option String
detectable_mime_type mime =
    if str_eq mime "application/pdf"
    then some "pdf"
    else if str_eq mime "application/epub+zip"
    then some "epub"
    else if str_eq mime "application/zip"
    then some "epub"
    else none

-- `ext in EXTENSION_FALLBACK_FORMATS`
abbrev pub is_fallback_format : String → Bool
is_fallback_format ext =
    str_eq ext "mobi" || (str_eq ext "azw" || (str_eq ext "azw3" || str_eq ext "djvu"))

-- the format that the bytes and the name show
unfoldable pub detect_format : Option String → String → Option String
detect_format (some mime) ext = detectable_mime_type mime
detect_format none ext = if is_fallback_format ext then some ext else none

unfoldable pub size_limit : Settings → String → ℕ
size_limit settings tier =
    if str_eq tier "free" then settings.max_file_size_free else settings.max_file_size_premium

-- `output_format in allowed_output`
unfoldable pub is_allowed_output : String → String → Bool
is_allowed_output tier output_format =
    (str_eq output_format "epub" || str_eq output_format "mobi")
    || (not (str_eq tier "free") && str_eq output_format "kfx")

unfoldable pub check_output : String → String → Option String → ValidationResult
check_output tier output_format none = invalid invalid_mime 422
check_output tier output_format (some detected_fmt) =
    if not (is_allowed_output tier output_format)
    then invalid invalid_output_format 422
    else valid detected_fmt

unfoldable pub validate_upload :
    Settings → Option String → String → ℕ → String → String → ValidationResult
unfolding check_output size_limit detect_format
validate_upload settings mime ext file_size output_format tier =
    if file_size == 0
    then invalid empty_file 422
    else if ltb (size_limit settings tier) file_size
    then invalid file_too_large 413
    else check_output tier output_format (detect_format mime ext)

-- The formats that a conversion can read.
abbrev pub is_input_format : String → Bool
is_input_format fmt = str_eq fmt "pdf" || (str_eq fmt "epub" || is_fallback_format fmt)

abbrev is_known : Option String → Bool
is_known none = true
is_known (some fmt) = is_input_format fmt

detect_format-known :
    (mime : Option String) (ext : String) → is_known (detect_format mime ext) ≡ true
unfolding detect_format detectable_mime_type
detect_format-known none ext = ground arith
detect_format-known (some mime) ext =
    by_mime (str_eq mime "application/pdf") (str_eq mime "application/epub+zip")
      (str_eq mime "application/zip")
  where
    by_mime :
        (a b c : Bool)
        → is_known
            (if a then some "pdf" else if b then some "epub" else if c then some "epub" else none)
          ≡ true
    by_mime true b c = refl
    by_mime false true c = refl
    by_mime false false true = refl
    by_mime false false false = refl

detected_is_input :
    (mime : Option String) (ext fmt : String)
    → detect_format mime ext ≡ some fmt
    → is_input_format fmt ≡ true
detected_is_input mime ext fmt e = ap is_known (sym e) ∙ detect_format-known mime ext

check_output_iff :
    (tier output_format fmt : String) (o : Option String)
    → (check_output tier output_format o ≡ valid fmt)
      ↔ ((o ≡ some fmt) × (is_allowed_output tier output_format ≡ true))
unfolding check_output
check_output_iff tier output_format fmt none = (λ e. cc, λ h. cc)
check_output_iff tier output_format fmt (some d) = (λ e. ground arith, λ (e, ok). ground arith)

-- The validator accepts an upload exactly when it is not empty and within the limit of its tier,
-- its format was detected and the output format is offered on the tier; the format it reports is
-- the detected one, which is one of the six formats that the pipeline reads.
pub validate_upload_iff :
    (settings : Settings) (mime : Option String) (ext : String) (file_size : ℕ)
    (output_format tier fmt : String)
    → (validate_upload settings mime ext file_size output_format tier ≡ valid fmt) ↔ (
        (1 ≤ file_size)
        × (file_size ≤ size_limit settings tier)
        × (detect_format mime ext ≡ some fmt)
        × (is_allowed_output tier output_format ≡ true)
        × (is_input_format fmt ≡ true))
unfolding validate_upload
validate_upload_iff settings mime ext file_size output_format tier fmt =
    let (to, from) = check_output_iff tier output_format fmt (detect_format mime ext) in
    (
      λ e.
          let checked : check_output tier output_format (detect_format mime ext) ≡ valid fmt =
            ground arith in
          let (found, ok) = to checked in
          (ground arith, ground arith, found, ok, detected_is_input mime ext fmt found),
      λ (nonempty, fits, found, ok, known).
          let checked = from (found, ok) in ground (arith, checked),
    )
