-- ===== src/Views.antt =====
-- `GET /status/{job_id}` of web_service/routes/status.py and `GET /download/{job_id}` of
-- web_service/routes/download.py. What they read of a path is a record of functions.
pub mod Agree
use ebook_automation.JobStore.Schema.{
  Job, Status, Delivery, queued, running, done, failed, expired, is_done,
}
use ebook_automation.JobStore.Store.{get_job}
use ebook_automation.JobStore.Children.{list_children}
use ebook_automation.Text.{lower, text_eq}
use ebook_automation.Common.{
  max, ℕ, zero, suc, ◌+◌, ◌-◌, ◌*◌, ◌/◌, ◌%◌, ◌≤◌, ◌<◌, String, ◌≡◌, refl, sym, ap, ◌∙◌, ◌≢◌, ◌↔◌,
  ◌⊎◌, inl, inr, Bool, true, false, not, ◌&&◌, ◌||◌, Option, none, some, List, [], ◌∷◌, ◌++◌, map,
  arith, eq_iff, eq_refl, str_eq, ltb, leb, ◌==◌, if◌then◌else◌, is_text, is_truthy, text_of, codes,
  is_some, length, Bool-cases, Option-cases, str_eq-true,
}

-- What `pathlib` says of a path: whether it exists (`OSError` counts as no), its stem, its suffix
-- with the dot, and its name.
pub record Paths : Type 0 where
  pub exists : String → Bool
  pub stem : String → String
  pub suffix : String → String
  pub file_name : String → String

-- `_file_exists`
unfoldable pub file_exists : Paths → Option String → Bool
file_exists p none = false
file_exists p (some t) = not (str_eq t "") && p.exists t

-- `child["job_id"]` of a link to the download
abbrev pub download_url : Job → Option String
download_url j = if is_done j.status then some j.job_id else none

-- `_child_entry`
pub record ChildEntry : Type 0 where
  pub job_id : String
  pub format : String
  pub status : Status
  pub expires_at : ℕ
  pub source_present : Bool
  pub output_present : Bool
  pub kindle_delivery_status : Option Delivery
  pub resend_message_id : Option String
  pub url : Option String

unfoldable pub child_entry : Paths → Job → ChildEntry
child_entry p j = record {
  job_id = j.job_id;
  format = j.output_fmt;
  status = j.status;
  expires_at = j.expires_at;
  source_present = file_exists p (some j.input_path);
  output_present = file_exists p j.output_path;
  kindle_delivery_status = j.kindle_delivery_status;
  resend_message_id = j.resend_message_id;
  url = download_url j;
}

-- the telemetry of a premium job, where there is any
pub record Telemetry : Type 0 where
  pub gemini_cost_usd : ℕ
  pub vqa_cost_usd : ℕ
  pub vqa_score : Option ℕ
  pub vqa_pass : Option Bool
  pub vqa_skipped_reason : Option String

abbrev pub has_telemetry : Job → Bool
has_telemetry j =
    not (j.gemini_cost_usd == 0) || (is_some j.vqa_score || is_truthy j.vqa_skipped_reason)

unfoldable pub telemetry : Job → Option Telemetry
telemetry j =
    if is_done j.status && has_telemetry j
    then some (record {
      gemini_cost_usd = j.gemini_cost_usd;
      vqa_cost_usd = j.vqa_cost_usd;
      vqa_score = j.vqa_score;
      vqa_pass = if is_some j.vqa_score then j.vqa_pass else none;
      vqa_skipped_reason = if is_truthy j.vqa_skipped_reason then j.vqa_skipped_reason else none;
    })
    else none

pub record StatusView : Type 0 where
  pub status : Status
  pub expires_at : ℕ
  pub source_present : Bool
  pub output_present : Bool
  pub kindle_delivery_status : Option Delivery
  pub resend_message_id : Option String
  pub children : List ChildEntry
  pub url : Option String
  pub output_size : Option ℕ
  pub ai : Option Telemetry
  pub error : Option String

abbrev pub is_failed : Status → Bool
is_failed failed = true
is_failed _ = false

unfoldable pub view : Paths → List Job → Job → StatusView
view p jobs j = record {
  status = j.status;
  expires_at = j.expires_at;
  source_present = file_exists p (some j.input_path);
  output_present = file_exists p j.output_path;
  kindle_delivery_status = j.kindle_delivery_status;
  resend_message_id = j.resend_message_id;
  children = map (child_entry p) (list_children j.job_id jobs);
  url = download_url j;
  output_size = if is_done j.status then j.output_size else none;
  ai = telemetry j;
  error = if is_failed j.status then j.error_msg else none;
}

abbrev pub view_of : Paths → List Job → Option Job → Option StatusView
view_of p jobs none = none
view_of p jobs (some j) = some (view p jobs j)

-- `get_status`, `none` for 404
unfoldable pub get_status : Paths → String → List Job → Option StatusView
get_status p job_id jobs = view_of p jobs (get_job job_id jobs)

-- the answer of a download: the codes 404, 422, 410, 400 and 410, or the file; `header_error` is the
-- `UnicodeEncodeError` of a header with characters outside Latin-1, which the route does not catch
pub data Download : Type 0 where
  no_job gone output_deleted header_error : Download
  job_failed : Option String → Download
  not_complete : Status → Download
  served : String → String → String → Download

-- `_MEDIA_TYPES.get(fmt, "application/octet-stream")`
unfoldable pub media_type_of : List ℕ → String
media_type_of fmt =
    if text_eq fmt (codes "epub")
    then "application/epub+zip"
    else if text_eq fmt (codes "mobi")
    then "application/x-mobipocket-ebook"
    else if text_eq fmt (codes "azw") || text_eq fmt (codes "azw3")
    then "application/vnd.amazon.ebook"
    else "application/octet-stream"

abbrev pub lstrip_dots : List ℕ → List ℕ
lstrip_dots [] = []
lstrip_dots (c ∷ cs) = let rest = lstrip_dots cs in if c == b'.' then rest else c ∷ cs

-- `_media_type_for`
unfoldable pub media_type_for : Paths → String → String → String
media_type_for p output_fmt output_path = media_type_of (
    lower (
      if str_eq output_fmt ""
      then lstrip_dots (codes (p.suffix output_path))
      else codes output_fmt))

-- `f"{stem}{ext}"`
unfoldable pub concat : String → String → String
concat String.[] t = t
concat (String.◌∷◌ c s) t = String.◌∷◌ c (concat s t)

-- `_download_filename`
unfoldable pub download_filename : Paths → Option String → String → String
download_filename p original output_path =
    let stem = p.stem (text_of original) in
    let ext = p.suffix output_path in
    if is_truthy original && (not (str_eq stem "") && not (str_eq ext ""))
    then concat stem ext
    else p.file_name output_path

-- `raw.encode("latin-1")` of the Content-Disposition header can be done
unfoldable pub is_latin_1 : List ℕ → Bool
is_latin_1 [] = true
is_latin_1 (c ∷ cs) = ltb c 256 && is_latin_1 cs

-- the response with the file, whose header has its name
abbrev pub respond : Paths → Job → String → Download
respond p j path =
    if is_latin_1 (codes (download_filename p j.original_filename path))
    then served path (download_filename p j.original_filename path)
        (media_type_for p j.output_fmt path)
    else header_error

abbrev pub serve : Paths → Job → Option String → Download
serve p j none = output_deleted
serve p j (some path) =
    if str_eq path "" || not (p.exists path) then output_deleted else respond p j path

abbrev pub by_status : Paths → Job → Status → Download
by_status p j failed = job_failed j.error_msg
by_status p j expired = gone
by_status p j queued = not_complete queued
by_status p j running = not_complete running
by_status p j done = serve p j j.output_path

abbrev pub download_of : Paths → Option Job → Download
download_of p none = no_job
download_of p (some j) = by_status p j j.status

-- `download_file`
unfoldable pub download_file : Paths → String → List Job → Download
download_file p job_id jobs = download_of p (get_job job_id jobs)
