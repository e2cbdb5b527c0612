-- ===== src/Views/Agree.antt =====
-- What the status says of a download.
use ebook_automation.JobStore.Schema.{Job, Status, queued, running, done, failed, expired, is_done}
use ebook_automation.JobStore.Store.{get_job}
use ebook_automation.Views.{
  Paths, file_exists, StatusView, view, view_of, get_status, Download, served, no_job, gone,
  output_deleted, header_error, job_failed, not_complete, is_latin_1, download_filename, serve,
  by_status, download_of, download_file,
}
use ebook_automation.Common.{
  String, ◌≡◌, refl, Bool, true, false, ◌&&◌, Option, none, some, List, arith, if◌then◌else◌,
  text_of, codes, is_some,
}

abbrev pub is_served : Download → Bool
is_served (served path filename media) = true
is_served no_job = false
is_served gone = false
is_served output_deleted = false
is_served header_error = false
is_served (job_failed e) = false
is_served (not_complete s) = false

-- a status with a link to the download and the output on the disk
abbrev pub offers_download : Option StatusView → Bool
offers_download none = false
offers_download (some v) = is_some v.url && v.output_present

-- whether the name under which a job's output is sent is one that a header can hold
abbrev pub has_plain_name : Paths → Option Job → Bool
has_plain_name p none = true
has_plain_name p (some j) =
    is_latin_1 (codes (download_filename p j.original_filename (text_of j.output_path)))

is_served-serve :
    (p : Paths) (j : Job) (o : Option String)
    → is_served (serve p j o) ≡ (
        file_exists p o && is_latin_1 (codes (download_filename p j.original_filename (text_of o))))
unfolding file_exists
is_served-serve p j none = refl
is_served-serve p j (some t) = ground arith

is_served-by_status :
    (p : Paths) (j : Job) (s : Status)
    → is_served (by_status p j s) ≡ (
        (is_some (if is_done s then some j.job_id else none) && file_exists p j.output_path)
        && has_plain_name p (some j))
is_served-by_status p j queued = refl
is_served-by_status p j running = refl
is_served-by_status p j failed = refl
is_served-by_status p j expired = refl
is_served-by_status p j done = is_served-serve p j j.output_path

offers-view_of :
    (p : Paths) (jobs : List Job) (o : Option Job)
    → is_served (download_of p o) ≡ (offers_download (view_of p jobs o) && has_plain_name p o)
unfolding view
offers-view_of p jobs none = refl
offers-view_of p jobs (some j) = is_served-by_status p j j.status

-- For every job, known or not, on the same table and disk: a download is served exactly when the
-- status has a link to it and says that the output is present, and the name under which it is sent
-- is in Latin-1.
pub download_as_status_says :
    (p : Paths) (job_id : String) (jobs : List Job)
    → is_served (download_file p job_id jobs)
      ≡ (offers_download (get_status p job_id jobs) && has_plain_name p (get_job job_id jobs))
unfolding download_file get_status
download_as_status_says p job_id jobs = offers-view_of p jobs (get_job job_id jobs)
