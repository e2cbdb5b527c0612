-- ===== src/Tests/Kindle.antt =====
-- Send-to-Kindle and the Resend webhook at concrete inputs.

use ebook_automation.Sql
use ebook_automation.Sql.{rowcount}
use ebook_automation.JobStore.Store.{get_job}
use ebook_automation.Kindle.Claims.{try_claim, release_claim}
use ebook_automation.Kindle.Exclusion.{
  Call, claim, mark, release, run, one_sender_in_window, late_release_reopens,
}
use ebook_automation.Kindle.Route.{Env, accepted}
use ebook_automation.Kindle.Webhook.{Payload, resend_webhook, is_terminal}
use ebook_automation.Kindle.Deliveries.{IsPrimaryKeyed, delivery_of, final_status_stays}
use ebook_automation.Tests.Fixtures.{all_jobs, world, nothing}
use ebook_automation.Common.{
  ℕ, String, ◌≡◌, refl, true, false, some, List, [], ◌∷◌, arith, eq_iff, str_eq, codes, length,
}

-- a `parseaddr` that finds no display name
abbrev bare : List ℕ → List ℕ × List ℕ
bare t = ([], t)

abbrev address : List ℕ
address = codes " Reader@Kindle.com "

abbrev env : Env
env = record {
  send_to_kindle_enabled = true;
  now = 500;
  exists = λ p. true;
  size = λ p. 1000;
  is_inside = λ p. true;
  parseaddr = bare;
  sha256 = length;
  send = λ id to. accepted "m2";
  while_sending = nothing;
  read_locked = false;
  claim_locked = false;
  release_locked = false;
  mark_locked = false;
  persists = true;
  logs = true;
}

-- Another request for the key, one for a second key, and a release of the second.
abbrev others : List Call
others = claim "j3" 17 510 ∷ claim "j4" 17 520 ∷ mark "j3" 17 ∷ release "j4" 17 ∷ []

one_sender_in_window_example :
    (try_claim "j3" 17 560 (run others (try_claim "j3" 17 500 []).1)).0 ≡ false
unfolding try_claim Sql.delete Sql.select rowcount
one_sender_in_window_example =
    one_sender_in_window "j3" 17 500 [] others 560 refl
      (omega arith, (omega arith, (tt, (refl, tt)))) (omega arith)

late_release_reopens_example :
    let second = try_claim "j3" 17 570 (try_claim "j3" 17 500 []).1 in
    (second.0 ≡ true) × ((try_claim "j3" 17 575 (release_claim "j3" 17 second.1)).0 ≡ true)
unfolding try_claim Sql.delete Sql.select rowcount
late_release_reopens_example = late_release_reopens "j3" 17 500 570 575 [] (omega arith) refl

differ : (s t id : String) → str_eq s t ≡ false → str_eq s id ≡ true → str_eq t id ≡ false
differ s t id other same = ground (arith, eq_iff s id, eq_iff t id, eq_iff s t)

all_jobs-IsPrimaryKeyed : IsPrimaryKeyed all_jobs
unfolding rowcount
all_jobs-IsPrimaryKeyed = record {
  at = λ id.
      ground (arith, differ "j1" "j2" id refl, differ "j1" "j3" id refl, differ "j2" "j3" id refl);
}

abbrev delayed : Payload
delayed = record {
  event_type = some "email.delivery_delayed";
  has_data = true;
  email_id = some "m1";
}

final_status_stays_example :
    is_terminal (delivery_of (get_job "j3" (resend_webhook true (some delayed) world).1.jobs))
    ≡ true
unfolding get_job Sql.fetch_one
final_status_stays_example =
    final_status_stays true (some delayed) world "j3" all_jobs-IsPrimaryKeyed refl

abbrev delivered : Payload
delivered = record delayed { event_type = some "email.delivered" }
