-- ===== src/Kindle/Exclusion.antt =====
-- Who may send: the claims over any interleaving of the calls of several requests.
use ebook_automation.Sql
use ebook_automation.Sql.{rowcount}
use ebook_automation.Sql.Laws.{
  rowcount-update_keep, rowcount-delete_keep, rowcount-insert, rowcount-append, select-append,
  rowcount-delete-le, rowcount_mono,
}
use ebook_automation.JobQueue.World.{Claim}
use ebook_automation.Kindle.Claims.{
  idempotency_window_seconds, is_past, has_key, new_claim, try_claim, mark_sent, mark_claim_sent,
  is_open_claim, release_claim,
}
use ebook_automation.Common.{
  ℕ, ◌+◌, ◌≤◌, ◌<◌, String, ◌≡◌, refl, Bool, true, false, not, ◌&&◌, List, [], ◌∷◌, arith, eq_iff,
  str_eq, leb, ◌==◌,
}

pub data Call : Type 0 where
  claim : String → ℕ → ℕ → Call
  mark : String → ℕ → Call
  release : String → ℕ → Call

unfoldable pub step : Call → List Claim → List Claim
step (claim job h now) claims = (try_claim job h now claims).1
step (mark job h) claims = mark_claim_sent job h claims
step (release job h) claims = release_claim job h claims

unfoldable pub run : List Call → List Claim → List Claim
run [] claims = claims
run (call ∷ calls) claims = run calls (step call claims)

module _ (job : String) (h t : ℕ) where
  -- the key's row, claimed at `t` or later
  abbrev pub is_held : Claim → Bool
  is_held r = has_key job h r && leb t r.sent_at

  -- A call that comes at most a window after `t`, and does not release the key.
  abbrev pub IsWithin : Call → Type 0
  IsWithin (claim j k now) = now ≤ t + idempotency_window_seconds
  IsWithin (mark j k) = Unit {0}
  IsWithin (release j k) = (str_eq j job && k == h) ≡ false

  abbrev pub AllWithin : List Call → Type 0
  AllWithin [] = Unit {0}
  AllWithin (call ∷ calls) = IsWithin call × AllWithin calls

  step-held :
      (call : Call) (claims : List Claim)
      → IsWithin call
      → 1 ≤ rowcount is_held claims
      → 1 ≤ rowcount is_held (step call claims)
  unfolding step try_claim mark_claim_sent release_claim
  step-held (claim j k now) claims w held = ground (
    arith,
    rowcount-delete_keep is_held (is_past now) claims (λ r e. ground arith),
    rowcount-insert is_held (new_claim j k now) (Sql.delete (is_past now) claims),
  )
  step-held (mark j k) claims w held =
      omega (arith, rowcount-update_keep is_held (has_key j k) mark_sent claims (λ r. refl))
  step-held (release j k) claims w held = omega (
    arith,
    rowcount-delete_keep is_held (is_open_claim j k) claims
        (λ r e. ground (arith, eq_iff r.job_id j, eq_iff r.job_id job, eq_iff j job)),
  )

  run-held :
      (calls : List Call) (claims : List Claim)
      → AllWithin calls
      → 1 ≤ rowcount is_held claims
      → 1 ≤ rowcount is_held (run calls claims)
  unfolding run
  run-held [] claims w held = held
  run-held (call ∷ calls) claims w held =
      run-held calls (step call claims) w.1 (step-held call claims w.0 held)

  claim-held :
      (claims : List Claim)
      → (try_claim job h t claims).0 ≡ true
      → 1 ≤ rowcount is_held (try_claim job h t claims).1
  unfolding try_claim
  claim-held claims ok = ground (
    arith,
    eq_iff job job,
    rowcount-insert is_held (new_claim job h t) (Sql.delete (is_past t) claims),
  )

  refused_while_held :
      (now : ℕ) (claims : List Claim)
      → now ≤ t + idempotency_window_seconds
      → 1 ≤ rowcount is_held claims
      → (try_claim job h now claims).0 ≡ false
  unfolding try_claim
  refused_while_held now claims w held = ground (
    arith,
    rowcount-delete_keep is_held (is_past now) claims (λ r e. ground arith),
    rowcount_mono is_held (has_key job h) (Sql.delete (is_past now) claims) (λ r e. ground arith),
  )

  -- Once a request has claimed a key at `t`, no claim of the key at most 60 seconds later
  -- succeeds, whatever claims, marks and releases of other requests come in between, as long as
  -- none of them releases the key and the claims among them come in those 60 seconds.
  pub one_sender_in_window :
      (claims : List Claim) (calls : List Call) (now : ℕ)
      → (try_claim job h t claims).0 ≡ true
      → AllWithin calls
      → now ≤ t + idempotency_window_seconds
      → (try_claim job h now (run calls (try_claim job h t claims).1)).0 ≡ false
  one_sender_in_window claims calls now ok within soon =
      refused_while_held now (run calls (try_claim job h t claims).1) soon
        (run-held calls (try_claim job h t claims).1 within (claim-held claims ok))

-- A delete that takes the last row leaves no row for `q` if there was none before it.
delete_last {ℓ} :
    {A : Type ℓ} (p q : A → Bool) (x : A) (xs : List A)
    → p x ≡ true
    → rowcount q xs ≡ 0
    → rowcount q (Sql.delete p (Sql.insert x xs)) ≡ 0
unfolding Sql.insert Sql.delete Sql.select rowcount
delete_last p q x xs e none_yet = rw (select-append (λ y. not (p y)) xs (x ∷ [])) (
    ground (
      arith,
      rowcount-append q (Sql.delete p xs) (Sql.select (λ y. not (p y)) (x ∷ [])),
      rowcount-delete-le q p xs,
    ))

-- What a successful claim found and left.
claimed_lem :
    (job : String) (h t : ℕ) (claims : List Claim)
    → (try_claim job h t claims).0 ≡ true
    → let live = Sql.delete (is_past t) claims in
      (rowcount (has_key job h) live ≡ 0)
      × ((try_claim job h t claims).1 ≡ Sql.insert (new_claim job h t) live)
unfolding try_claim
claimed_lem job h t claims ok = ground arith

claim-of_free :
    (job : String) (h now : ℕ) (claims : List Claim)
    → rowcount (has_key job h) (Sql.delete (is_past now) claims) ≡ 0
    → (try_claim job h now claims).0 ≡ true
unfolding try_claim
claim-of_free job h now claims free = rw free refl

-- After a claim, a release of its key makes the key free: a claim at any time succeeds.
pub release_frees :
    (job : String) (h t now : ℕ) (claims : List Claim)
    → (try_claim job h t claims).0 ≡ true
    → (try_claim job h now (release_claim job h (try_claim job h t claims).1)).0 ≡ true
unfolding release_claim
release_frees job h t now claims ok =
    let live = Sql.delete (is_past t) claims in
    let (none_yet, left) = claimed_lem job h t claims ok in
    let claims' = Sql.delete (is_open_claim job h) (try_claim job h t claims).1 in
    let freed : rowcount (has_key job h) claims' ≡ 0 = rw left (
      delete_last (is_open_claim job h) (has_key job h) (new_claim job h t) live
        (ground (arith, eq_iff job job)) none_yet) in
    claim-of_free job h now claims'
      (omega (arith, rowcount-delete-le (has_key job h) (is_past now) claims', freed))

-- A send that takes longer than the window does not own its key any more: a second request
-- claims the key more than 60 seconds after the first, and when the first then fails and
-- releases the key, it is the second's claim that goes, so that a third claim succeeds at any
-- time, also within 60 seconds of the second.
pub late_release_reopens :
    (job : String) (h t t' now : ℕ) (claims : List Claim)
    → t + idempotency_window_seconds < t'
    → (try_claim job h t claims).0 ≡ true
    → let second = try_claim job h t' (try_claim job h t claims).1 in
      (second.0 ≡ true) × ((try_claim job h now (release_claim job h second.1)).0 ≡ true)
late_release_reopens job h t t' now claims late ok =
    let live = Sql.delete (is_past t) claims in
    let (none_yet, left) = claimed_lem job h t claims ok in
    let again : (try_claim job h t' (try_claim job h t claims).1).0 ≡ true =
      claim-of_free job h t' (try_claim job h t claims).1 (
        rw left (
          delete_last (is_past t') (has_key job h) (new_claim job h t) live (ground arith)
            none_yet)) in
    (again, release_frees job h t' now (try_claim job h t claims).1 again)
