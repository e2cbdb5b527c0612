-- ===== src/BookFiler/Counted.antt =====
-- The number of times that a path stands in a plan.
use ebook_automation.Text.{text_eq}
use ebook_automation.BookFiler.Manifest.{text_le}
use ebook_automation.BookFiler.Dedup.{
  FileInfo, Member, DupGroup, keeper_le, insert_sorted, sort, add_to, group_from, trash_all,
  collapse, collapse_all, rep_member, rep_members, place, plan_format, plan_formats, plan_ranked,
  plan_work, plan_works, plan_dedup,
}
use ebook_automation.Common.{
  ℕ, ◌+◌, ◌≡◌, refl, ap, ◌∙◌, Bool, true, false, List, [], ◌∷◌, ◌++◌, arith, if◌then◌else◌,
}

-- sums over lists
module _ {A : Type 0} (n : A → ℕ) where
  unfoldable pub total : List A → ℕ
  total [] = 0
  total (x ∷ xs) = n x + total xs

  pub total-append : (xs ys : List A) → total (xs ++ ys) ≡ total xs + total ys
  unfolding total
  total-append [] ys = omega arith
  total-append (x ∷ xs) ys = ground (arith, total-append xs ys)

  total-insert_sorted :
      (le : A → A → Bool) (a : A) (xs : List A) → total (insert_sorted le a xs) ≡ n a + total xs
  unfolding total insert_sorted
  total-insert_sorted le a [] = refl
  total-insert_sorted le a (x ∷ xs) = ground (arith, total-insert_sorted le a xs)

  pub total-sort : (le : A → A → Bool) (xs : List A) → total (sort le xs) ≡ total xs
  unfolding total sort
  total-sort le [] = refl
  total-sort le (x ∷ xs) = ground (arith, total-sort le xs, total-insert_sorted le x (sort le xs))

-- how often a path is one of the files', the members', the plan's
abbrev pub is_path : List ℕ → List ℕ → ℕ
is_path p q = if text_eq q p then 1 else 0

abbrev pub count_scanned : List ℕ → List FileInfo → ℕ
count_scanned p = total (λ f. is_path p f.path)

abbrev pub count_members : List ℕ → List Member → ℕ
count_members p = total (λ m. is_path p m.path)

abbrev pub count_plan : List ℕ → List DupGroup → ℕ
count_plan p = total (λ g. count_members p g.members)

abbrev count_groups : List ℕ → List (List ℕ × List FileInfo) → ℕ
count_groups p = total (λ g. count_scanned p g.1)

module _ (p : List ℕ) where
  count-add_to :
      (key : List ℕ) (f : FileInfo) (gs : List (List ℕ × List FileInfo))
      → count_groups p (add_to key f gs) ≡ is_path p f.path + count_groups p gs
  unfolding add_to total
  count-add_to key f [] = ground arith
  count-add_to key f ((k, fs) ∷ gs) =
      ground (arith, count-add_to key f gs, total-append (λ g. is_path p g.path) fs (f ∷ []))

  count-group_from :
      (key : FileInfo → List ℕ) (gs : List (List ℕ × List FileInfo)) (fs : List FileInfo)
      → count_groups p (group_from key gs fs) ≡ count_groups p gs + count_scanned p fs
  unfolding group_from total
  count-group_from key gs [] = omega arith
  count-group_from key gs (f ∷ fs) =
      ground (arith, count-group_from key (add_to (key f) f gs) fs, count-add_to (key f) f gs)

  grouped :
      (key : FileInfo → List ℕ) (fs : List FileInfo)
      → count_groups p (group_from key [] fs) ≡ count_scanned p fs
  unfolding total
  grouped key fs = let e = count-group_from key [] fs in omega arith

  count-trash_all :
      (kept : FileInfo) (fs : List FileInfo)
      → count_members p (trash_all kept fs) ≡ count_scanned p fs
  unfolding trash_all total
  count-trash_all kept [] = refl
  count-trash_all kept (f ∷ fs) = ground (arith, count-trash_all kept fs)

  count-collapse :
      (fs : List FileInfo)
      → count_scanned p (collapse fs).0 + count_members p (collapse fs).1 ≡ count_scanned p fs
  unfolding total
  count-collapse [] = refl
  count-collapse (r ∷ extras) = ground (arith, count-trash_all r extras)

  count-collapse_all :
      (gs : List (List ℕ × List FileInfo))
      → count_scanned p (collapse_all gs).0 + count_members p (collapse_all gs).1
        ≡ count_groups p gs
  unfolding collapse_all total
  count-collapse_all [] = refl
  count-collapse_all ((k, dups) ∷ gs) =
      let ranked = sort keeper_le dups in
      let n : FileInfo → ℕ = λ f. is_path p f.path in
      let m : Member → ℕ = λ x. is_path p x.path in
      let a = total-append n (collapse ranked).0 (collapse_all gs).0 in
      let b = total-append m (collapse ranked).1 (collapse_all gs).1 in
      let d = count-collapse ranked in
      let e = total-sort n keeper_le dups in let ih = count-collapse_all gs in omega arith

  count-rep_member : (overall fmt_rep r : FileInfo) → (rep_member overall fmt_rep r).path ≡ r.path
  unfolding rep_member
  count-rep_member overall fmt_rep r = ground arith

  count-rep_members :
      (overall fmt_rep : FileInfo) (rs : List FileInfo)
      → count_members p (rep_members overall fmt_rep rs) ≡ count_scanned p rs
  unfolding rep_members total
  count-rep_members overall fmt_rep [] = refl
  count-rep_members overall fmt_rep (r ∷ rs) =
      let e = ap (is_path p) (count-rep_member overall fmt_rep r) in
      let ih = count-rep_members overall fmt_rep rs in omega arith

  count-place_if :
      (overall : FileInfo) (reps : List FileInfo) (b : Bool) (x y : FileInfo)
      (xs ys : List FileInfo)
      → count_members p (place overall reps (if b then x ∷ xs else y ∷ ys)) ≡ count_scanned p reps
  count-place_if overall reps true x y xs ys = count-rep_members overall x reps
  count-place_if overall reps false x y xs ys = count-rep_members overall y reps

  count-place_insert :
      (overall : FileInfo) (reps : List FileInfo) (r : FileInfo) (xs : List FileInfo)
      → count_members p (place overall reps (insert_sorted keeper_le r xs)) ≡ count_scanned p reps
  unfolding insert_sorted
  count-place_insert overall reps r [] = count-rep_members overall r reps
  count-place_insert overall reps r (x ∷ xs) =
      count-place_if overall reps (keeper_le r x) r x (x ∷ xs) (insert_sorted keeper_le r xs)

  pub count-place :
      (overall : FileInfo) (reps : List FileInfo)
      → count_members p (place overall reps (sort keeper_le reps)) ≡ count_scanned p reps
  unfolding sort total
  count-place overall [] = refl
  count-place overall (r ∷ rs) = count-place_insert overall (r ∷ rs) r (sort keeper_le rs)

  count-plan_format :
      (overall : FileInfo) (fs : List FileInfo)
      → count_members p (plan_format overall fs) ≡ count_scanned p fs
  unfolding plan_format
  count-plan_format overall fs =
      let gs = group_from (λ f. f.sha256) [] fs in
      let c = collapse_all gs in
      let a = total-append (λ m. is_path p m.path) c.1 (place overall c.0 (sort keeper_le c.0)) in
      let b = count-place overall c.0 in
      let d = count-collapse_all gs in let e = grouped (λ f. f.sha256) fs in omega arith

  count-plan_formats :
      (overall : FileInfo) (gs : List (List ℕ × List FileInfo))
      → count_members p (plan_formats overall gs) ≡ count_groups p gs
  unfolding plan_formats total
  count-plan_formats overall [] = refl
  count-plan_formats overall ((fmt, fs) ∷ gs) =
      let a =
        total-append (λ m. is_path p m.path) (plan_format overall fs) (plan_formats overall gs) in
      let b = count-plan_format overall fs in let ih = count-plan_formats overall gs in omega arith

  count-ranked_if :
      (fs : List FileInfo) (b : Bool) (x y : FileInfo) (xs ys : List FileInfo)
      → count_members p (plan_ranked fs (if b then x ∷ xs else y ∷ ys)) ≡ count_scanned p fs
  count-ranked_if fs true x y xs ys =
      count-plan_formats x (group_from (λ f. f.format) [] fs) ∙ grouped (λ f. f.format) fs
  count-ranked_if fs false x y xs ys =
      count-plan_formats y (group_from (λ f. f.format) [] fs) ∙ grouped (λ f. f.format) fs

  count-ranked_insert :
      (fs : List FileInfo) (r : FileInfo) (xs : List FileInfo)
      → count_members p (plan_ranked fs (insert_sorted keeper_le r xs)) ≡ count_scanned p fs
  unfolding insert_sorted
  count-ranked_insert fs r [] = count-ranked_if fs true r r [] []
  count-ranked_insert fs r (x ∷ xs) =
      count-ranked_if fs (keeper_le r x) r x (x ∷ xs) (insert_sorted keeper_le r xs)

  count-ranked :
      (fs : List FileInfo)
      → count_members p (plan_ranked fs (sort keeper_le fs)) ≡ count_scanned p fs
  unfolding sort total
  count-ranked [] = refl
  count-ranked (f ∷ fs) = count-ranked_insert (f ∷ fs) f (sort keeper_le fs)

  count-plan_work : (fs : List FileInfo) → count_members p (plan_work fs) ≡ count_scanned p fs
  unfolding plan_work
  count-plan_work fs =
      total-sort (λ m. is_path p m.path) (λ a b. text_le a.path b.path)
        (plan_ranked fs (sort keeper_le fs))
      ∙ count-ranked fs

  count-plan_works :
      (gs : List (List ℕ × List FileInfo)) → count_plan p (plan_works gs) ≡ count_groups p gs
  unfolding plan_works total
  count-plan_works [] = refl
  count-plan_works ((k, fs) ∷ gs) =
      let a = count-plan_work fs in let ih = count-plan_works gs in omega arith

-- A path stands in the plan as often as among the scanned files: each file has exactly one member,
-- in exactly one group, and the plan has no other members.
pub count-plan_dedup :
    (p : List ℕ) (files : List FileInfo) → count_plan p (plan_dedup files) ≡ count_scanned p files
unfolding plan_dedup
count-plan_dedup p files =
    total-sort (λ g. count_members p g.members) (λ a b. text_le a.work_key b.work_key)
      (plan_works (group_from (λ f. f.work_key) [] files))
    ∙ count-plan_works p (group_from (λ f. f.work_key) [] files)
    ∙ grouped p (λ f. f.work_key) files
