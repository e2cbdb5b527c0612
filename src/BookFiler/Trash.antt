-- ===== src/BookFiler/Trash.antt =====
-- What a plan puts into the trash.

use ebook_automation.Text.{text_eq}
use ebook_automation.BookFiler.Manifest.{text_le}
use ebook_automation.BookFiler.Dedup.{
  FileInfo, Member, Action, keep, merge_format, trash, review, Why, canonical_copy,
  alternate_format, distinct_copy, duplicate_of, keeper_le, sort, group_from, collapse_all,
  rep_member, rep_members, place, plan_format, plan_formats, plan_ranked, plan_work, plan_works,
  plan_dedup,
}
use ebook_automation.BookFiler.Counted.{
  total, total-append, total-sort, is_path, count_scanned, count_members, count-place,
}
use ebook_automation.BookFiler.Every.{All, In, All-map, All-append, All-sort, All-In}
use ebook_automation.BookFiler.Twins.{
  Keyed, Keyed-group_from, Twins, CoveredBy, Covered, Covered-collapse_all,
}
use ebook_automation.Common.{
  ℕ, ◌+◌, ◌≤◌, ◌≡◌, refl, inl, inr, Bool, not, ◌&&◌, List, [], ◌∷◌, ◌++◌, arith, Bool-cases,
}

-- how often a path is one of the members that are not trashed
abbrev pub kept_weight : List ℕ → Action → List ℕ → ℕ
kept_weight p keep q = is_path p q
kept_weight p merge_format q = is_path p q
kept_weight p review q = is_path p q
kept_weight p trash q = 0

abbrev pub count_kept : List ℕ → List Member → ℕ
count_kept p = total (λ m. kept_weight p m.action m.path)

kept-rep_member :
    (p : List ℕ) (overall fmt_rep r : FileInfo)
    → kept_weight p (rep_member overall fmt_rep r).action (rep_member overall fmt_rep r).path
      ≡ is_path p (rep_member overall fmt_rep r).path
unfolding rep_member
kept-rep_member p overall fmt_rep r = ground arith

kept-rep_members :
    (p : List ℕ) (overall fmt_rep : FileInfo) (rs : List FileInfo)
    → count_kept p (rep_members overall fmt_rep rs)
      ≡ count_members p (rep_members overall fmt_rep rs)
unfolding rep_members total
kept-rep_members p overall fmt_rep [] = refl
kept-rep_members p overall fmt_rep (r ∷ rs) =
    let a = kept-rep_member p overall fmt_rep r in
    let ih = kept-rep_members p overall fmt_rep rs in omega arith

kept-place :
    (p : List ℕ) (overall : FileInfo) (reps ranked : List FileInfo)
    → count_kept p (place overall reps ranked) ≡ count_members p (place overall reps ranked)
unfolding total
kept-place p overall reps [] = refl
kept-place p overall reps (r ∷ rs) = kept-rep_members p overall r reps

-- A member that is trashed names a path that the members keep, and its file has a twin of that path.
abbrev pub SafeBy : (FileInfo → Type 0) → List Member → List ℕ → Why → Type 0
SafeBy Q members p (duplicate_of k) = Twins Q p k × (1 ≤ count_kept k members)
SafeBy Q members p canonical_copy = ⊥
SafeBy Q members p alternate_format = ⊥
SafeBy Q members p distinct_copy = ⊥

abbrev pub SafeAs : (FileInfo → Type 0) → List Member → List ℕ → Action → Why → Type 0
SafeAs Q members p trash why = SafeBy Q members p why
SafeAs Q members p keep why = Unit {0}
SafeAs Q members p merge_format why = Unit {0}
SafeAs Q members p review why = Unit {0}

abbrev pub SafeIn : (FileInfo → Type 0) → List Member → Member → Type 0
SafeIn Q members m = SafeAs Q members m.path m.action m.why

SafeBy-map :
    (Q : FileInfo → Type 0) (xs ys : List Member) (p : List ℕ) (w : Why)
    → ((k : List ℕ) → count_kept k xs ≤ count_kept k ys)
    → SafeBy Q xs p w
    → SafeBy Q ys p w
SafeBy-map Q xs ys p (duplicate_of k) h (t, c) = (t, ground (arith, c, h k))
SafeBy-map Q xs ys p canonical_copy h c = c
SafeBy-map Q xs ys p alternate_format h c = c
SafeBy-map Q xs ys p distinct_copy h c = c

SafeAs-map :
    (Q : FileInfo → Type 0) (xs ys : List Member) (p : List ℕ) (a : Action) (w : Why)
    → ((k : List ℕ) → count_kept k xs ≤ count_kept k ys)
    → SafeAs Q xs p a w
    → SafeAs Q ys p a w
SafeAs-map Q xs ys p trash w h c = SafeBy-map Q xs ys p w h c
SafeAs-map Q xs ys p keep w h c = tt
SafeAs-map Q xs ys p merge_format w h c = tt
SafeAs-map Q xs ys p review w h c = tt

SafeIn-map :
    (Q : FileInfo → Type 0) (xs ys : List Member)
    → ((k : List ℕ) → count_kept k xs ≤ count_kept k ys)
    → (ms : List Member) → All (SafeIn Q xs) ms
    → All (SafeIn Q ys) ms
SafeIn-map Q xs ys h =
    All-map (SafeIn Q xs) (SafeIn Q ys) (λ m. SafeAs-map Q xs ys m.path m.action m.why h)

-- what is trashed as a duplicate of a representative is safe where the members keep those
covered_is_safe :
    (Q : FileInfo → Type 0) (reps : List FileInfo) (members : List Member) (p : List ℕ) (a : Action)
    (w : Why)
    → ((k : List ℕ) → count_scanned k reps ≤ count_kept k members)
    → CoveredBy Q reps p w
    → SafeAs Q members p a w
covered_is_safe Q reps members p trash (duplicate_of k) h (t, c) = (t, ground (arith, c, h k))
covered_is_safe Q reps members p trash canonical_copy h c = c
covered_is_safe Q reps members p trash alternate_format h c = c
covered_is_safe Q reps members p trash distinct_copy h c = c
covered_is_safe Q reps members p keep w h c = tt
covered_is_safe Q reps members p merge_format w h c = tt
covered_is_safe Q reps members p review w h c = tt

SafeIn-rep_member :
    (Q : FileInfo → Type 0) (members : List Member) (overall fmt_rep r : FileInfo)
    → SafeIn Q members (rep_member overall fmt_rep r)
unfolding rep_member
SafeIn-rep_member Q members overall fmt_rep r = elim (Bool-cases (text_eq r.path overall.path)) [
  | inl first ↦ rw first tt
  | inr other ↦
      elim (Bool-cases (text_eq r.path fmt_rep.path && not (text_eq r.format overall.format))) [
        | inl merged ↦ rw (other, merged) tt
        | inr distinct ↦ rw (other, distinct) tt
      ]
]

SafeIn-rep_members :
    (Q : FileInfo → Type 0) (members : List Member) (overall fmt_rep : FileInfo)
    (rs : List FileInfo)
    → All (SafeIn Q members) (rep_members overall fmt_rep rs)
unfolding All rep_members
SafeIn-rep_members Q members overall fmt_rep [] = tt
SafeIn-rep_members Q members overall fmt_rep (r ∷ rs) =
    (SafeIn-rep_member Q members overall fmt_rep r, SafeIn-rep_members Q members overall fmt_rep rs)

SafeIn-place :
    (Q : FileInfo → Type 0) (members : List Member) (overall : FileInfo)
    (reps ranked : List FileInfo)
    → All (SafeIn Q members) (place overall reps ranked)
unfolding All
SafeIn-place Q members overall reps [] = tt
SafeIn-place Q members overall reps (r ∷ rs) = SafeIn-rep_members Q members overall r reps

-- the members of a list, safe within it
abbrev pub Safe : (FileInfo → Type 0) → List Member → Type 0
Safe Q members = All (SafeIn Q members) members

module _ (Q : FileInfo → Type 0) where
  Safe-append : (xs ys : List Member) → Safe Q xs → Safe Q ys → Safe Q (xs ++ ys)
  Safe-append xs ys a b =
      let sum : (p : List ℕ) → count_kept p (xs ++ ys) ≡ count_kept p xs + count_kept p ys =
        λ p. total-append (λ m. kept_weight p m.action m.path) xs ys in
      All-append (SafeIn Q (xs ++ ys)) xs ys
        (SafeIn-map Q xs (xs ++ ys) (λ p. let e = sum p in omega arith) xs a)
        (SafeIn-map Q ys (xs ++ ys) (λ p. let e = sum p in omega arith) ys b)

  Safe-plan_format :
      (overall : FileInfo) (fs : List FileInfo) → All Q fs → Safe Q (plan_format overall fs)
  unfolding plan_format All
  Safe-plan_format overall fs a =
      let c = collapse_all (group_from (λ f. f.sha256) [] fs) in
      let placed = place overall c.0 (sort keeper_le c.0) in
      let covered =
        Covered-collapse_all Q (group_from (λ f. f.sha256) [] fs)
          (Keyed-group_from Q (λ f. f.sha256) [] fs a tt) in
      let there : (p : List ℕ) → count_scanned p c.0 ≤ count_kept p (c.1 ++ placed) = λ p.
        let e = total-append (λ m. kept_weight p m.action m.path) c.1 placed in
        let k = kept-place p overall c.0 (sort keeper_le c.0) in
        let n = count-place p overall c.0 in omega arith in
      All-append (SafeIn Q (c.1 ++ placed)) c.1 placed
        (All-map (Covered Q c.0) (SafeIn Q (c.1 ++ placed))
          (λ m. covered_is_safe Q c.0 (c.1 ++ placed) m.path m.action m.why there) c.1 covered)
        (SafeIn-place Q (c.1 ++ placed) overall c.0 (sort keeper_le c.0))

  Safe-plan_formats :
      (overall : FileInfo) (gs : List (List ℕ × List FileInfo))
      → All (Keyed Q (λ f. f.format)) gs
      → Safe Q (plan_formats overall gs)
  unfolding All plan_formats
  Safe-plan_formats overall [] a = tt
  Safe-plan_formats overall ((fmt, fs) ∷ gs) (g, a) =
      Safe-append (plan_format overall fs) (plan_formats overall gs)
        (Safe-plan_format overall fs (All-map (λ f. Q f × (f.format ≡ fmt)) Q (λ f h. h.0) fs g))
        (Safe-plan_formats overall gs a)

  Safe-plan_ranked : (fs ranked : List FileInfo) → All Q fs → Safe Q (plan_ranked fs ranked)
  unfolding All
  Safe-plan_ranked fs [] a = tt
  Safe-plan_ranked fs (overall ∷ _) a =
      Safe-plan_formats overall (group_from (λ f. f.format) [] fs)
        (Keyed-group_from Q (λ f. f.format) [] fs a tt)

  Safe-sort : (le : Member → Member → Bool) (ms : List Member) → Safe Q ms → Safe Q (sort le ms)
  Safe-sort le ms a =
      SafeIn-map Q ms (sort le ms)
        (λ p. let e = total-sort (λ m. kept_weight p m.action m.path) le ms in omega arith)
        (sort le ms) (All-sort (SafeIn Q ms) le ms a)

  Safe-plan_works :
      (gs : List (List ℕ × List FileInfo))
      → All (Keyed Q (λ f. f.work_key)) gs
      → All (λ g. Safe Q g.members) (plan_works gs)
  unfolding All plan_works plan_work
  Safe-plan_works [] a = tt
  Safe-plan_works ((k, fs) ∷ gs) (g, a) = (
    Safe-sort (λ x y. text_le x.path y.path) (plan_ranked fs (sort keeper_le fs))
        (Safe-plan_ranked fs (sort keeper_le fs)
          (All-map (λ f. Q f × (f.work_key ≡ k)) Q (λ f h. h.0) fs g)),
    Safe-plan_works gs a,
  )

-- Whatever is trashed is the duplicate of a kept path: it names that path as the reason, among the scanned files is one with its
-- path and one with the kept path that have the same sha256, and the same group has a member of
-- the kept path that is not trashed.
pub plan_dedup-Safe :
    (files : List FileInfo) → All (λ g. Safe (λ f. In f files) g.members) (plan_dedup files)
unfolding plan_dedup All
plan_dedup-Safe files =
    All-sort (λ g. Safe (λ f. In f files) g.members) (λ a b. text_le a.work_key b.work_key)
      (plan_works (group_from (λ f. f.work_key) [] files))
      (Safe-plan_works (λ f. In f files) (group_from (λ f. f.work_key) [] files)
        (Keyed-group_from (λ f. In f files) (λ f. f.work_key) [] files (All-In files) tt))
