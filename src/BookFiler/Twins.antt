-- ===== src/BookFiler/Twins.antt =====
-- The files that a trashed member of a plan stands for.

use ebook_automation.Text.{text_eq}
use ebook_automation.BookFiler.Path.{text_eq_iff}
use ebook_automation.BookFiler.Dedup.{
  FileInfo, Member, Why, canonical_copy, alternate_format, distinct_copy, duplicate_of, keeper_le,
  sort, add_to, group_from, trash_all, collapse, collapse_all,
}
use ebook_automation.BookFiler.Counted.{total, total-append, is_path, count_scanned}
use ebook_automation.BookFiler.Every.{All, All-map, All-if, All-append, All-sort}
use ebook_automation.Common.{ℕ, ◌+◌, ◌≤◌, ◌≡◌, refl, sym, ◌∙◌, List, [], ◌∷◌, ◌++◌, arith}

-- the files of a group have its key, and what holds of all files
abbrev pub Keyed : (FileInfo → Type 0) → (FileInfo → List ℕ) → List ℕ × List FileInfo → Type 0
Keyed Q key (k, fs) = All (λ f. Q f × (key f ≡ k)) fs

module _ (Q : FileInfo → Type 0) (key : FileInfo → List ℕ) where
  Keyed-add_to :
      (f : FileInfo) (gs : List (List ℕ × List FileInfo))
      → Q f
      → All (Keyed Q key) gs
      → All (Keyed Q key) (add_to (key f) f gs)
  unfolding All add_to
  Keyed-add_to f [] q a = (((q, refl), tt), tt)
  Keyed-add_to f ((k, fs) ∷ gs) q (g, a) =
      All-if (Keyed Q key) (text_eq k (key f)) _ _
        (λ e. (
          All-append (λ x. Q x × (key x ≡ k)) fs (f ∷ []) g
              ((q, sym ((text_eq_iff k (key f)).0 e)), tt),
          a,
        ))
        (λ e. (g, Keyed-add_to f gs q a))

  pub Keyed-group_from :
      (gs : List (List ℕ × List FileInfo)) (fs : List FileInfo)
      → All Q fs
      → All (Keyed Q key) gs
      → All (Keyed Q key) (group_from key gs fs)
  unfolding All group_from
  Keyed-group_from gs [] a b = b
  Keyed-group_from gs (f ∷ fs) (q, a) b =
      Keyed-group_from (add_to (key f) f gs) fs a (Keyed-add_to f gs q b)

-- A member of a trashed file: a file with its path, and a file with the path that is kept, which
-- have one content.
pub record Twins (Q : FileInfo → Type 0) (p k : List ℕ) : Type 0 where
  pub file : FileInfo
  pub kept : FileInfo
  pub is_file : Q file
  pub is_kept : Q kept
  pub file_path : file.path ≡ p
  pub kept_path : kept.path ≡ k
  pub same_content : file.sha256 ≡ kept.sha256

-- a member that is trashed names a kept path `k`: the member's file and one of `k` have one content,
-- and `k` is among the representatives
abbrev pub CoveredBy : (FileInfo → Type 0) → List FileInfo → List ℕ → Why → Type 0
CoveredBy Q reps p (duplicate_of k) = Twins Q p k × (1 ≤ count_scanned k reps)
CoveredBy Q reps p canonical_copy = ⊥
CoveredBy Q reps p alternate_format = ⊥
CoveredBy Q reps p distinct_copy = ⊥

abbrev pub Covered : (FileInfo → Type 0) → List FileInfo → Member → Type 0
Covered Q reps m = CoveredBy Q reps m.path m.why

module _ (Q : FileInfo → Type 0) (sha : List ℕ) where
  Covered-trash_all :
      (kept : FileInfo) (fs : List FileInfo)
      → Q kept
      → kept.sha256 ≡ sha
      → All (λ f. Q f × (f.sha256 ≡ sha)) fs
      → All (Covered Q (kept ∷ [])) (trash_all kept fs)
  unfolding All trash_all total
  Covered-trash_all kept [] q s a = tt
  Covered-trash_all kept (f ∷ fs) q s ((qf, sf), a) = (
    (
      record {
        file = f;
        kept = kept;
        is_file = qf;
        is_kept = q;
        file_path = refl;
        kept_path = refl;
        same_content = sf ∙ sym s;
      },
      ground (arith, text_eq_iff kept.path kept.path),
    ),
    Covered-trash_all kept fs q s a,
  )

  Covered-collapse :
      (fs : List FileInfo)
      → All (λ f. Q f × (f.sha256 ≡ sha)) fs
      → All (Covered Q (collapse fs).0) (collapse fs).1
  unfolding All
  Covered-collapse [] a = tt
  Covered-collapse (r ∷ extras) ((q, s), a) = Covered-trash_all r extras q s a

Covered-map :
    (Q : FileInfo → Type 0) (reps more : List FileInfo)
    → ((k : List ℕ) → count_scanned k reps ≤ count_scanned k more)
    → (ms : List Member) → All (Covered Q reps) ms
    → All (Covered Q more) ms
Covered-map Q reps more h = All-map (Covered Q reps) (Covered Q more) (λ m. at m.path m.why)
  where
    at : (p : List ℕ) (w : Why) → CoveredBy Q reps p w → CoveredBy Q more p w
    at p (duplicate_of k) (t, c) = (t, ground (arith, c, h k))
    at p canonical_copy c = c
    at p alternate_format c = c
    at p distinct_copy c = c

pub Covered-collapse_all :
    (Q : FileInfo → Type 0) (gs : List (List ℕ × List FileInfo))
    → All (Keyed Q (λ f. f.sha256)) gs
    → All (Covered Q (collapse_all gs).0) (collapse_all gs).1
unfolding All collapse_all
Covered-collapse_all Q [] a = tt
Covered-collapse_all Q ((k, dups) ∷ gs) (g, a) =
    let here = collapse (sort keeper_le dups) in
    let rest = collapse_all gs in
    let now =
      Covered-collapse Q k (sort keeper_le dups)
        (All-sort (λ f. Q f × (f.sha256 ≡ k)) keeper_le dups g) in
    let later = Covered-collapse_all Q gs a in
    let sum : (p : List ℕ)
        → count_scanned p (here.0 ++ rest.0) ≡ count_scanned p here.0 + count_scanned p rest.0 =
      λ p. total-append (λ f. is_path p f.path) here.0 rest.0 in
    All-append (Covered Q (here.0 ++ rest.0)) here.1 rest.1
      (Covered-map Q here.0 (here.0 ++ rest.0) (λ p. let e = sum p in omega arith) here.1 now)
      (Covered-map Q rest.0 (here.0 ++ rest.0) (λ p. let e = sum p in omega arith) rest.1 later)
