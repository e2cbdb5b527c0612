-- ===== src/BookFiler/FreeNames.antt =====
-- The names that `unique_path` tries.
use mathlib.Core.List.{
  append_cancel_left, append_cancel_right, head-eq_of_cons-eq, tail-eq_of_cons-eq,
}
use ebook_automation.Text.{decimal, str_of}
use ebook_automation.BookFiler.Path.{FilePath, path_eq, path_eq_iff, parent, name}
use ebook_automation.BookFiler.FileSystem.{Fs, is_file, is_dir, exists}
use ebook_automation.BookFiler.Unique.{stem_suffix, candidate, search, unique_path}
use ebook_automation.Common.{
  ℕ, zero, suc, ◌+◌, ◌-◌, ◌*◌, ◌/◌, ◌%◌, ◌≤◌, ◌<◌, ◌≡◌, refl, sym, ap, ◌∙◌, ◌≢◌, inl, inr, true,
  false, ◌||◌, List, [], ◌∷◌, ◌++◌, arith, ltb, if◌then◌else◌, length, Bool-cases,
}

-- the number that the digits stand for, after `n`
unfoldable value : ℕ → List ℕ → ℕ
value n [] = n
value n (d ∷ ds) = value (n * 10 + (d - 48)) ds

value-snoc : (n : ℕ) (ds : List ℕ) (d : ℕ) → value n (ds ++ d ∷ []) ≡ value n ds * 10 + (d - 48)
unfolding value
value-snoc n [] d = refl
value-snoc n (x ∷ ds) d = value-snoc (n * 10 + (x - 48)) ds d

value-decimal : (fuel n : ℕ) → n < fuel → value 0 (decimal fuel n) ≡ n
unfolding value decimal
value-decimal zero n h = omega arith
value-decimal (suc fuel) n h = elim (Bool-cases (ltb n 10)) [
  | inl small ↦ ground arith
  | inr big ↦
      let shorter : n / 10 < fuel = ground arith in
      ground (
        arith,
        value-snoc 0 (decimal fuel (n / 10)) (48 + n % 10),
        value-decimal fuel (n / 10) shorter,
      )
]

str_of-inj : (i j : ℕ) → str_of i ≡ str_of j → i ≡ j
str_of-inj i j e =
    sym (value-decimal (suc i) i (omega arith))
    ∙ ap (value 0) e
    ∙ value-decimal (suc j) j (omega arith)

candidate-inj : (dest : FilePath) (i j : ℕ) → candidate dest i ≡ candidate dest j → i ≡ j
unfolding candidate
candidate-inj dest i j e =
    let names = head-eq_of_cons-eq (append_cancel_left (parent dest) _ _ e) in
    let rest = append_cancel_left (stem_suffix (name dest)).0 _ _ names in
    str_of-inj i j
      (append_cancel_right (str_of i) (str_of j) _ (tail-eq_of_cons-eq (tail-eq_of_cons-eq rest)))

-- the paths of a file system
unfoldable file_paths : List (FilePath × List ℕ) → List FilePath → List FilePath
file_paths [] ds = ds
file_paths ((q, _) ∷ fs) ds = q ∷ file_paths fs ds

is_dir-file_paths :
    (p : FilePath) (files : List (FilePath × List ℕ)) (ds : List FilePath)
    → is_dir p (file_paths files ds) ≡ (is_file p files || is_dir p ds)
unfolding file_paths is_dir is_file
is_dir-file_paths p [] ds = refl
is_dir-file_paths p ((q, c) ∷ fs) ds = ground (arith, is_dir-file_paths p fs ds)

length-file_paths :
    (files : List (FilePath × List ℕ)) (ds : List FilePath)
    → length (file_paths files ds) ≡ length files + length ds
unfolding file_paths
length-file_paths [] ds = omega arith
length-file_paths (f ∷ fs) ds = ground (arith, length-file_paths fs ds)

unfoldable without : FilePath → List FilePath → List FilePath
without p [] = []
without p (q ∷ qs) = let rest = without p qs in if path_eq q p then rest else q ∷ rest

length-without_le : (p : FilePath) (qs : List FilePath) → length (without p qs) ≤ length qs
unfolding without
length-without_le p [] = omega arith
length-without_le p (q ∷ qs) = ground (arith, length-without_le p qs)

length-without :
    (p : FilePath) (qs : List FilePath) → is_dir p qs ≡ true → length (without p qs) < length qs
unfolding without is_dir
length-without p [] h = cc
length-without p (q ∷ qs) h = ground (arith, length-without p qs, length-without_le p qs)

is_dir-without :
    (p r : FilePath) (qs : List FilePath)
    → p ≢ r
    → is_dir r qs ≡ true
    → is_dir r (without p qs) ≡ true
unfolding without is_dir
is_dir-without p r [] ne h = cc
is_dir-without p r (q ∷ qs) ne h =
    ground (arith, is_dir-without p r qs ne, path_eq_iff q p, path_eq_iff q r)

-- The loop ends at a free path when its fuel is at least the number of taken paths.
search-free :
    (fuel i : ℕ) (dest : FilePath) (fs : Fs) (taken : List FilePath)
    → length taken ≤ fuel
    → ((j : ℕ)
        → i ≤ j
        → exists (candidate dest j) fs ≡ true
        → is_dir (candidate dest j) taken ≡ true)
    → exists (search fuel i dest fs) fs ≡ false
unfolding search is_dir
search-free zero i dest fs [] h all = elim (Bool-cases (exists (candidate dest i) fs)) [
  | inl there ↦ let e = all i (omega arith) there in cc
  | inr free ↦ free
]
search-free zero i dest fs (t ∷ ts) h all = absurd (omega arith)
search-free (suc fuel) i dest fs taken h all = elim (Bool-cases (exists (candidate dest i) fs)) [
  | inl there ↦
      let shorter : length (without (candidate dest i) taken) ≤ fuel =
        let l = length-without (candidate dest i) taken (all i (omega arith) there) in
        omega arith in
      let ih =
        search-free fuel (suc i) dest fs (without (candidate dest i) taken) shorter (λ j le ex.
          is_dir-without (candidate dest i) (candidate dest j) taken
            (λ e. let same = candidate-inj dest i j e in omega arith) (all j (omega arith) ex)) in
      simp (there, ih)
  | inr free ↦ simp free
]

-- Whatever is on the file system, the loop of `unique_path` ends, and the path that it returns is
-- free: it is neither a file nor a directory.
pub unique_path-free : (dest : FilePath) (fs : Fs) → exists (unique_path dest fs) fs ≡ false
unfolding unique_path
unique_path-free dest fs = elim (Bool-cases (exists dest fs)) [
  | inl there ↦
      let enough : length (file_paths fs.files fs.dirs) ≤ length fs.files + length fs.dirs + 1 =
        let l = length-file_paths fs.files fs.dirs in omega arith in
      let found =
        search-free (length fs.files + length fs.dirs + 1) 2 dest fs (file_paths fs.files fs.dirs)
          enough (λ j _ ex. is_dir-file_paths (candidate dest j) fs.files fs.dirs ∙ ex) in
      simp (there, found)
  | inr free ↦ simp free
]
