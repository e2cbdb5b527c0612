-- ===== src/BookFiler/Identities.antt =====
-- What two books with one planned key share.
use ebook_automation.Text.{contains, lower}
use ebook_automation.BookFiler.Classify.{Words, split_words, end_word, is_word_char}
use ebook_automation.BookFiler.Identity.{
  BookMetadata, Evidence, by_isbn, by_meta, by_hash, dashed, join, evidence, render_key,
  planned_calibre_key, has_isbn_shape, isbn_digits, is_blank,
}
use ebook_automation.Common.{
  ℕ, ◌≡◌, refl, ap, ◌∙◌, inl, inr, false, ◌||◌, List, [], ◌∷◌, ◌++◌, arith, codes, Bool-cases,
}

contains-append :
    (c : ℕ) (xs ys : List ℕ) → contains c (xs ++ ys) ≡ (contains c xs || contains c ys)
unfolding contains
contains-append c [] ys = refl
contains-append c (x ∷ xs) ys = ground (arith, contains-append c xs ys)

cons_head : {x y : ℕ} {xs ys : List ℕ} → x ∷ xs ≡ y ∷ ys → x ≡ y
cons_head h = ground arith

cons_tail : {x y : ℕ} {xs ys : List ℕ} → x ∷ xs ≡ y ∷ ys → xs ≡ ys
cons_tail h = ground arith

cong-cons : {x y : ℕ} {xs ys : List ℕ} → x ≡ y → xs ≡ ys → x ∷ xs ≡ y ∷ ys
cong-cons e f = cc

-- the two texts around the first bar are determined
first_bar :
    (a b r s : List ℕ)
    → contains b'|' a ≡ false
    → contains b'|' b ≡ false
    → a ++ b'|' ∷ r ≡ b ++ b'|' ∷ s
    → (a ≡ b) × (r ≡ s)
unfolding contains
first_bar [] [] r s ha hb h = (refl, cons_tail h)
first_bar [] (y ∷ b) r s ha hb h = let e = cons_head h in ground (arith, e, hb)
first_bar (x ∷ a) [] r s ha hb h = let e = cons_head h in ground (arith, e, ha)
first_bar (x ∷ a) (y ∷ b) r s ha hb h =
    let rest = first_bar a b r s (ground (arith, ha)) (ground (arith, hb)) (cons_tail h) in
    (cong-cons (cons_head h) rest.0, rest.1)

dashed-bar : (t : List ℕ) → contains b'|' t ≡ false → contains b'|' (dashed t) ≡ false
unfolding contains
dashed-bar [] h = refl
dashed-bar (c ∷ cs) h = ground (arith, h)

end_word-bar :
    (w : List ℕ) (ws : Words)
    → contains b'|' w ≡ false
    → contains b'|' (join ws) ≡ false
    → contains b'|' (join (end_word w ws)) ≡ false
unfolding join
end_word-bar [] ws hw h = h
end_word-bar (c ∷ cs) ws hw h =
    rw (contains-append b'|' (c ∷ cs) (dashed (join ws))) (rw hw (dashed-bar (join ws) h))

split_words-bar :
    (w cs : List ℕ) → contains b'|' w ≡ false → contains b'|' (join (split_words w cs)) ≡ false
unfolding split_words contains join
split_words-bar w [] hw = end_word-bar w [] hw refl
split_words-bar w (c ∷ cs) hw = elim (Bool-cases (is_word_char c)) [
  | inl word ↦ rw word (
      split_words-bar (w ++ c ∷ []) cs (contains-append b'|' w (c ∷ []) ∙ ground (arith, word, hw)))
  | inr other ↦ rw other (end_word-bar w (split_words [] cs) hw (split_words-bar [] cs refl))
]

-- an author and a title without a bar
abbrev IsPlain : Evidence → Type 0
IsPlain (by_isbn digits) = Unit {0}
IsPlain (by_meta author title year) = (contains b'|' author ≡ false) × (contains b'|' title ≡ false)
IsPlain (by_hash digits) = Unit {0}

evidence-IsPlain : (meta : BookMetadata) (sha : List ℕ) → IsPlain (evidence meta sha)
unfolding evidence contains
evidence-IsPlain meta sha = elim (Bool-cases (has_isbn_shape (isbn_digits meta.isbn))) [
  | inl isbn ↦ rw isbn tt
  | inr none_given ↦ elim (Bool-cases (is_blank meta.author || is_blank meta.title)) [
    | inl blank ↦ rw (none_given, blank) tt
    | inr named ↦
        rw (none_given, named)
          (split_words-bar [] (lower meta.author) refl, split_words-bar [] (lower meta.title) refl)
  ]
]

append_cancel : (p : List ℕ) {xs ys : List ℕ} → p ++ xs ≡ p ++ ys → xs ≡ ys
append_cancel [] h = h
append_cancel (c ∷ cs) h = append_cancel cs (cons_tail h)

cong-meta : {a b t u y z : List ℕ} → a ≡ b → t ≡ u → y ≡ z → by_meta a t y ≡ by_meta b u z
cong-meta p q r = cc

render_key-injective :
    (d e : Evidence) → IsPlain d → IsPlain e → render_key d ≡ render_key e → d ≡ e
unfolding render_key
render_key-injective (by_isbn x) (by_isbn y) p q h = ap by_isbn (append_cancel (codes "isbn:") h)
render_key-injective (by_isbn x) (by_meta a t y) p q h = let e = cons_head h in ground (arith, e)
render_key-injective (by_isbn x) (by_hash y) p q h = let e = cons_head h in ground (arith, e)
render_key-injective (by_meta a t y) (by_isbn x) p q h = let e = cons_head h in ground (arith, e)
render_key-injective (by_meta a t y) (by_meta b u z) p q h =
    let author =
      first_bar a b (t ++ b'|' ∷ y) (u ++ b'|' ∷ z) p.0 q.0 (append_cancel (codes "meta:") h) in
    let title = first_bar t u y z p.1 q.1 author.1 in cong-meta author.0 title.0 title.1
render_key-injective (by_meta a t y) (by_hash x) p q h = let e = cons_head h in ground (arith, e)
render_key-injective (by_hash x) (by_isbn y) p q h = let e = cons_head h in ground (arith, e)
render_key-injective (by_hash x) (by_meta a t y) p q h = let e = cons_head h in ground (arith, e)
render_key-injective (by_hash x) (by_hash y) p q h = ap by_hash (append_cancel (codes "sha:") h)

-- Two books have one planned key only where they stand on the same evidence: the same ISBN, or the same
-- normalized author and title and the same year, or the same first 16 digits of the hash.
pub planned_calibre_key-determines :
    (m n : BookMetadata) (s t : List ℕ)
    → planned_calibre_key m s ≡ planned_calibre_key n t
    → evidence m s ≡ evidence n t
unfolding planned_calibre_key
planned_calibre_key-determines m n s t h =
    render_key-injective (evidence m s) (evidence n t) (evidence-IsPlain m s) (evidence-IsPlain n t)
      h
