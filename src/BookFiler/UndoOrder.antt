-- ===== src/BookFiler/UndoOrder.antt =====
-- The order in which `undo_apply` takes the moves of a fresh run back.
use mathlib.Core.List.{append_assoc, append-nil}
use ebook_automation.BookFiler.Journal.{Entry, put_intent, collect_intents, intents_by_seq}
use ebook_automation.BookFiler.Undo.{insert_desc, sort_desc}
use ebook_automation.BookFiler.Apply.{World, commit_of}
use ebook_automation.BookFiler.Steps.{Ran, same, tried, made, finished, next}
use ebook_automation.Common.{
  ℕ, suc, ◌≤◌, ◌<◌, ◌≡◌, refl, sym, ap, ◌∙◌, Bool, true, false, ◌&&◌, List, [], ◌∷◌, ◌++◌, arith,
  ltb, leb, if◌then◌else◌,
}

-- the intents among the records, the last first
unfoldable pub reverse_intents : List Entry → List Entry
reverse_intents [] = []
reverse_intents (e ∷ es) = if e.is_commit then reverse_intents es else reverse_intents es ++ e ∷ []

unfoldable pub intents : List Entry → List Entry
intents [] = []
intents (e ∷ es) = let rest = intents es in if e.is_commit then rest else e ∷ rest

unfoldable all_below : ℕ → List Entry → Bool
all_below k [] = true
all_below k (x ∷ xs) = ltb x.seq k && all_below k xs

unfoldable all_from : ℕ → List Entry → Bool
all_from k [] = true
all_from k (x ∷ xs) = leb k x.seq && all_from k xs

put_intent-last :
    (e : Entry) (xs : List Entry) → all_below e.seq xs ≡ true → put_intent e xs ≡ xs ++ e ∷ []
unfolding put_intent all_below
put_intent-last e [] h = refl
put_intent-last e (x ∷ xs) h = ground (arith, put_intent-last e xs)

insert_desc-last :
    (e : Entry) (xs : List Entry) → all_from (suc e.seq) xs ≡ true → insert_desc e xs ≡ xs ++ e ∷ []
unfolding insert_desc all_from
insert_desc-last e [] h = refl
insert_desc-last e (x ∷ xs) h = ground (arith, insert_desc-last e xs)

all_below-snoc :
    (k : ℕ) (e : Entry) (xs : List Entry)
    → all_below k xs ≡ true
    → e.seq < k
    → all_below k (xs ++ e ∷ []) ≡ true
unfolding all_below
all_below-snoc k e [] h l = ground arith
all_below-snoc k e (x ∷ xs) h l = ground (arith, all_below-snoc k e xs)

all_below-suc : (k : ℕ) (xs : List Entry) → all_below k xs ≡ true → all_below (suc k) xs ≡ true
unfolding all_below
all_below-suc k [] h = refl
all_below-suc k (x ∷ xs) h = ground (arith, all_below-suc k xs)

all_from-snoc :
    (k : ℕ) (e : Entry) (xs : List Entry)
    → all_from k xs ≡ true
    → k ≤ e.seq
    → all_from k (xs ++ e ∷ []) ≡ true
unfolding all_from
all_from-snoc k e [] h l = ground arith
all_from-snoc k e (x ∷ xs) h l = ground (arith, all_from-snoc k e xs)

all_from-suc : (k : ℕ) (xs : List Entry) → all_from (suc k) xs ≡ true → all_from k xs ≡ true
unfolding all_from
all_from-suc k [] h = refl
all_from-suc k (x ∷ xs) h = ground (arith, all_from-suc k xs)

seq-from :
    {i : ℕ} (e : Entry) (xs : List Entry)
    → e.seq ≡ i
    → all_from (suc i) xs ≡ true
    → all_from (suc e.seq) xs ≡ true
seq-from e xs q h = ap (λ k. all_from (suc k) xs) q ∙ h

seq-below :
    {i : ℕ} (e : Entry) (xs : List Entry)
    → e.seq ≡ i
    → all_below i xs ≡ true
    → all_below e.seq xs ≡ true
seq-below e xs q h = ap (λ k. all_below k xs) q ∙ h

collect_intents-intent :
    (e : Entry) (out rest : List Entry)
    → e.is_commit ≡ false
    → all_below e.seq out ≡ true
    → collect_intents (out ++ e ∷ []) rest ≡ (out ++ e ∷ []) ++ intents rest
    → collect_intents out (e ∷ rest) ≡ out ++ intents (e ∷ rest)
unfolding collect_intents intents
collect_intents-intent e out rest c h ih =
    ap (λ b. collect_intents (if b then out else put_intent e out) rest) c
    ∙ ap (λ o. collect_intents o rest) (put_intent-last e out h)
    ∙ ih
    ∙ append_assoc out (e ∷ []) (intents rest)
    ∙ sym (ap (λ b. out ++ (if b then intents rest else e ∷ intents rest)) c)

collect_intents-Ran :
    {i : ℕ} {w w' : World} {es : List Entry} (out : List Entry)
    → Ran i w es w'
    → all_below i out ≡ true
    → collect_intents out es ≡ out ++ intents es
unfolding collect_intents intents
collect_intents-Ran out finished h = sym (append-nil out)
collect_intents-Ran {i} out (next same rest) h =
    collect_intents-Ran out rest (all_below-suc i out h)
collect_intents-Ran {i} out (next {es = es} (tried {e} q c f e' j) rest) h =
    collect_intents-intent e out es c (seq-below e out q h) (
      collect_intents-Ran (out ++ e ∷ []) rest
        (all_below-snoc (suc i) e out (all_below-suc i out h) (omega arith)))
collect_intents-Ran {i} out (next {es = es} (made {e} q c t f e' j) rest) h =
    collect_intents-intent e out (commit_of e ∷ es) c (seq-below e out q h) (
      collect_intents-Ran (out ++ e ∷ []) rest
        (all_below-snoc (suc i) e out (all_below-suc i out h) (omega arith)))

pub reverse_intents-intent :
    (e : Entry) (rest : List Entry)
    → e.is_commit ≡ false
    → reverse_intents (e ∷ rest) ≡ reverse_intents rest ++ e ∷ []
unfolding reverse_intents
reverse_intents-intent e rest c =
    ap (λ b. if b then reverse_intents rest else reverse_intents rest ++ e ∷ []) c

sort_desc-intent :
    (e : Entry) (rest : List Entry)
    → e.is_commit ≡ false
    → all_from (suc e.seq) (reverse_intents rest) ≡ true
    → sort_desc (intents rest) ≡ reverse_intents rest
    → sort_desc (intents (e ∷ rest)) ≡ reverse_intents (e ∷ rest)
unfolding sort_desc intents
sort_desc-intent e rest c h ih =
    ap (λ b. sort_desc (if b then intents rest else e ∷ intents rest)) c
    ∙ ap (insert_desc e) ih
    ∙ insert_desc-last e (reverse_intents rest) h
    ∙ sym (reverse_intents-intent e rest c)

reverse_intents-from :
    {i : ℕ} {w w' : World} {es : List Entry}
    → Ran i w es w'
    → all_from i (reverse_intents es) ≡ true
unfolding reverse_intents all_from
reverse_intents-from finished = refl
reverse_intents-from {i} (next {es = es} same rest) =
    all_from-suc i (reverse_intents es) (reverse_intents-from rest)
reverse_intents-from {i} (next {es = es} (tried {e} q c f e' j) rest) =
    ap (all_from i) (reverse_intents-intent e es c)
    ∙ all_from-snoc i e (reverse_intents es)
        (all_from-suc i (reverse_intents es) (reverse_intents-from rest)) (omega arith)
reverse_intents-from {i} (next {es = es} (made {e} q c t f e' j) rest) =
    ap (all_from i) (reverse_intents-intent e (commit_of e ∷ es) c)
    ∙ all_from-snoc i e (reverse_intents es)
        (all_from-suc i (reverse_intents es) (reverse_intents-from rest)) (omega arith)

sort_desc-Ran :
    {i : ℕ} {w w' : World} {es : List Entry}
    → Ran i w es w'
    → sort_desc (intents es) ≡ reverse_intents es
unfolding sort_desc intents reverse_intents
sort_desc-Ran finished = refl
sort_desc-Ran (next same rest) = sort_desc-Ran rest
sort_desc-Ran (next {es = es} (tried {e} q c f e' j) rest) =
    sort_desc-intent e es c (seq-from e (reverse_intents es) q (reverse_intents-from rest))
      (sort_desc-Ran rest)
sort_desc-Ran (next {es = es} (made {e} q c t f e' j) rest) =
    sort_desc-intent e (commit_of e ∷ es) c
      (seq-from e (reverse_intents es) q (reverse_intents-from rest)) (sort_desc-Ran rest)

-- The records of a fresh run are taken back in the reverse of their order.
pub order-Ran :
    {i : ℕ} {w w' : World} {es : List Entry}
    → Ran i w es w'
    → sort_desc (intents_by_seq es) ≡ reverse_intents es
unfolding all_below
order-Ran run = ap sort_desc (collect_intents-Ran [] run refl) ∙ sort_desc-Ran run
