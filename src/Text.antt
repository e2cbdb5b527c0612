-- ===== src/Text.antt =====
-- Texts as lists of code points, with the operations of Python that the source uses on them;
-- `lower` is Python's on ASCII text.
use ebook_automation.Common.{
  ℕ, zero, suc, ◌+◌, ◌/◌, ◌%◌, ◌≡◌, refl, ap, inl, inr, Bool, true, false, ◌&&◌, ◌||◌, Option, none,
  some, List, [], ◌∷◌, ◌++◌, map, arith, ltb, leb, ◌==◌, if◌then◌else◌, Bool-cases,
}

-- the whitespace of `str.strip`: that of ASCII, and of the rest of Unicode
abbrev pub is_ascii_space : ℕ → Bool
is_ascii_space c = c == 32 || ((leb 9 c && leb c 13) || (leb 28 c && leb c 31))

abbrev pub is_wide_space : ℕ → Bool
is_wide_space c =
    c == 133
    || (c == 160
        || (c == 5760
            || ((leb 8192 c && leb c 8202)
                || (c == 8232 || (c == 8233 || (c == 8239 || (c == 8287 || c == 12288)))))))

unfoldable pub is_space : ℕ → Bool
is_space c = is_ascii_space c || is_wide_space c

unfoldable pub lower_char : ℕ → ℕ
lower_char c = if leb b'A' c && leb c b'Z' then c + 32 else c

abbrev pub lower : List ℕ → List ℕ
lower = map lower_char

unfoldable pub strip_left : List ℕ → List ℕ
unfolding is_space
strip_left [] = []
strip_left (c ∷ cs) = let rest = strip_left cs in if is_space c then rest else c ∷ cs

-- what is left of the text when its trailing whitespace is gone
unfoldable pub strip_right : List ℕ → List ℕ
unfolding is_space
strip_right [] = []
strip_right (c ∷ cs) = elim (strip_right cs) [
  | [] ↦ (if is_space c then [] else c ∷ [])
  | d ∷ ds ↦ c ∷ d ∷ ds
]

unfoldable pub strip : List ℕ → List ℕ
unfolding strip_left strip_right
strip cs = strip_right (strip_left cs)

unfoldable pub text_eq : List ℕ → List ℕ → Bool
text_eq [] [] = true
text_eq [] (d ∷ ds) = false
text_eq (c ∷ cs) [] = false
text_eq (c ∷ cs) (d ∷ ds) = c == d && text_eq cs ds

-- `ch in text`
unfoldable pub contains : ℕ → List ℕ → Bool
contains ch [] = false
contains ch (c ∷ cs) = c == ch || contains ch cs

-- the parts of `c ∷ cs` by those of `cs`
unfoldable pub extend_parts : ℕ → ℕ → List ℕ → Option (List ℕ × List ℕ) → Option (List ℕ × List ℕ)
extend_parts ch c cs none = if c == ch then some ([], cs) else none
extend_parts ch c cs (some (l, d)) = some (c ∷ l, d)

-- `text.rpartition(ch)`: the parts before and after the last `ch`, `none` where there is none
unfoldable pub rpartition : ℕ → List ℕ → Option (List ℕ × List ℕ)
unfolding extend_parts
rpartition ch [] = none
rpartition ch (c ∷ cs) = extend_parts ch c cs (rpartition ch cs)

-- `str(n)`, with a digit for each unit of fuel
unfoldable pub decimal : ℕ → ℕ → List ℕ
decimal zero n = []
decimal (suc fuel) n =
    let rest = decimal fuel (n / 10) in
    if ltb n 10 then (48 + n) ∷ [] else rest ++ (48 + n % 10) ∷ []

abbrev pub str_of : ℕ → List ℕ
str_of n = decimal (suc n) n

-- `text[:n]`
unfoldable pub take : ℕ → List ℕ → List ℕ
take zero cs = []
take (suc n) [] = []
take (suc n) (c ∷ cs) = c ∷ take n cs

pub text_eq-true : (xs ys : List ℕ) → text_eq xs ys ≡ true → xs ≡ ys
unfolding text_eq
text_eq-true [] [] h = refl
text_eq-true [] (y ∷ ys) h = cc
text_eq-true (x ∷ xs) [] h = cc
text_eq-true (x ∷ xs) (y ∷ ys) h = ground (arith, text_eq-true xs ys)

-- what joins to a text around `ch`
abbrev pub Joins : ℕ → List ℕ → Option (List ℕ × List ℕ) → Type 0
Joins ch cs none = Unit {0}
Joins ch cs (some (l, d)) = cs ≡ l ++ ch ∷ d

extend-Joins :
    (ch c : ℕ) (cs : List ℕ) (o : Option (List ℕ × List ℕ))
    → Joins ch cs o
    → Joins ch (c ∷ cs) (extend_parts ch c cs o)
unfolding extend_parts
extend-Joins ch c cs none h = elim (Bool-cases (c == ch)) [
  | inl same ↦ rw same (ground arith)
  | inr other ↦ rw other tt
]
extend-Joins ch c cs (some (l, d)) h = ap (λ t. c ∷ t) h

-- The parts that `rpartition` gives join to the text around `ch`.
pub rpartition-Joins : (ch : ℕ) (cs : List ℕ) → Joins ch cs (rpartition ch cs)
unfolding rpartition
rpartition-Joins ch [] = tt
rpartition-Joins ch (c ∷ cs) = extend-Joins ch c cs (rpartition ch cs) (rpartition-Joins ch cs)
