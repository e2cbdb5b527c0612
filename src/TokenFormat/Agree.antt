-- ===== src/TokenFormat/Agree.antt =====
-- The two tests of the token format in web_service/token_validation.py and
-- web_service/token_store.py, compared.
use ebook_automation.Common.{
  ℕ, zero, suc, ◌≡◌, refl, ap, ◌↔◌, ◌⊎◌, inl, inr, Bool, true, List, [], ◌∷◌, ◌++◌, arith, length,
}
use ebook_automation.TokenFormat.{
  at_end, at_dollar, validate_token_format, token_regex, match_prefix, match_body, is_token_char,
  token_prefix,
}

-- Every character satisfies the class.
abbrev pub AllTokenChars : List ℕ → Type 0
AllTokenChars [] = Unit {0}
AllTokenChars (c ∷ cs) = (is_token_char c ≡ true) × AllTokenChars cs

-- The format in words: the prefix, and then a body of 43 characters of the class.
pub record HasTokenFormat (cs : List ℕ) : Type 0 where
  pub body : List ℕ
  pub size : length body ≡ 43
  pub chars : AllTokenChars body
  pub split : cs ≡ token_prefix ++ body

match_prefix_sound :
    (rest : List ℕ → Bool) (ps cs : List ℕ)
    → match_prefix rest ps cs ≡ true
    → (d : List ℕ) × (cs ≡ ps ++ d) × (rest d ≡ true)
unfolding match_prefix
match_prefix_sound rest [] cs h = (cs, refl, h)
match_prefix_sound rest (p ∷ ps) [] h = cc
match_prefix_sound rest (p ∷ ps) (c ∷ cs) h =
    let e : (c ≡ p) × (match_prefix rest ps cs ≡ true) = ground arith in
    let (d, s, r) = match_prefix_sound rest ps cs e.1 in (d, ground arith, r)

match_prefix_complete :
    (rest : List ℕ → Bool) (ps d : List ℕ) → rest d ≡ true → match_prefix rest ps (ps ++ d) ≡ true
unfolding match_prefix
match_prefix_complete rest [] d h = h
match_prefix_complete rest (p ∷ ps) d h = ground (arith, match_prefix_complete rest ps d h)

match_body_sound :
    (n : ℕ) (cs : List ℕ) → match_body at_end n cs ≡ true → (length cs ≡ n) × AllTokenChars cs
unfolding match_body at_end
match_body_sound zero [] h = (refl, tt)
match_body_sound zero (c ∷ cs) h = cc
match_body_sound (suc n) [] h = cc
match_body_sound (suc n) (c ∷ cs) h = ground (arith, match_body_sound n cs)

match_body_complete :
    (n : ℕ) (cs : List ℕ) → length cs ≡ n → AllTokenChars cs → match_body at_end n cs ≡ true
unfolding match_body at_end
match_body_complete zero [] h a = refl
match_body_complete zero (c ∷ cs) h a = absurd (omega arith)
match_body_complete (suc n) [] h a = absurd (omega arith)
match_body_complete (suc n) (c ∷ cs) h a =
    ground (arith, match_body_complete n cs (omega arith) a.1)

-- A text passes `validate_token_format` exactly when it is the prefix `lb_pk_` followed by 43
-- characters of the class, and nothing after them.
pub validate_token_format_iff :
    (cs : List ℕ) → (validate_token_format cs ≡ true) ↔ HasTokenFormat cs
unfolding validate_token_format
validate_token_format_iff cs = (
  λ h.
      let (d, s, r) = match_prefix_sound (match_body at_end 43) token_prefix cs h in
      record {
        body = d;
        size = (match_body_sound 43 d r).0;
        chars = (match_body_sound 43 d r).1;
        split = s;
      },
  λ f. rw f.split (
      match_prefix_complete (match_body at_end 43) token_prefix f.body
        (match_body_complete 43 f.body f.size f.chars)),
)

-- `cs` is a text that passes, and a newline.
abbrev pub IsNewlineAfter : (List ℕ → Bool) → List ℕ → Type 0
IsNewlineAfter test cs = (d : List ℕ) × (cs ≡ d ++ 10 ∷ []) × (test d ≡ true)

match_body_dollar :
    (n : ℕ) (cs : List ℕ)
    → match_body at_dollar n cs ≡ true
    → (match_body at_end n cs ≡ true) ⊎ IsNewlineAfter (match_body at_end n) cs
unfolding match_body at_dollar at_end
match_body_dollar zero [] h = inl refl
match_body_dollar zero (c ∷ []) h = inr ([], ground arith, refl)
match_body_dollar zero (c ∷ d ∷ cs) h = absurd (ground arith)
match_body_dollar (suc n) [] h = inl h
match_body_dollar (suc n) (c ∷ cs) h =
    let e : (is_token_char c ≡ true) × (match_body at_dollar n cs ≡ true) = ground arith in
    elim (match_body_dollar n cs e.1) [
      | inl p ↦ inl (ground arith)
      | inr (d, s, r) ↦ inr (c ∷ d, ap (λ t. c ∷ t) s, ground arith)
    ]

dollar_of_end :
    (n : ℕ) (cs : List ℕ) → match_body at_end n cs ≡ true → match_body at_dollar n cs ≡ true
unfolding match_body at_dollar at_end
dollar_of_end zero [] h = refl
dollar_of_end zero (c ∷ cs) h = cc
dollar_of_end (suc n) [] h = h
dollar_of_end (suc n) (c ∷ cs) h = ground (arith, dollar_of_end n cs)

dollar_of_newline :
    (n : ℕ) (cs : List ℕ)
    → match_body at_end n cs ≡ true
    → match_body at_dollar n (cs ++ 10 ∷ []) ≡ true
unfolding match_body at_dollar at_end
dollar_of_newline zero [] h = refl
dollar_of_newline zero (c ∷ cs) h = cc
dollar_of_newline (suc n) [] h = cc
dollar_of_newline (suc n) (c ∷ cs) h = ground (arith, dollar_of_newline n cs)

-- The test before a consume accepts what `validate_token_format` accepts, and such a text with
-- a newline after it, and nothing else.
pub token_regex_iff :
    (cs : List ℕ)
    → (token_regex cs ≡ true)
      ↔ ((validate_token_format cs ≡ true) ⊎ IsNewlineAfter validate_token_format cs)
unfolding token_regex validate_token_format
token_regex_iff cs = (
  λ h.
      let (d, s, r) = match_prefix_sound (match_body at_dollar 43) token_prefix cs h in
      elim (match_body_dollar 43 d r) [
        | inl p ↦ inl (rw s (match_prefix_complete (match_body at_end 43) token_prefix d p))
        | inr (b, t, q) ↦ inr (
          token_prefix ++ b,
          rw (s, t),
          match_prefix_complete (match_body at_end 43) token_prefix b q,
        )
      ],
  λ o. elim o [
    | inl h ↦
        let (d, s, r) = match_prefix_sound (match_body at_end 43) token_prefix cs h in
        rw s (match_prefix_complete (match_body at_dollar 43) token_prefix d (dollar_of_end 43 d r))
    | inr (b, t, q) ↦
        let (d, s, r) = match_prefix_sound (match_body at_end 43) token_prefix b q in
        rw (t, s)
          (match_prefix_complete (match_body at_dollar 43) token_prefix (d ++ 10 ∷ [])
            (dollar_of_newline 43 d r))
  ],
)
