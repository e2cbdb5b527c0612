-- ===== src/BookFiler/Devices.antt =====
-- The names of the devices of Windows, which `sanitize_component` does not give.
use mathlib.Core.Bool.{true≢false}
use ebook_automation.Text.{contains, text_eq}
use ebook_automation.BookFiler.Names.{before_dot, upper_char, is_port, is_reserved, finish_name}
use ebook_automation.Common.{
  ℕ, ◌≡◌, refl, sym, ap, ◌∙◌, inl, inr, Bool, true, false, not, ◌&&◌, ◌||◌, List, [], ◌∷◌, map,
  arith, ◌==◌, if◌then◌else◌, codes, Bool-cases,
}

is_port-underscore : (t : List ℕ) → is_port (95 ∷ t) ≡ false
unfolding text_eq
is_port-underscore [] = refl
is_port-underscore (a ∷ []) = refl
is_port-underscore (a ∷ b ∷ []) = refl
is_port-underscore (a ∷ b ∷ d ∷ []) = refl
is_port-underscore (a ∷ b ∷ d ∷ e ∷ t) = refl

is_reserved-underscore : (t : List ℕ) → is_reserved (95 ∷ t) ≡ false
unfolding is_reserved text_eq
is_reserved-underscore t = is_port-underscore t

-- whether the part before the first dot is reserved
abbrev pub reserved_stem : List ℕ → Bool
reserved_stem t = is_reserved (map upper_char (before_dot t))

not_reserved :
    (c : ℕ) (cs : List ℕ) (b : Bool)
    → reserved_stem (c ∷ cs) ≡ b
    → reserved_stem (if b then b'_' ∷ c ∷ cs else c ∷ cs) ≡ false
unfolding before_dot
not_reserved c cs true e = is_reserved-underscore (map upper_char (before_dot (c ∷ cs)))
not_reserved c cs false e = e

pub reserved_stem-finish_name : (cs : List ℕ) → reserved_stem (finish_name cs) ≡ false
unfolding finish_name before_dot
reserved_stem-finish_name [] = is_reserved-underscore []
reserved_stem-finish_name (c ∷ cs) = not_reserved c cs (reserved_stem (c ∷ cs)) refl

-- the devices of Windows
abbrev pub devices : List (List ℕ)
devices =
    codes "CON"
    ∷ codes "PRN"
    ∷ codes "AUX"
    ∷ codes "NUL"
    ∷ codes "COM1"
    ∷ codes "COM2"
    ∷ codes "COM3"
    ∷ codes "COM4"
    ∷ codes "COM5"
    ∷ codes "COM6"
    ∷ codes "COM7"
    ∷ codes "COM8"
    ∷ codes "COM9"
    ∷ codes "LPT1"
    ∷ codes "LPT2"
    ∷ codes "LPT3"
    ∷ codes "LPT4"
    ∷ codes "LPT5"
    ∷ codes "LPT6"
    ∷ codes "LPT7"
    ∷ codes "LPT8"
    ∷ codes "LPT9"
    ∷ []

-- whether a name, in whatever case, is that of the device, alone or with an extension
unfoldable pub names_device : List ℕ → List ℕ → Bool
names_device [] [] = true
names_device [] (c ∷ cs) = c == b'.'
names_device (d ∷ ds) [] = false
names_device (d ∷ ds) (c ∷ cs) = upper_char c == d && names_device ds cs

unfoldable pub names_any : List (List ℕ) → List ℕ → Bool
names_any [] t = false
names_any (d ∷ ds) t = names_device d t || names_any ds t

-- a name of a device is its part before the dot, in upper case
names-before_dot :
    (d t : List ℕ)
    → contains b'.' d ≡ false
    → names_device d t ≡ true
    → map upper_char (before_dot t) ≡ d
unfolding names_device before_dot contains
names-before_dot [] [] h e = refl
names-before_dot [] (c ∷ cs) h e = ground (arith, e)
names-before_dot (d ∷ ds) [] h e = cc
names-before_dot (d ∷ ds) (c ∷ cs) h e = ground (arith, h, e, names-before_dot ds cs)

-- every text of a list is reserved and has no dot
unfoldable pub all_reserved : List (List ℕ) → Bool
all_reserved [] = true
all_reserved (d ∷ ds) = (not (contains b'.' d) && is_reserved d) && all_reserved ds

pub names_none :
    (ds : List (List ℕ)) (t : List ℕ)
    → all_reserved ds ≡ true
    → reserved_stem t ≡ false
    → names_any ds t ≡ false
unfolding names_any all_reserved
names_none [] t a h = refl
names_none (d ∷ ds) t a h = elim (Bool-cases (names_device d t)) [
  | inr other ↦ rw other (names_none ds t (ground (arith, a)) h)
  | inl named ↦
      let stem = names-before_dot d t (ground (arith, a)) named in
      let reserved : is_reserved d ≡ true = ground (arith, a) in
      absurd (true≢false (sym reserved ∙ ap is_reserved (sym stem) ∙ h))
]

pub devices-all_reserved : all_reserved devices ≡ true
unfolding all_reserved contains is_reserved text_eq
devices-all_reserved = refl
