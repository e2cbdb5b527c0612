-- ===== src/BookFiler/Gates.antt =====
-- tools/book_filer/calibration.py: what must hold before a file is moved. A verdict is what `json.loads` reads; `none` in a field stands for a value
-- that is missing or of another type.
use ebook_automation.Text.{text_eq, strip}
use ebook_automation.Common.{
  ℕ, suc, Bool, true, false, not, ◌&&◌, Option, none, some, List, [], ◌∷◌, leb, ◌==◌, if◌then◌else◌,
  codes, length,
}

abbrev pub is_empty : List ℕ → Bool
is_empty [] = true
is_empty (_ ∷ _) = false

-- the truth of an optional text
abbrev pub is_given : Option (List ℕ) → Bool
is_given none = false
is_given (some t) = not (is_empty t)

pub data Disposition : Type 0 where
  shelf review non_library : Disposition

pub record SpotCheck : Type 0 where
  pub path : List ℕ
  pub disposition : Disposition
  pub correct : Bool

pub record CalibrationVerdict : Type 0 where
  pub deterministic : Bool
  pub wrong_shelf_count : ℕ
  pub spot_check_size : ℕ
  pub signed_off_by : Option (List ℕ)
  pub green : Bool

abbrev pub is_wrong_shelf : SpotCheck → Bool
is_wrong_shelf c = elim c.disposition [
  | shelf ↦ not c.correct
  | review ↦ false
  | non_library ↦ false
]

unfoldable pub count_wrong_shelf : List SpotCheck → ℕ
count_wrong_shelf [] = 0
count_wrong_shelf (c ∷ cs) =
    let rest = count_wrong_shelf cs in if is_wrong_shelf c then suc rest else rest

-- `bool(signed_off_by and signed_off_by.strip())`
abbrev pub is_signed : Option (List ℕ) → Bool
is_signed none = false
is_signed (some t) = not (is_empty (strip t))

unfoldable pub evaluate_calibration :
    List ℕ → List ℕ → List SpotCheck → Option (List ℕ) → ℕ → CalibrationVerdict
evaluate_calibration projection_a projection_b spot_check signed_off_by min_spot_check =
    let deterministic = text_eq projection_a projection_b in
    let wrong_shelf = count_wrong_shelf spot_check in
    record {
      deterministic = deterministic;
      wrong_shelf_count = wrong_shelf;
      spot_check_size = length spot_check;
      signed_off_by = signed_off_by;
      green =
          deterministic
          && (wrong_shelf == 0
              && (leb min_spot_check (length spot_check) && is_signed signed_off_by));
    }

-- A verdict, as the signer's file holds it: a gate is its name and whether its `pass` is `True`.
pub record Verdict : Type 0 where
  pub manifest_digest : Option (List ℕ)
  pub green : Bool
  pub gates : Option (List (List ℕ × Bool))

unfoldable pub find_gate : List ℕ → List (List ℕ × Bool) → Bool
find_gate name [] = false
find_gate name ((g, pass) ∷ gs) =
    let rest = find_gate name gs in if text_eq g name then pass else rest

-- `_gate_passes`
abbrev pub gate_passes : Option (List (List ℕ × Bool)) → List ℕ → Bool
gate_passes none name = false
gate_passes (some gs) name = find_gate name gs

abbrev pub is_recorded : Option (List ℕ) → List ℕ → Bool
is_recorded none digest = false
is_recorded (some recorded) digest = text_eq recorded digest

pub data Binding : Type 0 where
  bound not_a_mapping unbound digest_mismatch not_green no_floor no_trash_safety : Binding

unfoldable pub verify_binding : List ℕ → Option Verdict → Binding
verify_binding digest none = not_a_mapping
verify_binding digest (some v) =
    if not (is_given v.manifest_digest)
    then unbound
    else if not (is_recorded v.manifest_digest digest)
    then digest_mismatch
    else if not v.green
    then not_green
    else if not (gate_passes v.gates (codes "auto_shelf_floor"))
    then no_floor
    else if not (gate_passes v.gates (codes "trash_safety"))
    then no_trash_safety
    else bound
