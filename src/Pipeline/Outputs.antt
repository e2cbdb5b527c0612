-- ===== src/Pipeline/Outputs.antt =====
-- `_verify_output` and `_find_newest_kfx` of web_service/pipeline_runner.py.

use ebook_automation.Text.{lower, text_eq}
use ebook_automation.BookFiler.Unique.{stem_suffix}
use ebook_automation.Pipeline.Tools.{Entry}
use ebook_automation.Common.{
  ℕ, Bool, false, ◌&&◌, ◌||◌, Option, none, some, List, [], ◌∷◌, ltb, leb, if◌then◌else◌, codes,
}

-- `Path.exists` with `stat`
unfoldable pub find_entry : List ℕ → List Entry → Option Entry
find_entry n [] = none
find_entry n (e ∷ es) = let rest = find_entry n es in if text_eq e.name n then some e else rest

abbrev pub kfx_suffix : List ℕ
kfx_suffix = codes ".kfx"

unfoldable pub ends_with_kfx : List ℕ → Bool
ends_with_kfx [] = false
ends_with_kfx (c ∷ cs) = text_eq (c ∷ cs) kfx_suffix || ends_with_kfx cs

abbrev pub newer : Entry → Option Entry → Option Entry
newer e none = some e
newer e (some f) = if ltb e.mtime f.mtime then some f else some e

-- `_find_newest_kfx`
unfoldable pub find_newest_kfx : ℕ → List Entry → Option Entry
find_newest_kfx after [] = none
find_newest_kfx after (e ∷ es) =
    let rest = find_newest_kfx after es in
    if ends_with_kfx e.name && leb after e.mtime then newer e rest else rest

abbrev pub non_empty : Option Entry → Option Entry
non_empty none = none
non_empty (some e) = if ltb 0 e.size then some e else none

abbrev pub or_recovered : Bool → Option Entry → Option Entry → Option Entry
or_recovered is_kfx (some e) newest = some e
or_recovered is_kfx none newest = if is_kfx then newest else none

abbrev pub is_kfx_name : List ℕ → Bool
is_kfx_name n = text_eq (lower (stem_suffix n).1) kfx_suffix

-- `_verify_output`
unfoldable pub verify_output : ℕ → List ℕ → List Entry → Option Entry
verify_output start expected es =
    or_recovered (is_kfx_name expected) (non_empty (find_entry expected es))
      (find_newest_kfx start es)
