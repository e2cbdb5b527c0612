-- ===== src/BookFiler/Journal.antt =====
-- tools/book_filer/journal.py: the append-only journal of moves. A line of its file is a record,
-- blank, or garbled: a text that `json.loads` refuses. The last line may lack its line end, when
-- the write was torn; a record that is appended then lands on the same line. `none` stands for a
-- `JournalCorruptError`.
use ebook_automation.BookFiler.Path.{FilePath}
use ebook_automation.Text.{text_eq}
use ebook_automation.BookFiler.FileSystem.{Fs, is_file, exists, read_bytes}
use ebook_automation.Common.{
  ℕ, suc, Bool, false, not, ◌&&◌, ◌||◌, Option, none, some, List, [], ◌∷◌, ◌++◌, ◌==◌,
  if◌then◌else◌,
}

-- a record: an `intent`, or the `commit` of the move
pub record Entry : Type 0 where
  pub is_commit : Bool
  pub seq : ℕ
  pub src : FilePath
  pub dst : FilePath
  pub action : List ℕ
  pub sha256 : List ℕ
  pub ts : List ℕ

pub data Line : Type 0 where
  entry : Entry → Line
  blank garbled : Line

-- What stands after the last line end: nothing, a whole record, or a part of one.
pub data Tail : Type 0 where
  closed : Tail
  whole : Entry → Tail
  torn : Tail

pub record Journal : Type 0 where
  pub lines : List Line
  pub tail : Tail

abbrev pub tail_lines : Tail → List Line
tail_lines closed = []
tail_lines (whole e) = entry e ∷ []
tail_lines torn = garbled ∷ []

abbrev pub empty_journal : Journal
empty_journal = record { lines = []; tail = closed }

-- the line that an appended record ends
abbrev pub end_line : Tail → Entry → Line
end_line closed e = entry e
end_line (whole _) e = garbled
end_line torn e = garbled

-- `append_record`
abbrev pub append_record : Journal → Entry → Journal
append_record j e = record { lines = j.lines ++ end_line j.tail e ∷ []; tail = closed }

-- `append_record`, when the crash comes before all of its line is written
abbrev pub append_torn : Journal → Journal
append_torn j = record { lines = j.lines; tail = torn }

abbrev pub add_entry : Entry → Option (List Entry) → Option (List Entry)
add_entry e none = none
add_entry e (some es) = some (e ∷ es)

abbrev pub garbled_at_end : List Line → Option (List Entry)
garbled_at_end [] = some []
garbled_at_end (_ ∷ _) = none

-- the loop of `read_records`
unfoldable pub parse_lines : List Line → Option (List Entry)
parse_lines [] = some []
parse_lines (entry e ∷ ls) = add_entry e (parse_lines ls)
parse_lines (blank ∷ ls) = parse_lines ls
parse_lines (garbled ∷ ls) = garbled_at_end ls

-- `read_records`
unfoldable pub read_records : Journal → Option (List Entry)
read_records j = parse_lines (j.lines ++ tail_lines j.tail)

-- `out[r["seq"]] = r`
unfoldable pub put_intent : Entry → List Entry → List Entry
put_intent e [] = e ∷ []
put_intent e (x ∷ xs) = let rest = put_intent e xs in if x.seq == e.seq then e ∷ xs else x ∷ rest

-- the loop of `intents_by_seq`
unfoldable pub collect_intents : List Entry → List Entry → List Entry
unfolding put_intent
collect_intents out [] = out
collect_intents out (r ∷ rs) = collect_intents (if r.is_commit then out else put_intent r out) rs

-- `intents_by_seq`: the latest intent of each number
abbrev pub intents_by_seq : List Entry → List Entry
intents_by_seq rs = collect_intents [] rs

-- `intents.get(seq)`
unfoldable pub find_intent : ℕ → List Entry → Option Entry
find_intent seq [] = none
find_intent seq (x ∷ xs) = let rest = find_intent seq xs in if x.seq == seq then some x else rest

-- `seq in committed_seqs(records)`
unfoldable pub is_committed : ℕ → List Entry → Bool
is_committed seq [] = false
is_committed seq (r ∷ rs) = (r.is_commit && r.seq == seq) || is_committed seq rs

-- the number of a set's members: `len(committed_seqs(records))`
unfoldable pub count_committed : List Entry → ℕ
count_committed [] = 0
count_committed (r ∷ rs) =
    let rest = count_committed rs in
    if r.is_commit && not (is_committed r.seq rs) then suc rest else rest

-- `sha256_file(path) == sha256`, of a file's bytes
abbrev pub has_hash : (List ℕ → List ℕ) → Option (List ℕ) → List ℕ → Bool
has_hash hash none sha = false
has_hash hash (some c) sha = text_eq (hash c) sha

-- `already_applied`
unfoldable pub already_applied : (List ℕ → List ℕ) → FilePath → FilePath → List ℕ → Fs → Bool
already_applied hash src dst sha fs =
    not (exists src fs) && (is_file dst fs.files && has_hash hash (read_bytes dst fs.files) sha)
