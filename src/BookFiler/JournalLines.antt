-- ===== src/BookFiler/JournalLines.antt =====
-- What `read_records` makes of a journal.
use ebook_automation.BookFiler.Journal.{
  Entry, Line, Journal, entry, blank, garbled, closed, append_record, append_torn, add_entry,
  parse_lines, read_records,
}
use ebook_automation.Common.{◌≡◌, refl, sym, ap, ◌∙◌, Option, none, some, List, [], ◌∷◌, ◌++◌}

-- two lists of records, one after the other
abbrev pub then_entry : Option (List Entry) → Entry → Option (List Entry)
then_entry none e = none
then_entry (some es) e = some (es ++ e ∷ [])

then-add :
    (e x : Entry) (o : Option (List Entry))
    → then_entry (add_entry x o) e ≡ add_entry x (then_entry o e)
then-add e x none = refl
then-add e x (some es) = refl

-- the lines of a journal that no write has torn
unfoldable pub AllParse : List Line → Type 0
AllParse [] = Unit {0}
AllParse (entry e ∷ ls) = AllParse ls
AllParse (blank ∷ ls) = AllParse ls
AllParse (garbled ∷ ls) = ⊥

parse_lines-append :
    (ls : List Line) (e : Entry)
    → AllParse ls
    → parse_lines (ls ++ entry e ∷ []) ≡ then_entry (parse_lines ls) e
unfolding AllParse parse_lines
parse_lines-append [] e h = refl
parse_lines-append (entry x ∷ ls) e h =
    ap (add_entry x) (parse_lines-append ls e h) ∙ sym (then-add e x (parse_lines ls))
parse_lines-append (blank ∷ ls) e h = parse_lines-append ls e h
parse_lines-append (garbled ∷ ls) e h = absurd h

garbled-last :
    (ls : List Line) → AllParse ls → parse_lines (ls ++ garbled ∷ []) ≡ parse_lines (ls ++ [])
unfolding AllParse parse_lines
garbled-last [] h = refl
garbled-last (entry x ∷ ls) h = ap (add_entry x) (garbled-last ls h)
garbled-last (blank ∷ ls) h = garbled-last ls h
garbled-last (garbled ∷ ls) h = absurd h

garbled-inside :
    (ls : List Line) (l : Line) (rest : List Line) → parse_lines (ls ++ garbled ∷ l ∷ rest) ≡ none
unfolding parse_lines
garbled-inside [] l rest = refl
garbled-inside (entry x ∷ ls) l rest = ap (add_entry x) (garbled-inside ls l rest)
garbled-inside (blank ∷ ls) l rest = garbled-inside ls l rest
garbled-inside (garbled ∷ []) l rest = refl
garbled-inside (garbled ∷ x ∷ ls) l rest = refl

append-[] : (ls : List Line) → ls ++ [] ≡ ls
append-[] [] = refl
append-[] (l ∷ ls) = ap (λ t. l ∷ t) (append-[] ls)

append_assoc : (xs ys zs : List Line) → (xs ++ ys) ++ zs ≡ xs ++ (ys ++ zs)
append_assoc [] ys zs = refl
append_assoc (x ∷ xs) ys zs = ap (λ t. x ∷ t) (append_assoc xs ys zs)

-- Where no write was torn, a record that is appended is read back as the last one, after the
-- records that were there.
pub read_records-append_record :
    (j : Journal) (e : Entry)
    → j.tail ≡ closed
    → AllParse j.lines
    → read_records (append_record j e) ≡ then_entry (read_records j) e
unfolding read_records
read_records-append_record j e c h =
    simp (c, append-[] j.lines, append-[] (j.lines ++ entry e ∷ []), parse_lines-append j.lines e h)

-- Where a journal with no garbled line is torn at its end, it is read as the records before the
-- tear. The next record that is appended joins the torn line and is not read either; with one more,
-- every reading of the journal raises.
pub torn_journal :
    (j : Journal) (e f : Entry)
    → j.tail ≡ closed
    → AllParse j.lines
    → (read_records (append_torn j) ≡ read_records j)
      × ((read_records (append_record (append_torn j) e) ≡ read_records j)
          × (read_records (append_record (append_record (append_torn j) e) f) ≡ none))
unfolding read_records
torn_journal j e f c h = (
  simp (c, garbled-last j.lines h),
  (
    simp (c, append-[] (j.lines ++ garbled ∷ []), append-[] j.lines, garbled-last j.lines h),
    ap parse_lines (
          append-[] ((j.lines ++ garbled ∷ []) ++ entry f ∷ [])
          ∙ append_assoc j.lines (garbled ∷ []) (entry f ∷ []))
        ∙ garbled-inside j.lines (entry f) [],
  ),
)
