-- ===== src/BookFiler/Restored.antt =====
-- A fresh run and then `undo_apply`.
use mathlib.Core.Path.{subst}
use mathlib.Core.Bool.{true≢false}
use ebook_automation.BookFiler.Path.{FilePath}
use ebook_automation.BookFiler.FileSystem.{gone-rename, Fs, is_file, rename, rename-rename}
use ebook_automation.BookFiler.Move.{Os, MoveDecision, MoveOutcome, plan_move, execute_move}
use ebook_automation.BookFiler.Moves.{Moved, did, not_done, execute_move-Moved}
use ebook_automation.BookFiler.Journal.{Entry, is_committed}
use ebook_automation.BookFiler.Undo.{
  UndoOutcome, holds, check_restored, undo_record, undo_records, all_restored, undo_journal,
}
use ebook_automation.BookFiler.Apply.{World, commit_of}
use ebook_automation.BookFiler.Steps.{Ran, same, tried, made, finished, next}
use ebook_automation.BookFiler.UndoOrder.{reverse_intents, reverse_intents-intent, order-Ran}
use ebook_automation.Common.{
  ℕ, ◌≡◌, refl, sym, ap, ◌∙◌, Bool, true, false, ◌&&◌, List, [], ◌∷◌, ◌++◌, arith, if◌then◌else◌,
}

plan_move-keeps_src :
    (os : Os) (src dst : FilePath) (fs : Fs) → (plan_move os src dst false fs).src ≡ src
unfolding plan_move
plan_move-keeps_src os src dst fs = ground arith

plan_move-keeps_dst :
    (os : Os) (src dst : FilePath) (fs : Fs) → (plan_move os src dst false fs).dst ≡ dst
unfolding plan_move
plan_move-keeps_dst os src dst fs = ground arith

-- a record whose path of the move holds no file changes nothing
undo_record-tried :
    (os : Os) (hash : List ℕ → List ℕ) (records : List Entry) (e : Entry) (fs : Fs)
    → is_file e.dst fs.files ≡ false
    → (undo_record os hash records e fs).1.files ≡ fs.files
unfolding undo_record holds
undo_record-tried os hash records e fs h = ground (arith, h)

check_restored-Moved :
    (hash : List ℕ → List ℕ) (e : Entry) (d : MoveDecision) (fs : Fs) (r : MoveOutcome × Fs)
    → Moved d fs r
    → (check_restored hash e r).0.restored ≡ true
    → (check_restored hash e r).1.files ≡ rename d.src d.dst fs.files
unfolding check_restored
check_restored-Moved hash e d fs (o, fs') (did m t f files) h = files
check_restored-Moved hash e d fs (o, fs') (not_done m files) h = absurd (ground (arith, h, m))

-- a record that is reported as restored leaves these files
abbrev Back : List (FilePath × List ℕ) → UndoOutcome × Fs → Type 0
Back files r = r.0.restored ≡ true → r.1.files ≡ files

if-Back :
    (b : Bool) (files : List (FilePath × List ℕ)) (x y : UndoOutcome × Fs)
    → (b ≡ true → Back files x)
    → (b ≡ false → Back files y)
    → Back files (if b then x else y)
if-Back true files x y l r = l refl
if-Back false files x y l r = r refl

not_held :
    (hash : List ℕ → List ℕ) (p : FilePath) (sha : List ℕ) (fs : Fs)
    → is_file p fs.files ≡ false
    → holds hash p sha fs ≡ false
unfolding holds
not_held hash p sha fs h = ground (arith, h)

check_restored-Back :
    (os : Os) (hash : List ℕ → List ℕ) (e : Entry) (fs : Fs) (files : List (FilePath × List ℕ))
    → fs.files ≡ rename e.src e.dst files
    → is_file e.dst files ≡ false
    → Back files (check_restored hash e (execute_move os (plan_move os e.dst e.src false fs) fs))
check_restored-Back os hash e fs files eq d ok =
    let plan = plan_move os e.dst e.src false fs in
    check_restored-Moved hash e plan fs (execute_move os plan fs) (execute_move-Moved os plan fs) ok
    ∙ ap (λ p. rename p plan.dst fs.files) (plan_move-keeps_src os e.dst e.src fs)
    ∙ ap (λ p. rename e.dst p fs.files) (plan_move-keeps_dst os e.dst e.src fs)
    ∙ ap (rename e.dst e.src) eq
    ∙ rename-rename e.src e.dst files d

-- a record of a move that is reported as restored brings the file back
undo_record-made :
    (os : Os) (hash : List ℕ → List ℕ) (records : List Entry) (e : Entry) (fs : Fs)
    (files : List (FilePath × List ℕ))
    → fs.files ≡ rename e.src e.dst files
    → is_file e.src files ≡ true
    → is_file e.dst files ≡ false
    → is_committed e.seq records ≡ true
    → Back files (undo_record os hash records e fs)
unfolding undo_record
undo_record-made os hash records e fs files eq s d c =
    let gone : is_file e.src fs.files ≡ false =
      ap (is_file e.src) eq ∙ gone-rename e.src e.dst files s d in
    if-Back (holds hash e.dst e.sha256 fs) files _ _
      (λ _. check_restored-Back os hash e fs files eq d)
      (λ _.
        if-Back (holds hash e.src e.sha256 fs) files _ _
          (λ held. absurd (true≢false (sym held ∙ not_held hash e.src e.sha256 fs gone)))
          (λ _.
            if-Back (is_committed e.seq records) files _ _ (λ _ ok. absurd (true≢false (sym ok)))
              (λ out _. absurd (true≢false (sym c ∙ out)))))

undo_records-snoc :
    (os : Os) (hash : List ℕ → List ℕ) (records es : List Entry) (e : Entry) (fs : Fs)
    → undo_records os hash records (es ++ e ∷ []) fs ≡ (
        let r = undo_records os hash records es fs in
        let last = undo_record os hash records e r.1 in (r.0 ++ last.0 ∷ [], last.1))
unfolding undo_records
undo_records-snoc os hash records [] e fs = refl
undo_records-snoc os hash records (x ∷ es) e fs =
    ap (λ r. ((undo_record os hash records x fs).0 ∷ r.0, r.1))
      (undo_records-snoc os hash records es e (undo_record os hash records x fs).1)

all_restored-snoc :
    (os : List UndoOutcome) (o : UndoOutcome)
    → all_restored (os ++ o ∷ []) ≡ (all_restored os && o.restored)
unfolding all_restored
all_restored-snoc [] o = ground arith
all_restored-snoc (x ∷ os) o = ground (arith, all_restored-snoc os o)

-- the records that are committed among others
abbrev Within : List Entry → List Entry → Type 0
Within es records = (k : ℕ) → is_committed k es ≡ true → is_committed k records ≡ true

Within-tail : (e : Entry) (es records : List Entry) → Within (e ∷ es) records → Within es records
unfolding is_committed
Within-tail e es records h k c = h k (ground (arith, c))

committed-made :
    (e : Entry) (es records : List Entry)
    → Within (e ∷ commit_of e ∷ es) records
    → is_committed e.seq records ≡ true
unfolding is_committed
committed-made e es records h = h e.seq (ground arith)

-- what undoing the records of a run must lead to
abbrev Undoes : Os → (List ℕ → List ℕ) → List Entry → List Entry → World → Fs → Type 0
Undoes os hash records es w fs =
    all_restored (undo_records os hash records (reverse_intents es) fs).0 ≡ true
    → (undo_records os hash records (reverse_intents es) fs).1.files ≡ w.fs.files

undoes-last :
    (os : Os) (hash : List ℕ → List ℕ) (records : List Entry) (e : Entry) (es : List Entry)
    (fs : Fs) (files files' : List (FilePath × List ℕ))
    → (all_restored (undo_records os hash records es fs).0 ≡ true
        → (undo_records os hash records es fs).1.files ≡ files')
    → ((fs' : Fs) → fs'.files ≡ files' → Back files (undo_record os hash records e fs'))
    → all_restored (undo_records os hash records (es ++ e ∷ []) fs).0 ≡ true
    → (undo_records os hash records (es ++ e ∷ []) fs).1.files ≡ files
undoes-last os hash records e es fs files files' ih step ok =
    let r = undo_records os hash records es fs in
    let last = undo_record os hash records e r.1 in
    let snoc = undo_records-snoc os hash records es e fs in
    let both : (all_restored r.0 && last.0.restored) ≡ true =
      sym (all_restored-snoc r.0 last.0) ∙ sym (ap (λ t. all_restored t.0) snoc) ∙ ok in
    ap (λ t. t.1.files) snoc ∙ step r.1 (ih (ground (arith, both))) (ground (arith, both))

undo_records-Ran :
    {i : ℕ} {w w' : World} {es : List Entry} (os : Os) (hash : List ℕ → List ℕ)
    (records : List Entry) (fs : Fs)
    → Ran i w es w'
    → Within es records
    → fs.files ≡ w'.fs.files
    → Undoes os hash records es w fs
unfolding undo_records reverse_intents
undo_records-Ran os hash records fs finished within eq = λ _. eq
undo_records-Ran os hash records fs (next same rest) within eq =
    undo_records-Ran os hash records fs rest within eq
undo_records-Ran {w = w} os hash records fs
      (next {w1 = w1} {es = es} (tried {e} q c d files j) rest) within eq =
    subst
      (λ l.
        all_restored (undo_records os hash records l fs).0 ≡ true
        → (undo_records os hash records l fs).1.files ≡ w.fs.files)
      (sym (reverse_intents-intent e es c))
      (undoes-last os hash records e (reverse_intents es) fs w.fs.files w1.fs.files
        (undo_records-Ran os hash records fs rest (Within-tail e es records within) eq)
        (λ fs' same_files _.
          undo_record-tried os hash records e fs' (ap (is_file e.dst) (same_files ∙ files) ∙ d)
          ∙ same_files
          ∙ files))
undo_records-Ran {w = w} os hash records fs
      (next {w1 = w1} {es = es} (made {e} q c s d files j) rest) within eq =
    subst
      (λ l.
        all_restored (undo_records os hash records l fs).0 ≡ true
        → (undo_records os hash records l fs).1.files ≡ w.fs.files)
      (sym (reverse_intents-intent e (commit_of e ∷ es) c))
      (undoes-last os hash records e (reverse_intents es) fs w.fs.files w1.fs.files
        (undo_records-Ran os hash records fs rest
          (Within-tail (commit_of e) es records (Within-tail e (commit_of e ∷ es) records within))
          eq)
        (λ fs' same_files.
          undo_record-made os hash records e fs' w.fs.files (same_files ∙ files) s d
            (committed-made e es records within)))

-- On the files that a fresh run leaves, undoing its records brings the files before it back, where
-- every record is reported as restored.
pub undo_journal-Ran :
    {i : ℕ} {w w' : World} {es : List Entry} (os : Os) (hash : List ℕ → List ℕ)
    → Ran i w es w'
    → all_restored (undo_journal os hash es w'.fs).0 ≡ true
    → (undo_journal os hash es w'.fs).1.files ≡ w.fs.files
unfolding undo_journal
undo_journal-Ran {w = w} {w' = w'} {es = es} os hash run =
    subst
      (λ l.
        all_restored (undo_records os hash es l w'.fs).0 ≡ true
        → (undo_records os hash es l w'.fs).1.files ≡ w.fs.files)
      (sym (order-Ran run)) (undo_records-Ran os hash es w'.fs run (λ _ c. c) refl)
