-- ===== src/Base/AsyncLog/Order.antt =====
-- base/AsyncLog.cpp: which lines are printed, and in which order.
use mathlib.Core.List.{append_assoc, append-nil}
use learning_tools.Prelude.{
  ℕ, ◌≡◌, refl, sym, ap, ◌∙◌, arith, Bool, true, false, List, [], ◌∷◌, ◌++◌,
}
use learning_tools.Base.AsyncLog.{
  Line, Phase, rolling, locking, printing, stopped, Log, init, set_level, push_line, Fwrite,
  create_new_file, roll, take_line, print_line, queued, output, output_fatal,
}
use learning_tools.Base.AsyncLog.Steps.{
  Step, rolls, takes, leaves, prints, outputs, dumps, sets_level, exits, prints_fatal, fails_fatal,
  opens_fatal, writes_fatal, Reach, start, next,
}

-- The third list is the first two, merged: each keeps its order.
pub data Merge : List Line → List Line → List Line → Type 0 where
  neither : Merge [] [] []
  first : {x : Line} {xs ys zs : List Line} → Merge xs ys zs → Merge (x ∷ xs) ys (x ∷ zs)
  second : {y : Line} {xs ys zs : List Line} → Merge xs ys zs → Merge xs (y ∷ ys) (y ∷ zs)

first_last :
    (x : Line) {xs ys zs : List Line} → Merge xs ys zs → Merge (xs ++ x ∷ []) ys (zs ++ x ∷ [])
first_last x neither = first neither
first_last x (first m) = first (first_last x m)
first_last x (second m) = second (first_last x m)

second_last :
    (y : Line) {xs ys zs : List Line} → Merge xs ys zs → Merge xs (ys ++ y ∷ []) (zs ++ y ∷ [])
second_last y neither = second neither
second_last y (first m) = first (second_last y m)
second_last y (second m) = second (second_last y m)

-- The line that was taken from the list and is not yet printed.
abbrev pub in_hand : Phase → List Line
in_hand rolling = []
in_hand locking = []
in_hand (printing line) = line ∷ []
in_hand stopped = []

abbrev pub waits : Log → List Line
waits l = in_hand l.phase ++ l.lines

pub output-queued :
    (n : ℕ) (opens : Bool) (fwrite : Fwrite) (line : Line) (l l' : Log)
    → output n opens fwrite line l ≡ queued l'
    → l' ≡ push_line line l
unfolding output output_fatal
output-queued n opens fwrite line l l' e = ground (arith, e)

-- The console is a merge of the FATAL lines and of the front of those that were put into the list.
record Kept (l : Log) (queue fatals : List Line) : Type 0 where
  front : List Line
  merged : Merge front fatals l.printed
  row : front ++ waits l ≡ queue

-- A step that prints nothing.
quiet :
    (l l' : Log) (lines : List Line) {queue fatals : List Line}
    → l'.printed ≡ l.printed
    → waits l' ≡ waits l ++ lines
    → Kept l queue fatals
    → Kept l' (queue ++ lines) (fatals ++ [])
quiet l l' lines {fatals = fatals} same more kept =
    let merged = kept.merged in
    let row = kept.row in
    record {
      front = kept.front;
      merged = rw (append-nil fatals, same) merged;
      row =
          ap (λ xs. kept.front ++ xs) more
          ∙ sym (append_assoc kept.front (waits l) lines)
          ∙ ap (λ xs. xs ++ lines) row;
    }

silent :
    (l l' : Log) {queue fatals : List Line}
    → l'.printed ≡ l.printed
    → waits l' ≡ waits l
    → Kept l queue fatals
    → Kept l' (queue ++ []) (fatals ++ [])
silent l l' same unmoved kept = quiet l l' [] same (unmoved ∙ sym (append-nil (waits l))) kept

roll-kept :
    (opens : Bool) (l : Log)
    → l.phase ≡ rolling
    → ((roll opens l).printed ≡ l.printed) × (waits (roll opens l) ≡ waits l)
unfolding roll create_new_file
roll-kept opens l e = (ground (arith, e), ground (arith, e))

print_line-printed :
    (line : Line) (ok : Bool) (bytes : Line) (l : Log)
    → (print_line line ok bytes l).printed ≡ l.printed ++ line ∷ []
unfolding print_line
print_line-printed line ok bytes l = ground arith

print_line-waits :
    (line : Line) (ok : Bool) (bytes : Line) (l : Log)
    → l.phase ≡ printing line
    → waits l ≡ line ∷ waits (print_line line ok bytes l)
unfolding print_line
print_line-waits line ok bytes l e = ground (arith, e)

push_line-waits : (line : Line) (l : Log) → waits (push_line line l) ≡ waits l ++ line ∷ []
unfolding push_line
push_line-waits line l = sym (append_assoc (in_hand l.phase) l.lines (line ∷ []))

push_line-Kept :
    (line : Line) (l : Log) {queue fatals : List Line}
    → Kept l queue fatals
    → Kept (push_line line l) (queue ++ line ∷ []) (fatals ++ [])
unfolding push_line
push_line-Kept line l kept =
    quiet l (push_line line l) (line ∷ []) refl (push_line-waits line l) kept

prints-Kept :
    (line : Line) (ok : Bool) (bytes : Line) (l : Log) {queue fatals : List Line}
    → l.phase ≡ printing line
    → Kept l queue fatals
    → Kept (print_line line ok bytes l) (queue ++ []) (fatals ++ [])
prints-Kept line ok bytes l {queue = queue} {fatals = fatals} e kept =
    let l' = print_line line ok bytes l in
    let merged = first_last line kept.merged in
    record {
      front = kept.front ++ line ∷ [];
      merged = rw (append-nil fatals, print_line-printed line ok bytes l) merged;
      row =
          append_assoc kept.front (line ∷ []) (waits l')
          ∙ ap (λ xs. kept.front ++ xs) (sym (print_line-waits line ok bytes l e))
          ∙ kept.row
          ∙ sym (append-nil queue);
    }

take_line-waits :
    (line : Line) (lines : List Line) (l : Log)
    → l.phase ≡ locking
    → l.lines ≡ line ∷ lines
    → waits (take_line line lines l) ≡ waits l
unfolding take_line
take_line-waits line lines l e g = rw (e, g)

take_line-printed :
    (line : Line) (lines : List Line) (l : Log) → (take_line line lines l).printed ≡ l.printed
unfolding take_line
take_line-printed line lines l = refl

stopped-waits : (l : Log) → l.phase ≡ locking → l.lines ≡ waits l
stopped-waits l e = rw e

set_level-kept :
    (n : ℕ) (l : Log) → ((set_level n l).printed ≡ l.printed) × (waits (set_level n l) ≡ waits l)
unfolding set_level
set_level-kept n l = (ground arith, ground arith)

Step-Kept :
    {l l' : Log} {lines urgent queue fatals : List Line}
    → Step l l' lines urgent
    → Kept l queue fatals
    → Kept l' (queue ++ lines) (fatals ++ urgent)
unfolding create_new_file
Step-Kept (rolls l opens e) kept =
    let (same, more) = roll-kept opens l e in silent l (roll opens l) same more kept
Step-Kept (takes l line lines e g) kept =
    silent l (take_line line lines l) (take_line-printed line lines l)
      (take_line-waits line lines l e g) kept
Step-Kept (leaves l e g q) kept =
    silent l (record l { phase = stopped }) refl (stopped-waits l e) kept
Step-Kept (prints l line ok bytes fwrite law e g) kept = prints-Kept line ok bytes l e kept
Step-Kept (outputs l l' n opens fwrite line e) kept =
    rw (output-queued n opens fwrite line l l' e) (push_line-Kept line l kept)
Step-Kept (dumps l line) kept = push_line-Kept line l kept
Step-Kept (sets_level l n) kept =
    let (same, unmoved) = set_level-kept n l in silent l (set_level n l) same unmoved kept
Step-Kept (exits l) kept = silent l (record l { exits = true }) refl refl kept
Step-Kept {queue = queue} (prints_fatal l line) kept = record {
  front = kept.front;
  merged = second_last line kept.merged;
  row = kept.row ∙ sym (append-nil queue);
}
Step-Kept (fails_fatal l line front back e g h) kept =
    silent l (record (create_new_file false l) { urgent = front ++ back }) refl refl kept
Step-Kept (opens_fatal l line front back e g h) kept =
    silent l (create_new_file true l) refl refl kept
Step-Kept (writes_fatal l line bytes front back e g) kept =
    silent l (record l { current = l.current ++ bytes ∷ [] }) refl refl kept

Reach-Kept :
    {to_file truncates : Bool} {roll_size : ℕ} {l : Log} {queue fatals : List Line}
    → Reach (init to_file truncates roll_size) l queue fatals
    → Kept l queue fatals
Reach-Kept start = record { front = []; merged = neither; row = refl }
Reach-Kept (next r s e g) = let kept = Step-Kept s (Reach-Kept r) in rw (e, g) kept

-- Whatever the interleaving of the threads, with files that cannot be opened and writes that fail: the
-- lines on the console are a merge, in which both keep their order, of the FATAL lines that were output and
-- of a front of the lines that were put into the list; and this front, then the line in the writing
-- thread's hand, then those that still wait are exactly the lines that were put into the list, each
-- once, in their order.
pub Reach-printed :
    {to_file truncates : Bool} {roll_size : ℕ} {l : Log} {queue fatals : List Line}
    → Reach (init to_file truncates roll_size) l queue fatals
    → (front : List Line) × (Merge front fatals l.printed
        × (front ++ (in_hand l.phase ++ l.lines) ≡ queue))
Reach-printed r = let kept = Reach-Kept r in (kept.front, (kept.merged, kept.row))
