-- ===== src/Base/AsyncLog/Sizes.antt =====
-- base/AsyncLog.cpp: how the steps of the writing thread change the sizes of its files.
use learning_tools.Prelude.{
  ℕ, ◌+◌, ◌^◌, ◌<◌, ◌≡◌, refl, ap, arith, ltb, ◌&&◌, Bool, true, false, some, List, [], ◌∷◌, ◌++◌,
  length,
}
use learning_tools.Base.AsyncLog.{
  Line, Phase, rolling, locking, printing, stopped, Log, set_level, push_line, Fwrite,
  write_to_file, create_new_file, roll, print_line,
}
use learning_tools.Base.AsyncLog.WriteFile.{IsFwrite, write_to_file-WroteFront}

-- The bytes of a file, and those before its last piece.
abbrev pub total : List Line → ℕ
total [] = 0
total (x ∷ xs) = length x + total xs

abbrev pub before_last : List Line → ℕ
before_last [] = 0
before_last (x ∷ []) = 0
before_last (x ∷ y ∷ xs) = length x + before_last (y ∷ xs)

abbrev pub all_below : ℕ → List (List Line) → Bool
all_below n [] = true
all_below n (file ∷ files) = ltb (before_last file) n && all_below n files

total-append : (xs : List Line) (x : Line) → total (xs ++ x ∷ []) ≡ total xs + length x
total-append [] x = omega arith
total-append (y ∷ xs) x = omega (arith, total-append xs x)

before_last-append : (xs : List Line) (x : Line) → before_last (xs ++ x ∷ []) ≡ total xs
before_last-append [] x = refl
before_last-append (y ∷ []) x = refl
before_last-append (y ∷ z ∷ xs) x = ap (λ n. length y + n) (before_last-append (z ∷ xs) x)

-- With a file ready for a line.
abbrev pub is_ready : Phase → Bool
is_ready rolling = false
is_ready locking = true
is_ready (printing line) = true
is_ready stopped = false

abbrev pub is_stopped : Phase → Bool
is_stopped rolling = false
is_stopped locking = false
is_stopped (printing line) = false
is_stopped stopped = true

pub record Inv (l : Log) : Type 0 where
  pub counted : is_stopped l.phase ≡ false → total l.current ≡ l.written_size
  pub room : is_ready l.phase && l.to_file ≡ true → l.written_size < l.roll_size
  pub fits : before_last l.current < l.roll_size
  pub closed_fit : all_below l.roll_size l.closed ≡ true

pub roll-Inv : (opens : Bool) (l : Log) → l.phase ≡ rolling → Inv l → Inv (roll opens l)
unfolding roll create_new_file
roll-Inv opens l e inv =
    let counted = inv.counted in
    let fits = inv.fits in
    let closed_fit = inv.closed_fit in
    record {
      counted = ground (arith, e, counted);
      room = ground (arith, e, fits);
      fits = ground (arith, fits);
      closed_fit = ground (arith, fits, closed_fit);
    }

pub print_line-Inv :
    (line : Line) (ok : Bool) (bytes : Line) (l : Log)
    → l.phase ≡ printing line
    → (ok ≡ true → bytes ≡ line)
    → Inv l
    → Inv (print_line line ok bytes l)
unfolding print_line
print_line-Inv line ok bytes l e whole inv =
    let counted = inv.counted in
    let room = inv.room in
    let fits = inv.fits in
    let more = total-append l.current bytes in
    let last = before_last-append l.current bytes in
    record {
      counted = ground (arith, e, counted, more, whole);
      room = ground (arith, e);
      fits = ground (arith, e, counted, room, fits, last);
      closed_fit = ground (arith, inv.closed_fit);
    }

pub written-whole :
    (fwrite : Fwrite) (line : Line) (ok : Bool) (bytes : Line)
    → IsFwrite fwrite
    → length line < 2 ^ 31
    → write_to_file fwrite line ≡ (some ok, bytes)
    → ok ≡ true
    → bytes ≡ line
written-whole fwrite line ok bytes law short e b =
    let (ok', rest, (result, (front, full))) = write_to_file-WroteFront fwrite line law short in
    ground (arith, e, b, result, full)

pub push_line-Inv : (line : Line) (l : Log) → Inv l → Inv (push_line line l)
unfolding push_line
push_line-Inv line l inv = record {
  counted = inv.counted;
  room = inv.room;
  fits = inv.fits;
  closed_fit = inv.closed_fit;
}

pub set_level-Inv : (n : ℕ) (l : Log) → Inv l → Inv (set_level n l)
unfolding set_level
set_level-Inv n l inv =
    let counted = inv.counted in
    let room = inv.room in
    record {
      counted = ground (arith, counted);
      room = ground (arith, room);
      fits = ground (arith, inv.fits);
      closed_fit = ground (arith, inv.closed_fit);
    }
