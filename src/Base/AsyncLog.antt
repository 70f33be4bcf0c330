-- ===== src/Base/AsyncLog.antt =====
-- base/AsyncLog.cpp: lines of text from any thread, which one thread writes to the console and to files.
-- A line is its bytes. The texts of the clock and of the thread, and what fopen and fwrite answer, are
-- arguments.
pub mod WriteFile
pub mod Steps
pub mod Order
pub mod Sizes
pub mod Rolling
pub mod Levels
pub mod Dump
mod Tests
use learning_tools.Prelude.{
  ℕ, zero, suc, ◌+◌, ◌-◌, ◌*◌, ◌/◌, ◌%◌, ◌^◌, ◌<◌, ◌≤◌, ◌≡◌, Bool, true, false, not, ◌&&◌, ◌||◌,
  ◌==◌, ltb, leb, if◌then◌else◌, List, [], ◌∷◌, ◌++◌, length, take, drop, Option, none, some,
}

abbrev pub Line : Type 0
Line = List ℕ

-- Where the thread of `writeThreadProc` is: before the test of the file's size, at the lock, with a line in
-- its hand, or behind its loop.
pub data Phase : Type 0 where
  rolling locking : Phase
  printing : Line → Phase
  stopped : Phase

-- `to_file`: there is a name for the file. `has_file`: `m_hLogFile` is not null. `printed` is what went to
-- the console; `current` and `closed` are the files, each as the pieces that were written to it. `urgent` are the
-- FATAL lines that a thread has printed and whose call of `output` has not ended.
pub record Log : Type 0 where
  pub to_file : Bool
  pub truncates : Bool
  pub level : ℕ
  pub roll_size : ℕ
  pub phase : Phase
  pub lines : List Line
  pub exits : Bool
  pub has_file : Bool
  pub written_size : ℕ
  pub printed : List Line
  pub urgent : List Line
  pub current : List Line
  pub closed : List (List Line)

-- `init`; the thread starts.
abbrev pub init : Bool → Bool → ℕ → Log
init to_file truncates roll_size = record {
  to_file = to_file;
  truncates = truncates;
  level = 2;
  roll_size = roll_size;
  phase = rolling;
  lines = [];
  exits = false;
  has_file = false;
  written_size = 0;
  printed = [];
  urgent = [];
  current = [];
  closed = [];
}

abbrev pub level_fatal : ℕ
level_fatal = 6

abbrev pub level_critical : ℕ
level_critical = 7

unfoldable pub set_level : ℕ → Log → Log
set_level n l = if ltb level_fatal n then l else record l { level = n }

-- "[INFO]" and so on.
unfoldable pub level_text : ℕ → Line
level_text n =
    if n == 0
    then 91 ∷ 84 ∷ 82 ∷ 65 ∷ 67 ∷ 69 ∷ 93 ∷ []
    else if n == 1
    then 91 ∷ 68 ∷ 69 ∷ 66 ∷ 85 ∷ 71 ∷ 93 ∷ []
    else if n == 3
    then 91 ∷ 87 ∷ 65 ∷ 82 ∷ 78 ∷ 93 ∷ []
    else if n == 4
    then 91 ∷ 69 ∷ 82 ∷ 82 ∷ 79 ∷ 82 ∷ 93 ∷ []
    else if n == 5
    then 91 ∷ 83 ∷ 89 ∷ 83 ∷ 69 ∷ 93 ∷ []
    else if n == 6
    then 91 ∷ 70 ∷ 65 ∷ 84 ∷ 65 ∷ 76 ∷ 93 ∷ []
    else if n == 7
    then 91 ∷ 67 ∷ 82 ∷ 73 ∷ 84 ∷ 73 ∷ 67 ∷ 65 ∷ 76 ∷ 93 ∷ []
    else 91 ∷ 73 ∷ 78 ∷ 70 ∷ 79 ∷ 93 ∷ []

-- `time` is the text of `getTime`, `thread` the thread's in brackets.
unfoldable pub make_line_prefix : ℕ → Line → Line → Line
unfolding level_text
make_line_prefix n time thread = level_text n ++ 91 ∷ time ++ 93 ∷ take 31 thread

-- The line of `output`: `place` is the file and the line in brackets, `text` what vsnprintf made.
unfoldable pub make_line : Log → ℕ → Line → Line → Line → Line → Line
unfolding make_line_prefix
make_line l n time thread place text =
    make_line_prefix n time thread
    ++ take 511 place
    ++ (if l.truncates then take 256 text else text)
    ++ (if l.to_file then 10 ∷ [] else [])

unfoldable pub push_line : Line → Log → Log
push_line line l = record l { lines = l.lines ++ line ∷ [] }

-- fwrite(3): how much of the bytes it took, by the number of the call.
abbrev pub Fwrite : Type 0
Fwrite = ℕ → Line → ℕ

-- A size_t that is put into an int, as its 32 bits: the numbers from 2^31 on stand for the negative ones.
abbrev pub to_int : ℕ → ℕ
to_int n = n % 2 ^ 32

abbrev pub is_positive : ℕ → Bool
is_positive i = ltb 0 i && ltb i (2 ^ 31)

abbrev pub int_le : ℕ → ℕ → Bool
int_le i j = leb ((i + 2 ^ 31) % 2 ^ 32) ((j + 2 ^ 31) % 2 ^ 32)

-- The loop of `writeToFile`, from call `i` on: its result, and what reached the file. `none`: out of fuel.
unfoldable pub write_loop : ℕ → Fwrite → ℕ → Line → Option Bool × Line
write_loop zero fwrite i text = (none, [])
write_loop (suc fuel) fwrite i text =
    let count = fwrite i text in
    let ret = to_int count in
    let rest = if int_le ret (to_int (length text)) then drop ret text else text in
    let again = write_loop fuel fwrite (suc i) rest in
    if not (is_positive ret)
    then (some false, take count text)
    else if length rest == 0
    then (some true, take count text)
    else (again.0, take count text ++ again.1)

unfoldable pub write_to_file : Fwrite → Line → Option Bool × Line
unfolding write_loop
write_to_file fwrite text = write_loop (suc (length text)) fwrite 0 text

-- `createNewFile`, with what fopen answers.
unfoldable pub create_new_file : Bool → Log → Log
create_new_file opens l = record l {
  has_file = opens;
  closed = if l.has_file then l.current ∷ l.closed else l.closed;
  current = [];
}

-- The start of a round of `writeThreadProc`.
unfoldable pub roll : Bool → Log → Log
unfolding create_new_file
roll opens l =
    let l' = create_new_file opens (record l { written_size = 0 }) in
    if l.to_file && (not l.has_file || leb l.roll_size l.written_size)
    then record l' { phase = if opens then locking else stopped }
    else record l { phase = locking }

unfoldable pub take_line : Line → List Line → Log → Log
take_line line lines l = record l { phase = printing line; lines = lines }

-- The end of a round: `ok` and `bytes` are what `writeToFile` did.
unfoldable pub print_line : Line → Bool → Line → Log → Log
print_line line ok bytes l =
    let l' = record l { printed = l.printed ++ line ∷ [] } in
    if l.to_file
    then record l' {
      current = l.current ++ bytes ∷ [];
      written_size = if ok then l.written_size + length line else l.written_size;
      phase = if ok then rolling else stopped;
    }
    else record l' { phase = rolling }

-- What `output` comes to: the line is below the level, or waits for the thread, or no file could be
-- opened, or the process ends after it was written at once.
pub data Outcome : Type 0 where
  dropped : Outcome
  queued failed crashed : Log → Outcome

-- The branch for FATAL.
unfoldable pub output_fatal : Bool → Line → Log → Line → Outcome
unfolding create_new_file
output_fatal opens line l bytes =
    let l' = record l { printed = l.printed ++ line ∷ [] } in
    let l'' = if l.has_file then l' else create_new_file opens l' in
    if not l.to_file
    then crashed l'
    else if not l.has_file && not opens
    then failed l''
    else crashed (record l'' { current = l''.current ++ bytes ∷ [] })

unfoldable pub output : ℕ → Bool → Fwrite → Line → Log → Outcome
unfolding push_line output_fatal write_to_file
output n opens fwrite line l =
    if not (n == level_critical) && ltb n l.level
    then dropped
    else if not (n == level_fatal)
    then queued (push_line line l)
    else output_fatal opens line l (write_to_file fwrite line).1
