-- ===== src/Base/AsyncLog/Steps.antt =====
-- base/AsyncLog.cpp: the steps of the thread that writes and of the threads that log.
use learning_tools.Prelude.{ℕ, ◌≡◌, Bool, true, false, some, List, [], ◌∷◌, ◌++◌}
use learning_tools.Base.AsyncLog.{
  Line, rolling, locking, printing, stopped, Log, set_level, push_line, Fwrite, write_to_file,
  create_new_file, roll, take_line, print_line, queued, output,
}
use learning_tools.Base.AsyncLog.WriteFile.{IsFwrite}

-- A step, with the lines that it puts into the list, and the FATAL lines that it prints. Waiting for a line changes
-- nothing.
pub data Step : Log → Log → List Line → List Line → Type 0 where
  rolls : (l : Log) (opens : Bool) → l.phase ≡ rolling → Step l (roll opens l) [] []
  takes :
      (l : Log) (line : Line) (lines : List Line)
      → l.phase ≡ locking
      → l.lines ≡ line ∷ lines
      → Step l (take_line line lines l) [] []
  leaves :
      (l : Log)
      → l.phase ≡ locking
      → l.lines ≡ []
      → l.exits ≡ true
      → Step l (record l { phase = stopped }) [] []
  prints :
      (l : Log) (line : Line) (ok : Bool) (bytes : Line) (fwrite : Fwrite)
      → IsFwrite fwrite
      → l.phase ≡ printing line
      → write_to_file fwrite line ≡ (some ok, bytes)
      → Step l (print_line line ok bytes l) [] []
  -- `output` and `outputBinary` of any thread, `setLevel`, and the start of `uninit`.
  outputs :
      (l l' : Log) (n : ℕ) (opens : Bool) (fwrite : Fwrite) (line : Line)
      → output n opens fwrite line l ≡ queued l'
      → Step l l' (line ∷ []) []
  dumps : (l : Log) (line : Line) → Step l (push_line line l) (line ∷ []) []
  sets_level : (l : Log) (n : ℕ) → Step l (set_level n l) [] []
  exits : (l : Log) → Step l (record l { exits = true }) [] []
  -- FATAL in `output`, by any thread: it prints at once; then it opens a file if none is open, and the
  -- call ends if that fails; else it writes, by one or more calls of fwrite, and the process ends, after any
  -- number of steps of the others: there is no step for that, any state with an urgent line can be the last.
  prints_fatal :
      (l : Log) (line : Line)
      → Step l
          (record l { printed = l.printed ++ line ∷ []; urgent = line ∷ l.urgent })
          []
          (line ∷ [])
  fails_fatal :
      (l : Log) (line : Line) (front back : List Line)
      → l.urgent ≡ front ++ line ∷ back
      → l.to_file ≡ true
      → l.has_file ≡ false
      → Step l (record (create_new_file false l) { urgent = front ++ back }) [] []
  opens_fatal :
      (l : Log) (line : Line) (front back : List Line)
      → l.urgent ≡ front ++ line ∷ back
      → l.to_file ≡ true
      → l.has_file ≡ false
      → Step l (create_new_file true l) [] []
  writes_fatal :
      (l : Log) (line bytes : Line) (front back : List Line)
      → l.urgent ≡ front ++ line ∷ back
      → l.to_file ≡ true
      → Step l (record l { current = l.current ++ bytes ∷ [] }) [] []

-- The lines that were put into the list on the way, and the FATAL lines that were printed, each in order.
pub data Reach (first : Log) : Log → List Line → List Line → Type 0 where
  start : Reach first first [] []
  next :
      {l l' : Log} {queue lines queue' fatals urgent fatals' : List Line}
      → Reach first l queue fatals
      → Step l l' lines urgent
      → queue' ≡ queue ++ lines
      → fatals' ≡ fatals ++ urgent
      → Reach first l' queue' fatals'
