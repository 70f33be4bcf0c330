-- ===== src/Base/AsyncLog/Levels.antt =====
-- base/AsyncLog.cpp: which lines `output` leaves out.
use learning_tools.Prelude.{
  ◌&&◌, leb, ℕ, ◌≤◌, ◌≡◌, arith, ltb, ◌==◌, Bool, true, false, List, [], ◌∷◌, ◌++◌, if◌then◌else◌,
}
use learning_tools.Base.AsyncLog.{
  Line, Log, init, set_level, push_line, Fwrite, create_new_file, roll, take_line, print_line,
  Outcome, dropped, queued, failed, crashed, output, output_fatal,
}
use learning_tools.Base.AsyncLog.Order.{output-queued}
use learning_tools.Base.AsyncLog.Steps.{
  Step, rolls, takes, leaves, prints, outputs, dumps, sets_level, exits, prints_fatal, fails_fatal,
  opens_fatal, writes_fatal, Reach, start, next,
}

abbrev pub is_dropped : Outcome → Bool
is_dropped dropped = true
is_dropped (queued l) = false
is_dropped (failed l) = false
is_dropped (crashed l) = false

-- The lines on the console and in the list that an outcome leaves.
abbrev pub shown : Outcome → Log → List Line × List Line
shown dropped l = (l.printed, l.lines)
shown (queued l') l = (l'.printed, l'.lines)
shown (failed l') l = (l'.printed, l'.lines)
shown (crashed l') l = (l'.printed, l'.lines)

Step-level :
    {l l' : Log} {lines urgent : List Line} → Step l l' lines urgent → l.level ≤ 6 → l'.level ≤ 6
unfolding roll create_new_file take_line print_line push_line set_level
Step-level (rolls l opens e) h = ground (arith, h)
Step-level (takes l line lines e g) h = h
Step-level (leaves l e g q) h = h
Step-level (prints l line ok bytes fwrite law e g) h = ground (arith, h)
Step-level (outputs l l' n opens fwrite line e) h = rw (output-queued n opens fwrite line l l' e) h
Step-level (dumps l line) h = h
Step-level (sets_level l n) h = ground (arith, h)
Step-level (exits l) h = h
Step-level (prints_fatal l line) h = h
Step-level (fails_fatal l line front back e g q) h = h
Step-level (opens_fatal l line front back e g q) h = h
Step-level (writes_fatal l line bytes front back e g) h = h

Reach-level :
    {to_file truncates : Bool} {roll_size : ℕ} {l : Log} {queue fatals : List Line}
    → Reach (init to_file truncates roll_size) l queue fatals
    → l.level ≤ 6
Reach-level start = omega arith
Reach-level (next r s e g) = Step-level s (Reach-level r)

-- In every reachable state a line is left out exactly when its level is below the current one, which
-- no call of `setLevel` brings above FATAL: so a line of level FATAL or CRITICAL never is. A line that
-- is left out changes nothing on the console and in the list; one of level FATAL is on the console when
-- `output` ends, also when no file can be opened; any other is at the end of the list.
pub output-is_dropped :
    {to_file truncates : Bool} {roll_size : ℕ} {l : Log} {queue fatals : List Line} (n : ℕ)
    (opens : Bool) (fwrite : Fwrite) (line : Line)
    → Reach (init to_file truncates roll_size) l queue fatals
    → (is_dropped (output n opens fwrite line l) ≡ ltb n l.level)
      × ((is_dropped (output n opens fwrite line l) && leb 6 n ≡ false)
          × (shown (output n opens fwrite line l) l ≡ (
              if ltb n l.level
              then (l.printed, l.lines)
              else if n == 6
              then (l.printed ++ line ∷ [], l.lines)
              else (l.printed, l.lines ++ line ∷ []))))
unfolding output output_fatal push_line create_new_file
output-is_dropped n opens fwrite line r =
    let level = Reach-level r in
    (ground (arith, level), (ground (arith, level), ground (arith, level)))
