-- ===== src/Base/AsyncLog/Tests.antt =====
-- The log of base/AsyncLog.cpp at work: one line through the file, and a dump of two bytes.
use learning_tools.Prelude.{
  ◌&&◌, leb, not, ◌||◌, ℕ, ◌≡◌, refl, arith, Bool, true, false, ltb, ◌==◌, List, [], ◌∷◌, ◌++◌,
  length, min, some, if◌then◌else◌,
}
use learning_tools.Base.AsyncLog.{
  Line, Log, init, set_level, level_text, make_line_prefix, make_line, push_line, Fwrite,
  write_loop, write_to_file, create_new_file, roll, take_line, print_line, dropped, output,
}
use learning_tools.Base.AsyncLog.WriteFile.{IsFwrite, is_none_left, write_to_file-ends}
use learning_tools.Base.AsyncLog.Steps.{
  rolls, takes, prints, outputs, prints_fatal, fails_fatal, Reach, start, next,
}
use learning_tools.Base.AsyncLog.Order.{Merge, in_hand, Reach-printed}
use learning_tools.Base.AsyncLog.Sizes.{all_below}
use learning_tools.Base.AsyncLog.Rolling.{Reach-all_below}
use learning_tools.Base.AsyncLog.Levels.{is_dropped, shown, output-is_dropped}
use learning_tools.Base.AsyncLog.Dump.{output_binary}
use learning_tools.Base.AsyncLog.Dump.Rows.{heading, read_rows, all_bytes}
use learning_tools.Base.AsyncLog.Dump.ReadBack.{output_binary-read_rows}

-- A file that takes at most two bytes at a time.
abbrev two_by_two : Fwrite
two_by_two i text = min 2 (length text)

two_by_two-IsFwrite : IsFwrite two_by_two
two_by_two-IsFwrite = record { at_most = λ i text. omega arith }

abbrev hello : Line
hello = 104 ∷ 101 ∷ 121 ∷ []

write_to_file-ends_example :
    (ok : Bool) × (rest : Line) × (((write_to_file two_by_two hello).0 ≡ some ok)
      × (((write_to_file two_by_two hello).1 ++ rest ≡ hello)
          × (not ok || is_none_left rest ≡ true)))
write_to_file-ends_example = write_to_file-ends two_by_two hello two_by_two-IsFwrite (omega arith)

abbrev started : Log
started = roll true (init true false 2)

abbrev queued_one : Log
queued_one = push_line hello started

abbrev written : Log
written = print_line hello true hello (take_line hello [] queued_one)

abbrev rolled : Log
rolled = roll true (push_line (111 ∷ []) written)

rolled-Reach : Reach (init true false 2) rolled (hello ∷ (111 ∷ []) ∷ []) []
unfolding roll create_new_file push_line take_line print_line output write_to_file write_loop
rolled-Reach =
    next
      (next
        (next
          (next
            (next (next start (rolls _ true refl) refl refl)
              (outputs started queued_one 2 true two_by_two hello refl) refl refl)
            (takes _ hello [] refl refl) refl refl)
          (prints _ hello true hello two_by_two two_by_two-IsFwrite refl refl) refl refl)
        (outputs written (push_line (111 ∷ []) written) 4 true two_by_two (111 ∷ []) refl) refl
        refl)
      (rolls _ true refl) refl refl

-- A FATAL line for which no file can be opened, before the first round.
abbrev urgent_line : Log
urgent_line = record (init true false 2) { printed = hello ∷ []; urgent = [] }

urgent_line-Reach : Reach (init true false 2) urgent_line [] (hello ∷ [])
unfolding create_new_file
urgent_line-Reach =
    next (next start (prints_fatal _ hello) refl refl) (fails_fatal _ hello [] [] refl refl refl)
      refl refl

Reach-printed_example :
    (front : List Line) × (Merge front (hello ∷ []) urgent_line.printed
      × (front ++ (in_hand urgent_line.phase ++ urgent_line.lines) ≡ []))
Reach-printed_example = Reach-printed urgent_line-Reach

Reach-all_below_example : all_below 2 (rolled.current ∷ rolled.closed) ≡ true
Reach-all_below_example = Reach-all_below rolled-Reach refl (omega arith)

output-is_dropped_example :
    (is_dropped (output 6 false two_by_two hello rolled) ≡ ltb 6 rolled.level)
    × ((is_dropped (output 6 false two_by_two hello rolled) && leb 6 6 ≡ false)
        × (shown (output 6 false two_by_two hello rolled) rolled ≡ (
            if ltb 6 rolled.level
            then (rolled.printed, rolled.lines)
            else if 6 == 6
            then (rolled.printed ++ hello ∷ [], rolled.lines)
            else (rolled.printed, rolled.lines ++ hello ∷ []))))
output-is_dropped_example = output-is_dropped 6 false two_by_two hello rolled-Reach

output_binary-read_rows_example :
    (text : List ℕ) × ((output_binary [] (255 ∷ 16 ∷ []) started
        ≡ some (push_line ([] ++ text) started))
      × (read_rows heading text ≡ 255 ∷ 16 ∷ []))
unfolding all_bytes
output_binary-read_rows_example =
    output_binary-read_rows [] (255 ∷ 16 ∷ []) started (omega arith) refl

make_line_example : length (make_line started 4 hello hello hello hello) ≡ 22
unfolding make_line make_line_prefix level_text roll create_new_file
make_line_example = refl

set_level_example : (set_level 9 started).level ≡ 2
unfolding set_level roll create_new_file
set_level_example = refl

output_example : output 1 true two_by_two hello started ≡ dropped
unfolding output roll create_new_file
output_example = refl
