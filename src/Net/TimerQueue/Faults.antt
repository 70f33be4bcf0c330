-- ===== src/Net/TimerQueue/Faults.antt =====
-- net/TimerQueue.cpp: a timer that is due and is not called.
use learning_tools.Prelude.{ℕ, ◌+◌, ◌≤◌, ◌<◌, ◌≡◌, arith, true, false, ◌==◌, ltb, leb, [], ◌∷◌}
use learning_tools.Net.TimerQueue.{
  run, do_timer, set_insert, insert, add_timer_moved, run_at_moved, run_every_moved,
}
use learning_tools.Net.TimerQueue.Counts.{runs}

-- A repeating timer keeps the key of its first expiration, and a run of the queue ends at the first
-- timer that is not due. So a timer `b` that expires later than the repeating timer `a` did at first is not called
-- while `a` waits for its next expiration: runs between the two find `b` due and call nothing.
later_timer_starves :
    (a b start interval time now : ℕ)
    → start + interval < time
    → time ≤ now
    → now < start + interval + interval
    → let timers = run_at_moved (run_every_moved [] a start interval) b time in
      runs ((start + interval) ∷ now ∷ []) timers ≡ a ∷ []
unfolding run_at_moved run_every_moved add_timer_moved insert set_insert runs do_timer run
later_timer_starves a b start interval time now h due early =
    let behind : ltb time (start + interval) ≡ false = ground arith in
    let differs : (time == start + interval) ≡ false = ground arith in
    let before : ltb (start + interval) time ≡ true = ground arith in
    let first : leb (start + interval) (start + interval) ≡ true = ground arith in
    let waits : leb time (start + interval) ≡ false = ground arith in
    let next : leb (start + interval + interval) now ≡ false = ground arith in
    rw (behind, differs, before, first, waits, next)
