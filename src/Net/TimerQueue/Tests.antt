-- ===== src/Net/TimerQueue/Tests.antt =====
-- Runs of the timer queue at concrete inputs, and its theorems at inputs that meet their hypotheses.
use learning_tools.Prelude.{ℕ, ◌≡◌, true, List, [], ◌∷◌, min, replicate}
use learning_tools.Prelude.Int.{pos, negsuc}
use learning_tools.Net.TimerQueue.{add_timer_moved, run_at_moved, run_at_copied}
use learning_tools.Net.TimerQueue.Order.{Call, adds_copied, adds_moved, removes, cancels, ticks}
use learning_tools.Net.TimerQueue.Counts.{
  due_runs, reached, runs, runs-add_timer_moved, runs-run_at,
}

abbrev script : List Call
script =
    adds_moved 9 50 10 (pos 2)
    ∷ adds_copied 4 50 10 (pos 1)
    ∷ ticks 70
    ∷ cancels 4 true
    ∷ removes 9
    ∷ []

abbrev times : List ℕ
times = 30 ∷ 50 ∷ 55 ∷ 75 ∷ []

runs-add_timer_moved_example :
    (runs times (add_timer_moved [] 9 50 10 (pos 2)) ≡ replicate (min 2 (due_runs 50 10 times)) 9)
    × (runs times (add_timer_moved [] 9 50 10 (negsuc 0)) ≡ replicate (due_runs 50 10 times) 9)
runs-add_timer_moved_example = runs-add_timer_moved times 9 50 10 1

runs-run_at_example :
    (runs times (run_at_moved [] 9 55) ≡ replicate (min 1 (reached 55 times)) 9)
    × (runs times (run_at_copied [] 9 55) ≡ replicate (reached 55 times) 9)
runs-run_at_example = runs-run_at times 9 55
