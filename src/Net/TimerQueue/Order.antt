-- ===== src/Net/TimerQueue/Order.antt =====
-- net/TimerQueue.cpp: `timers_` stays a set in the order of its keys.
use learning_tools.Prelude.{ℕ, ◌<◌, ◌≡◌, ◌&&◌, ◌⊎◌, Bool, true, leb, List, [], ◌∷◌, All}
use learning_tools.Prelude.Int.{ℤ}
use learning_tools.Net.TimerQueue.{
  Entry, add_timer_copied, add_timer_moved, remove_timer, cancel, do_timer, run,
}

abbrev pub Below : Entry → Entry → Type 0
Below a b = (a.when < b.when) ⊎ ((a.when ≡ b.when) × (a.timer.address < b.timer.address))

abbrev pub IsSorted : List Entry → Type 0
IsSorted [] = Unit {0}
IsSorted (x ∷ xs) = All (Below x) xs × IsSorted xs

pub data Call : Type 0 where
  adds_copied adds_moved : ℕ → ℕ → ℕ → ℤ → Call
  removes : ℕ → Call
  cancels : ℕ → Bool → Call
  ticks : ℕ → Call

pub step : Call → List Entry → List Entry
step (adds_copied a w i r) es = add_timer_copied es a w i r
step (adds_moved a w i r) es = add_timer_moved es a w i r
step (removes a) es = remove_timer es a
step (cancels a off) es = cancel es a off
step (ticks now) es = (do_timer es now).1

-- A timer that has run stays in its place.
after_run : Entry → Entry
after_run e = record e { timer = (run e.timer).1 }

-- No timer expires before its key.
unfoldable pub all_timed : List Entry → Bool
all_timed [] = true
all_timed (e ∷ es) = leb e.when e.timer.expiration && all_timed es

pub steps : List Call → List Entry → List Entry
steps [] es = es
steps (k ∷ ks) es = steps ks (step k es)
