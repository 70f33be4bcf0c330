-- ===== src/Net/TimerQueue.antt =====
-- net/Timer.cpp, net/TimerQueue.cpp, and the calls of EventLoop.cpp that set timers, all in the
-- loop's thread. Times and intervals are microseconds since the Epoch, natural numbers below 2^63. A
-- callback does not change the queue; a run shows which timers it called.
pub mod Order
pub mod Counts
pub mod Faults
mod Tests
use learning_tools.Prelude.{
  ℕ, zero, suc, ◌+◌, ◌-◌, ◌≤◌, ◌<◌, Bool, true, false, not, ◌&&◌, ◌||◌, ◌==◌, ltb, leb,
  if◌then◌else◌, List, [], ◌∷◌, ◌++◌,
}
use learning_tools.Prelude.Int.{ℤ, pos, negsuc}

-- `address` is the pointer by which a TimerId names the timer.
pub record Timer : Type 0 where
  pub address : ℕ
  pub expiration : ℕ
  pub interval : ℕ
  pub repeat_count : ℤ
  pub canceled : Bool

abbrev pub init : ℕ → ℕ → ℕ → ℤ → Timer
init address when interval repeat_count = record {
  address = address;
  expiration = when;
  interval = interval;
  repeat_count = repeat_count;
  canceled = false;
}

abbrev pub is_forever : ℤ → Bool
is_forever (pos n) = false
is_forever (negsuc zero) = true
is_forever (negsuc (suc n)) = false

abbrev pub is_zero : ℤ → Bool
is_zero (pos zero) = true
is_zero (pos (suc n)) = false
is_zero (negsuc n) = false

abbrev pub decrement : ℤ → ℤ
decrement (pos zero) = negsuc 0
decrement (pos (suc n)) = pos n
decrement (negsuc n) = negsuc (suc n)

-- Whether the callback was called, and the timer afterwards.
unfoldable pub run : Timer → Bool × Timer
run t =
    if t.canceled
    then (false, t)
    else if is_forever t.repeat_count
    then (true, record t { expiration = t.expiration + t.interval })
    else if is_zero (decrement t.repeat_count)
    then (true, record t { repeat_count = decrement t.repeat_count })
    else (
      true,
      record t { repeat_count = decrement t.repeat_count; expiration = t.expiration + t.interval },
    )

-- An element of `timers_`. The key keeps the expiration that the timer was inserted with.
pub record Entry : Type 0 where
  pub when : ℕ
  pub timer : Timer

-- The order of pairs.
abbrev pub key_lt : Entry → Entry → Bool
key_lt a b = ltb a.when b.when || ((a.when == b.when) && ltb a.timer.address b.timer.address)

-- `std::set::insert`
unfoldable pub set_insert : List Entry → Entry → List Entry
set_insert [] e = e ∷ []
set_insert (x ∷ xs) e =
    let rest = set_insert xs e in
    if key_lt e x then e ∷ x ∷ xs else if key_lt x e then x ∷ rest else x ∷ xs

unfoldable pub insert : List Entry → Timer → List Entry
unfolding set_insert
insert timers t = set_insert timers (record { when = t.expiration; timer = t })

-- The overload for a callback that is copied.
unfoldable pub add_timer_copied : List Entry → ℕ → ℕ → ℕ → ℤ → List Entry
unfolding insert
add_timer_copied timers address when interval repeat_count =
    insert timers (init address when interval (negsuc 0))

-- The overload for a callback that is moved.
unfoldable pub add_timer_moved : List Entry → ℕ → ℕ → ℕ → ℤ → List Entry
unfolding insert
add_timer_moved timers address when interval repeat_count =
    insert timers (init address when interval repeat_count)

-- `removeTimerInLoop`
unfoldable pub remove_timer : List Entry → ℕ → List Entry
remove_timer [] address = []
remove_timer (x ∷ xs) address =
    let rest = remove_timer xs address in if x.timer.address == address then xs else x ∷ rest

-- `cancelTimerInLoop`
unfoldable pub cancel : List Entry → ℕ → Bool → List Entry
cancel [] address off = []
cancel (x ∷ xs) address off =
    let rest = cancel xs address off in
    if x.timer.address == address
    then record x { timer = record x.timer { canceled = off } } ∷ xs
    else x ∷ rest

abbrev pub called : Bool → Timer → List ℕ → List ℕ
called true t ids = t.address ∷ ids
called false t ids = ids

-- The timers that are called, in this order, and the set afterwards.
unfoldable pub do_timer : List Entry → ℕ → List ℕ × List Entry
unfolding run
do_timer [] now = ([], [])
do_timer (e ∷ es) now =
    let (ids, rest) = do_timer es now in
    let (was_called, t) = run e.timer in
    if leb e.timer.expiration now
    then (
      called was_called t ids,
      (if is_zero t.repeat_count then rest else record e { timer = t } ∷ rest),
    )
    else ([], e ∷ es)

-- `EventLoop::runAt`, `runAfter` and `runEvery`, for copied and for moved callbacks; `now` is the
-- time of the call.
unfoldable pub run_at_copied : List Entry → ℕ → ℕ → List Entry
unfolding add_timer_copied
run_at_copied timers address time = add_timer_copied timers address time 0 (pos 1)

unfoldable pub run_at_moved : List Entry → ℕ → ℕ → List Entry
unfolding add_timer_moved
run_at_moved timers address time = add_timer_moved timers address time 0 (pos 1)

unfoldable pub run_after_copied : List Entry → ℕ → ℕ → ℕ → List Entry
unfolding run_at_copied
run_after_copied timers address now delay = run_at_copied timers address (now + delay)

unfoldable pub run_after_moved : List Entry → ℕ → ℕ → ℕ → List Entry
unfolding run_at_moved
run_after_moved timers address now delay = run_at_moved timers address (now + delay)

unfoldable pub run_every_copied : List Entry → ℕ → ℕ → ℕ → List Entry
unfolding add_timer_copied
run_every_copied timers address now interval =
    add_timer_copied timers address (now + interval) interval (negsuc 0)

unfoldable pub run_every_moved : List Entry → ℕ → ℕ → ℕ → List Entry
unfolding add_timer_moved
run_every_moved timers address now interval =
    add_timer_moved timers address (now + interval) interval (negsuc 0)
