-- ===== src/Net/EventLoopThread.antt =====
-- net/EventLoopThread.cpp: a thread that runs a loop, and the caller that waits until the loop is there. What happens
-- between two changes of the mutex, or outside of it, is one step. The loop is known by its address.
pub mod Started
mod Tests
use learning_tools.Prelude.{ℕ, ◌≡◌, Bool, true, false, Option, none, some}

-- Where the new thread is: in threadFunc before `loop_` is set, in the loop, or behind it.
pub data Thread : Type 0 where
  absent starting looping ended : Thread

-- Where the caller is: outside, blocked on `cond_`, before the test of `loop_`, behind the wait, or back with a
-- result.
pub data Caller : Type 0 where
  outside blocked awake passed : Caller
  returned : Option ℕ → Caller

pub record LoopThread : Type 0 where
  pub loop : Option ℕ
  pub thread : Thread
  pub caller : Caller
  pub quits : Bool

unfoldable pub init : LoopThread
init = record { loop = none; thread = absent; caller = outside; quits = false }

-- The start of `startLoop`.
unfoldable pub start_loop : LoopThread → LoopThread
start_loop t = record t { thread = starting; caller = awake }

-- The loop of `startLoop`.
unfoldable pub test_loop : LoopThread → LoopThread
test_loop t = elim t.loop [
  | none ↦ record t { caller = blocked }
  | some _ ↦ record t { caller = passed }
]

-- `return loop_`, behind the mutex.
unfoldable pub return_loop : LoopThread → LoopThread
return_loop t = record t { caller = returned t.loop }

abbrev pub notified : Caller → Caller
notified outside = outside
notified blocked = awake
notified awake = awake
notified passed = passed
notified (returned r) = returned r

unfoldable pub set_loop : ℕ → LoopThread → LoopThread
set_loop address t = record t { loop = some address; thread = looping; caller = notified t.caller }

-- The end of `threadFunc`.
unfoldable pub end_thread : LoopThread → LoopThread
end_thread t = record t { loop = none; thread = ended }

-- The start of `stopLoop`, and of the destructor.
unfoldable pub quit_loop : LoopThread → LoopThread
quit_loop t = elim t.loop [ none ↦ t | some _ ↦ record t { quits = true } ]

-- `ends`: a loop ends when it was told to quit. `others_quit` is a call of `quit` by the function that is run before
-- the loop, or by anyone who has the loop.
pub data Step (address : ℕ) : LoopThread → LoopThread → Type 0 where
  starts : (t : LoopThread) → t.thread ≡ absent → Step address t (start_loop t)
  tests : (t : LoopThread) → t.caller ≡ awake → Step address t (test_loop t)
  wakes_up : (t : LoopThread) → t.caller ≡ blocked → Step address t (record t { caller = awake })
  returns : (t : LoopThread) → t.caller ≡ passed → Step address t (return_loop t)
  sets : (t : LoopThread) → t.thread ≡ starting → Step address t (set_loop address t)
  ends : (t : LoopThread) → t.thread ≡ looping → t.quits ≡ true → Step address t (end_thread t)
  stops : (t : LoopThread) → Step address t (quit_loop t)
  others_quit : (t : LoopThread) → Step address t (record t { quits = true })

pub data Reach (address : ℕ) : LoopThread → Type 0 where
  start : Reach address init
  next : {t t' : LoopThread} → Reach address t → Step address t t' → Reach address t'
