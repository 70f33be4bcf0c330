-- ===== src/Net/EventLoop.antt =====
-- net/EventLoop.cpp: the loop, and the functors that any thread leaves for it. A functor is a number.
-- The eventfd is its counter: a write adds one, and a read takes all. What one thread does under
-- the mutex, or alone, is one step; other threads may step between any two of them.
pub mod Steps
pub mod Order
pub mod Wakeups
pub mod Channels
mod Tests
use learning_tools.Prelude.{
  ℕ, ◌+◌, ◌<◌, ◌≡◌, Bool, true, false, not, ◌||◌, if◌then◌else◌, List, [], ◌∷◌, ◌++◌,
}

-- Where the thread of the loop is: in `doTimer`, in `poll`, in the handlers of the channels, in
-- `doPendingFunctors` behind the swap, in the frame functor and the test of `quit_`, or
-- behind the loop.
pub data Phase : Type 0 where
  timers polling handling calling frame stopped : Phase

abbrev pub is_calling : Phase → Bool
is_calling timers = false
is_calling polling = false
is_calling handling = false
is_calling calling = true
is_calling frame = false
is_calling stopped = false

-- `functors` is the local vector of `doPendingFunctors`; `ran` lists what was called from it. `owed`
-- counts the wakeups that other threads have decided on and not yet written.
pub record Loop : Type 0 where
  pub phase : Phase
  pub pending : List ℕ
  pub functors : List ℕ
  pub calling_pending : Bool
  pub quits : Bool
  pub wakeups : ℕ
  pub owed : ℕ
  pub ran : List ℕ

-- The start of `loop`: the test of `quit_` comes first.
abbrev pub init : Loop
init = record {
  phase = frame;
  pending = [];
  functors = [];
  calling_pending = false;
  quits = false;
  wakeups = 0;
  owed = 0;
  ran = [];
}

unfoldable pub wakeup : Loop → Loop
wakeup l = record l { wakeups = l.wakeups + 1 }

-- A wakeup of another thread, which writes to the eventfd later.
unfoldable pub owe : Loop → Loop
owe l = record l { owed = l.owed + 1 }

unfoldable pub queue_in_loop : Bool → ℕ → Loop → Loop
unfolding wakeup owe
queue_in_loop in_thread f l =
    let l' = record l { pending = l.pending ++ f ∷ [] } in
    if not in_thread || l.calling_pending then (if in_thread then wakeup l' else owe l') else l'

-- What is called at once, and the loop afterwards.
unfoldable pub run_in_loop : Bool → ℕ → Loop → List ℕ × Loop
unfolding queue_in_loop
run_in_loop in_thread f l = if in_thread then (f ∷ [], l) else ([], queue_in_loop in_thread f l)

unfoldable pub quit : Bool → Loop → Loop
unfolding owe
quit in_thread l = let l' = record l { quits = true } in if not in_thread then owe l' else l'

-- `read` of the eventfd.
unfoldable pub handle_read : Loop → Loop
handle_read l = record l { wakeups = 0 }

-- `doPendingFunctors`: its start, and one round of its loop, which the functor's own calls follow.
unfoldable pub swap_pending : Loop → Loop
swap_pending l = record l {
  phase = calling;
  calling_pending = true;
  functors = l.pending;
  pending = [];
}

unfoldable pub call_next : Loop → ℕ → List ℕ → Loop
call_next l f rest = record l { functors = rest; ran = l.ran ++ f ∷ [] }

unfoldable pub end_pending : Loop → Loop
end_pending l = record l { phase = frame; calling_pending = false }
