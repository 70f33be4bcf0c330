-- ===== src/Net/EventLoop/Steps.antt =====
-- net/EventLoop.cpp: the steps of the loop's thread and of the others.
use learning_tools.Prelude.{ℕ, ◌-◌, ◌<◌, ◌≡◌, true, false, List, [], ◌∷◌, ◌++◌}
use learning_tools.Net.EventLoop.{
  Phase, timers, polling, handling, calling, frame, stopped, Loop, init, wakeup, queue_in_loop,
  quit, handle_read, swap_pending, call_next, end_pending,
}

-- A step, with the functors that it queues. `Own` says in which phases code in the thread of the loop
-- queues functors or quits.
pub data Step (Own : Phase → Type 0) : Loop → Loop → List ℕ → Type 0 where
  polls : (l : Loop) → l.phase ≡ timers → Step Own l (record l { phase = polling }) []
  -- `poll` comes back, for whatever reason.
  handles : (l : Loop) → l.phase ≡ polling → Step Own l (record l { phase = handling }) []
  reads : (l : Loop) → l.phase ≡ handling → Step Own l (handle_read l) []
  swaps : (l : Loop) → l.phase ≡ handling → Step Own l (swap_pending l) []
  calls :
      (l : Loop) (f : ℕ) (rest : List ℕ)
      → l.phase ≡ calling
      → l.functors ≡ f ∷ rest
      → Step Own l (call_next l f rest) []
  ends : (l : Loop) → l.phase ≡ calling → l.functors ≡ [] → Step Own l (end_pending l) []
  again :
      (l : Loop) → l.phase ≡ frame → l.quits ≡ false → Step Own l (record l { phase = timers }) []
  leaves :
      (l : Loop) → l.phase ≡ frame → l.quits ≡ true → Step Own l (record l { phase = stopped }) []
  queues : (l : Loop) (f : ℕ) → Own l.phase → Step Own l (queue_in_loop true f l) (f ∷ [])
  quits : (l : Loop) → Own l.phase → Step Own l (quit true l) []
  -- Other threads.
  others_queue : (l : Loop) (f : ℕ) → Step Own l (queue_in_loop false f l) (f ∷ [])
  others_quit : (l : Loop) → Step Own l (quit false l) []
  others_write : (l : Loop) → 0 < l.owed → Step Own l (record (wakeup l) { owed = l.owed - 1 }) []

-- The functors that were queued on the way, in order.
pub data Reach (Own : Phase → Type 0) : Loop → List ℕ → Type 0 where
  start : Reach Own init []
  next :
      {l l' : Loop} {log fs log' : List ℕ}
      → Reach Own l log
      → Step Own l l' fs
      → log' ≡ log ++ fs
      → Reach Own l' log'
