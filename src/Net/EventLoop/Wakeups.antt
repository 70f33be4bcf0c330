-- ===== src/Net/EventLoop/Wakeups.antt =====
-- net/EventLoop.cpp: `wakeup`, and the functors and the `quit` that the poller has to notice.
use learning_tools.Prelude.{
  ℕ, ◌+◌, ◌<◌, ◌≡◌, refl, arith, Bool, true, false, ◌&&◌, ◌||◌, List, [], ◌∷◌,
}
use learning_tools.Net.EventLoop.{
  Phase, timers, polling, handling, calling, frame, stopped, is_calling, Loop, wakeup, owe,
  queue_in_loop, quit, handle_read, swap_pending, call_next, end_pending,
}
use learning_tools.Net.EventLoop.Steps.{
  Step, polls, handles, reads, swaps, calls, ends, again, leaves, queues, quits, others_queue,
  others_quit, others_write, Reach, start, next,
}

abbrev pub has_some : List ℕ → Bool
has_some [] = false
has_some (f ∷ fs) = true

-- The code in the loop's thread that `queueInLoop` is written for: the handlers and the functors.
abbrev pub in_handlers : Phase → Bool
in_handlers timers = false
in_handlers polling = false
in_handlers handling = true
in_handlers calling = true
in_handlers frame = false
in_handlers stopped = false

abbrev pub OwnHandlers : Phase → Type 0
OwnHandlers p = in_handlers p ≡ true

-- Whether `poll` comes before the next `doPendingFunctors`.
abbrev polls_first : Phase → Bool
polls_first handling = false
polls_first timers = true
polls_first polling = true
polls_first calling = true
polls_first frame = true
polls_first stopped = true

-- Whether `poll` comes before the next test of `quit_`.
abbrev sleeps : Phase → Bool
sleeps timers = true
sleeps polling = true
sleeps handling = false
sleeps calling = false
sleeps frame = false
sleeps stopped = false

abbrev needs_wakeup : Phase → List ℕ → Bool → Bool
needs_wakeup p fs q = (polls_first p && has_some fs) || (sleeps p && q)

Woken : Loop → Type 0
Woken l =
    (l.calling_pending ≡ is_calling l.phase)
    × (needs_wakeup l.phase l.pending l.quits ≡ true → 0 < l.wakeups + l.owed)

Step-Woken : {l l' : Loop} {fs : List ℕ} → Step OwnHandlers l l' fs → Woken l → Woken l'
unfolding Woken queue_in_loop quit handle_read end_pending wakeup owe swap_pending call_next
Step-Woken (polls l e) (c, w) = (ground (arith, c, e), ground (arith, c, e, w))
Step-Woken (handles l e) (c, w) = (ground (arith, c, e), ground (arith, c, e, w))
Step-Woken (reads l e) (c, w) = (c, ground (arith, c, e, w))
Step-Woken (swaps l e) (c, w) = (refl, ground (arith, c, e, w))
Step-Woken (calls l f rest e g) (c, w) = (c, w)
Step-Woken (ends l e g) (c, w) = (refl, ground (arith, c, e, w))
Step-Woken (again l e q) (c, w) = (ground (arith, c, e), ground (arith, c, e, w))
Step-Woken (leaves l e q) (c, w) = (ground (arith, c, e), ground (arith, c, e, w))
Step-Woken (queues l f own) (c, w) = (ground (arith, c), ground (arith, c, own, w))
Step-Woken (quits l own) (c, w) = (c, ground (arith, c, own, w))
Step-Woken (others_queue l f) (c, w) = (ground (arith, c), ground (arith, c, w))
Step-Woken (others_quit l) (c, w) = (c, ground (arith, c, w))
Step-Woken (others_write l o) (c, w) = (c, ground (arith, c, o, w))

Reach-Woken : {l : Loop} {log : List ℕ} → Reach OwnHandlers l log → Woken l
unfolding Woken
Reach-Woken start = (refl, λ e. ground (arith, e))
Reach-Woken (next r s e) = Step-Woken s (Reach-Woken r)

-- No wakeup is lost: when the loop's own thread queues functors and quits only from the handlers of
-- the channels and from functors, then in every reachable state in which the thread is in `poll`, with
-- a functor waiting or `quit_` set, the eventfd is readable or another thread is about to write it.
pub poll-Woken :
    {l : Loop} {log : List ℕ}
    → Reach OwnHandlers l log
    → l.phase ≡ polling
    → has_some l.pending || l.quits ≡ true
    → 0 < l.wakeups + l.owed
unfolding Woken
poll-Woken r e t = let w = (Reach-Woken r).1 in ground (arith, w, e, t)
