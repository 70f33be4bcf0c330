-- ===== src/Net/EventLoop/Tests.antt =====
-- The loop of net/EventLoop.cpp at work: another thread's functor, a functor that queues one, and `quit`.
use learning_tools.Prelude.{◌+◌, ◌<◌, ◌≡◌, refl, true, false, [], ◌∷◌, ◌++◌}
use learning_tools.Net.EventLoop.{
  timers, polling, handling, Loop, init, wakeup, owe, queue_in_loop, quit, handle_read,
  swap_pending, call_next, end_pending, run_in_loop,
}
use learning_tools.Net.EventLoop.Steps.{
  polls, handles, swaps, calls, ends, again, queues, others_queue, Reach, start, next,
}
use learning_tools.Net.EventLoop.Order.{Reach-row}
use learning_tools.Net.EventLoop.Wakeups.{OwnHandlers, poll-Woken}

-- Functor 7 comes from another thread; it queues 8 when it is called, while 9 comes from outside.
abbrev seven_queued : Loop
seven_queued = queue_in_loop false 7 init

abbrev seven_taken : Loop
seven_taken = swap_pending (record (record seven_queued { phase = polling }) { phase = handling })

abbrev seven_called : Loop
seven_called = call_next seven_taken 7 []

abbrev two_waiting : Loop
two_waiting = queue_in_loop false 9 (queue_in_loop true 8 seven_called)

abbrev polling_again : Loop
polling_again = record (record (end_pending two_waiting) { phase = timers }) { phase = polling }

seven_called-Reach : Reach OwnHandlers seven_called (7 ∷ [])
unfolding queue_in_loop owe wakeup swap_pending call_next
seven_called-Reach =
    next
      (next
        (next
          (next (next (next start (others_queue _ 7) refl) (again _ refl refl) refl) (polls _ refl)
            refl)
          (handles _ refl) refl)
        (swaps _ refl) refl)
      (calls _ 7 [] refl refl) refl

polling_again-Reach : Reach OwnHandlers polling_again (7 ∷ 8 ∷ 9 ∷ [])
unfolding queue_in_loop owe wakeup swap_pending call_next end_pending
polling_again-Reach =
    next
      (next
        (next (next (next seven_called-Reach (queues _ 8 refl) refl) (others_queue _ 9) refl)
          (ends _ refl refl) refl)
        (again _ refl refl) refl)
      (polls _ refl) refl

Reach-row_example :
    polling_again.ran ++ (polling_again.functors ++ polling_again.pending) ≡ 7 ∷ 8 ∷ 9 ∷ []
Reach-row_example = Reach-row polling_again-Reach

poll-Woken_example : 0 < polling_again.wakeups + polling_again.owed
unfolding queue_in_loop owe wakeup swap_pending call_next end_pending
poll-Woken_example = poll-Woken polling_again-Reach refl refl

run_in_loop_example : run_in_loop true 4 init ≡ (4 ∷ [], init)
unfolding run_in_loop
run_in_loop_example = refl

handle_read_example : (handle_read two_waiting).wakeups ≡ 0
unfolding handle_read
handle_read_example = refl

quit_example : (quit false init).owed ≡ 1
unfolding quit owe
quit_example = refl
