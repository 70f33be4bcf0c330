-- ===== src/Net/Acceptor/Tests.antt =====
-- net/Acceptor.cpp with a process that runs out of descriptors.
use learning_tools.Prelude.{
  ℕ, ◌+◌, ◌-◌, ◌≡◌, refl, Bool, true, false, not, ◌&&◌, ◌||◌, ◌==◌, ltb, arith, if◌then◌else◌, [],
  ◌∷◌, Option, none, some,
}
use learning_tools.Net.Channel.{Channel, Polling}
use learning_tools.Net.Channel
use learning_tools.Net.Sockets.{zeroed}
use learning_tools.Net.Acceptor.{
  Answer, accepted, failed, Kernel, IsKernel, is_idle, emfile, checked, Acceptor, handle_answer,
  handle_read,
}
use learning_tools.Net.Acceptor.Descriptors.{
  is_handed, handle_read_descriptors, handle_read-refuses,
}

-- Descriptors below `next` were given out; `room` more can be opened.
record Process : Type 0 where
  next : ℕ
  closed : ℕ → Bool
  room : ℕ
  queue : ℕ

abbrev open_next : Process → Process
open_next k = record k {
  next = k.next + 1;
  closed = (λ n. k.closed n && not (n == k.next));
  room = k.room - 1;
}

abbrev accept_one : Process → Answer × Process
accept_one k =
    if k.room == 0
    then (failed emfile, k)
    else if k.queue == 0
    then (failed 11, k)
    else (accepted k.next zeroed, record (open_next k) { queue = k.queue - 1 })

abbrev close_one : ℕ → Process → Process
close_one fd k = record k { closed = (λ n. k.closed n || fd == n); room = k.room + 1 }

abbrev open_one : Process → Option ℕ × Process
open_one k = if k.room == 0 then (none, k) else (some k.next, open_next k)

abbrev is_open_in : Process → ℕ → Bool
is_open_in k n = ltb n k.next && not (k.closed n)

abbrev process : Kernel
process = record {
  State = Process;
  accept = accept_one;
  close = close_one;
  open_null = open_one;
  is_open = is_open_in;
  waiting = λ k. k.queue;
}

process-IsKernel : IsKernel process
process-IsKernel = record {
  accept_fresh = λ k n. ground arith;
  accept_open = λ k n. ground arith;
  accept_takes = λ k fd peer e. ground (arith, e);
  accept_emfile = λ k e. ground (arith, e);
  close_open = λ k fd n. ground arith;
  close_waiting = λ k fd. refl;
  null_fresh = λ k n. ground arith;
  null_open = λ k n. ground arith;
  null_waiting = λ k. ground arith;
}

abbrev polling : Polling
polling = record {
  State = Unit;
  update = λ s c. (true, (c, s));
  remove_channel = λ s c. (c, s);
  update-events = λ s c. refl;
}

-- Descriptor 3 listens, and 5 is the idle one.
abbrev acceptor : Acceptor polling
acceptor = record {
  socket = 3;
  channel = Channel.init 100 3;
  poller = tt;
  callback = true;
  listenning = true;
  idle_fd = some 5;
}

-- No descriptor is left, and two connections wait.
abbrev full : Process
full = record { next = 6; closed = (λ n. false); room = 0; queue = 2 }

-- One is left.
abbrev roomy : Process
roomy = record full { room = 1 }

handle_read_descriptors_example :
    (is_open_in (open_next roomy) 6 ≡ (
      (is_open_in roomy 6 && not (is_idle (some 5) 6))
      || is_idle (some 5) 6
      || is_handed ((6, zeroed) ∷ []) 6))
    × ((is_open_in roomy 6 && is_handed ((6, zeroed) ∷ []) 6) ≡ false)
unfolding handle_read handle_answer checked
handle_read_descriptors_example =
    handle_read_descriptors process process-IsKernel polling (λ n. n) acceptor acceptor roomy
      (record (open_next roomy) { queue = 1 }) ((6, zeroed) ∷ []) 6 refl refl

handle_read-refuses_example :
    (idle_fd : Option ℕ) × (k' : Process) × ((handle_read process polling (λ n. n) acceptor full
        ≡ some ([], (record acceptor { idle_fd = idle_fd }, k')))
      × (process.waiting k' + 1 ≡ 2))
handle_read-refuses_example =
    handle_read-refuses process process-IsKernel polling (λ n. n) acceptor full 6 zeroed refl refl
      refl
