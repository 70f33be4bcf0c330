-- ===== src/Net/EventLoop/Order.antt =====
-- net/EventLoop.cpp: which functors are called, and in which order.
use mathlib.Core.List.{append_assoc, append-nil}
use learning_tools.Prelude.{
  ℕ, ◌≡◌, refl, ap, sym, ◌∙◌, arith, Bool, true, false, List, [], ◌∷◌, ◌++◌,
}
use learning_tools.Net.EventLoop.{
  Phase, is_calling, Loop, wakeup, owe, queue_in_loop, quit, handle_read, swap_pending, call_next,
  end_pending,
}
use learning_tools.Net.EventLoop.Steps.{
  Step, polls, handles, reads, swaps, calls, ends, again, leaves, queues, quits, others_queue,
  others_quit, others_write, Reach, start, next,
}

-- Functors in a row: called, taken out to be called, and waiting.
abbrev row : Loop → List ℕ
row l = l.ran ++ (l.functors ++ l.pending)

-- Outside `doPendingFunctors` none is taken out.
Idle : Loop → Type 0
Idle l = is_calling l.phase ≡ false → l.functors ≡ []

queue-row : (t : Bool) (f : ℕ) (l : Loop) → row (queue_in_loop t f l) ≡ row l ++ f ∷ []
unfolding queue_in_loop wakeup owe
queue-row t f l =
    let shape =
      ap (λ r. l.ran ++ r) (sym (append_assoc l.functors l.pending (f ∷ [])))
      ∙ sym (append_assoc l.ran (l.functors ++ l.pending) (f ∷ [])) in
    ground (arith, shape)

queue-same :
    (t : Bool) (f : ℕ) (l : Loop)
    → ((queue_in_loop t f l).phase ≡ l.phase) × ((queue_in_loop t f l).functors ≡ l.functors)
unfolding queue_in_loop wakeup owe
queue-same t f l = ground arith

call_next-row :
    (l : Loop) (f : ℕ) (rest : List ℕ)
    → l.functors ≡ f ∷ rest
    → row (call_next l f rest) ≡ row l ++ []
unfolding call_next
call_next-row l f rest g = rw (append-nil, g, append_assoc)

swap_pending-row : (l : Loop) → l.functors ≡ [] → row (swap_pending l) ≡ row l ++ []
unfolding swap_pending
swap_pending-row l g = rw (append-nil, append-nil, g)

module _ {Own : Phase → Type 0} where
  Step-row : {l l' : Loop} {fs : List ℕ} → Step Own l l' fs → Idle l → row l' ≡ row l ++ fs
  unfolding quit handle_read end_pending wakeup owe Idle
  Step-row (polls l e) h = sym (append-nil _)
  Step-row (handles l e) h = sym (append-nil _)
  Step-row (reads l e) h = sym (append-nil _)
  Step-row (swaps l e) h = swap_pending-row l (h (ap is_calling e))
  Step-row (calls l f rest e g) h = call_next-row l f rest g
  Step-row (ends l e g) h = sym (append-nil _)
  Step-row (again l e q) h = sym (append-nil _)
  Step-row (leaves l e q) h = sym (append-nil _)
  Step-row (queues l f own) h = queue-row true f l
  Step-row (quits l own) h = sym (append-nil _)
  Step-row (others_queue l f) h = queue-row false f l
  Step-row (others_quit l) h = sym (append-nil _)
  Step-row (others_write l o) h = sym (append-nil _)

  Step-Idle : {l l' : Loop} {fs : List ℕ} → Step Own l l' fs → Idle l → Idle l'
  unfolding quit handle_read end_pending wakeup owe swap_pending call_next Idle
  Step-Idle (polls l e) h = λ _. h (ap is_calling e)
  Step-Idle (handles l e) h = λ _. h (ap is_calling e)
  Step-Idle (reads l e) h = h
  Step-Idle (swaps l e) h = λ b. ground (arith, b)
  Step-Idle (calls l f rest e g) h = λ b. ground (arith, b, ap is_calling e)
  Step-Idle (ends l e g) h = λ _. g
  Step-Idle (again l e q) h = λ _. h (ap is_calling e)
  Step-Idle (leaves l e q) h = λ _. h (ap is_calling e)
  Step-Idle (queues l f own) h =
      λ b. (queue-same true f l).1 ∙ h (ap is_calling (sym ((queue-same true f l).0)) ∙ b)
  Step-Idle (quits l own) h = h
  Step-Idle (others_queue l f) h =
      λ b. (queue-same false f l).1 ∙ h (ap is_calling (sym ((queue-same false f l).0)) ∙ b)
  Step-Idle (others_quit l) h = h
  Step-Idle (others_write l o) h = h

  Reach-Idle : {l : Loop} {log : List ℕ} → Reach Own l log → Idle l
  unfolding Idle
  Reach-Idle start = λ _. refl
  Reach-Idle (next r s e) = Step-Idle s (Reach-Idle r)

-- Whatever the phases in which the loop's own thread queues functors and quits, and whatever the
-- other threads do in between: in every reachable state the functors that were called, then those
-- taken out, then those still waiting are exactly the queued ones, each once, in the order in which
-- they were queued.
pub Reach-row :
    {Own : Phase → Type 0} {l : Loop} {log : List ℕ}
    → Reach Own l log
    → l.ran ++ (l.functors ++ l.pending) ≡ log
Reach-row start = refl
Reach-row (next {fs = fs} r s e) =
    Step-row s (Reach-Idle r) ∙ ap (λ xs. xs ++ fs) (Reach-row r) ∙ sym e
