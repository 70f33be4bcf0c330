-- ===== src/Net/TcpConnection/Wire.antt =====
-- net/TcpConnection.cpp: the bytes on the wire over the whole life of a connection.
use mathlib.Core.List.{append-nil, append_assoc}
use learning_tools.Prelude.{
  ℕ, ◌+◌, ◌≡◌, refl, ap, sym, ◌∙◌, arith, List, [], ◌∷◌, ◌++◌, length, take, drop, sub_size,
  length-take, length-drop,
}
use learning_tools.Net.Buffer.ReadFd.{ReadvAnswer}
use learning_tools.Net.Buffer.Invariant.{IsValid, retrieve-IsValid}
use learning_tools.Net.Buffer.Contents.{contents, append-IsValid, append-Fits}
use learning_tools.Net.Buffer.Queue.{Room, retrieve-Room}
use learning_tools.Net.Channel.{Polling, enable_writing, disable_writing}
use learning_tools.Net.TcpConnection.{
  Answer, wrote, write_error, Effect, sent, write_complete, shut_down_write, went_up, went_down,
  closed, queued_close, high_water, read_data, Connection, Run, handle_close, keep_rest,
  after_write, send_in_loop, send, shutdown, force_close, force_close_in_loop, connect_established,
  connect_destroyed, handle_write, handle_read,
}
use learning_tools.Net.TcpConnection.Stream.{
  sent_of, Silent, Continues, accepted, IsAnswer, handle_close-Silent, connect_established-Silent,
  connect_destroyed-Silent, shutdown-Silent, force_close-Silent, force_close_in_loop-Silent,
  handle_read-Silent, send-Continues, handle_write-Continues,
}

-- What can happen to a connection: its owner's calls, and the events of its channel.
pub data Event : Type 0 where
  established destroyed shuts forces forces_in_loop closes : Event
  sends : List ℕ → Answer → Event
  writable : Answer → Event
  readable : ReadvAnswer → Event

module _ (p : Polling) where
  unfoldable pub step : Event → Connection p → Run p
  step established c = connect_established p c
  step destroyed c = connect_destroyed p c
  step shuts c = shutdown p c
  step forces c = force_close p c
  step forces_in_loop c = force_close_in_loop p c
  step closes c = handle_close p c
  step (sends bytes a) c = send p c bytes a
  step (writable a) c = handle_write p c a
  step (readable a) c = handle_read p c a

  unfoldable pub accepted_by : Event → Connection p → List ℕ
  accepted_by established c = []
  accepted_by destroyed c = []
  accepted_by shuts c = []
  accepted_by forces c = []
  accepted_by forces_in_loop c = []
  accepted_by closes c = []
  accepted_by (sends bytes a) c = accepted p c bytes a
  accepted_by (writable a) c = []
  accepted_by (readable a) c = []

  unfoldable pub demand : Event → ℕ
  demand established = 0
  demand destroyed = 0
  demand shuts = 0
  demand forces = 0
  demand forces_in_loop = 0
  demand closes = 0
  demand (sends bytes a) = length bytes
  demand (writable a) = 0
  demand (readable a) = 0

  unfoldable pub IsAnswered : Event → Connection p → Type 0
  IsAnswered established c = Unit {0}
  IsAnswered destroyed c = Unit {0}
  IsAnswered shuts c = Unit {0}
  IsAnswered forces c = Unit {0}
  IsAnswered forces_in_loop c = Unit {0}
  IsAnswered closes c = Unit {0}
  IsAnswered (sends bytes a) c = IsAnswer p bytes a
  IsAnswered (writable a) c = IsAnswer p (contents c.output) a
  IsAnswered (readable a) c = Unit {0}

  -- The output buffer is well formed and has room for `n` bytes more.
  abbrev pub Ready : ℕ → Connection p → Type 0
  Ready n c = IsValid c.output × Room c.output n

  keep_rest-Ready :
      (c : Connection p) (bytes : List ℕ) (k r n : ℕ)
      → Ready (length bytes + n) c
      → Ready n (keep_rest p c bytes k r).0
  unfolding keep_rest enable_writing
  keep_rest-Ready c bytes k r n (v, (f, g)) =
      let some_of = length-take r (drop k bytes) in
      let part = length-drop k bytes in
      let rest = take r (drop k bytes) in
      let valid = append-IsValid v rest (omega (arith, some_of, part)) in
      let fits = append-Fits v rest n (omega (arith, some_of, part)) in ground (arith, valid, fits)

  send-Ready :
      (c : Connection p) (bytes : List ℕ) (a : Answer) (n : ℕ)
      → Ready (length bytes + n) c
      → Ready n (send p c bytes a).0
  unfolding send send_in_loop after_write
  send-Ready c bytes (write_error fault) n h =
      let whole = keep_rest-Ready c bytes 0 (length bytes) n h in ground (arith, whole)
  send-Ready c bytes (wrote m) n h =
      let whole = keep_rest-Ready c bytes 0 (length bytes) n h in
      let left = keep_rest-Ready c bytes m (sub_size (length bytes) m) n h in
      ground (arith, whole, left)

  handle_write-Ready :
      (c : Connection p) (a : Answer) (n : ℕ) → Ready n c → Ready n (handle_write p c a).0
  unfolding handle_write disable_writing Silent
  handle_write-Ready c (write_error fault) n (v, room) =
      let (same, _) = handle_close-Silent p c in ground (arith, same, v, room)
  handle_write-Ready c (wrote m) n (v, room) =
      let (same, _) = handle_close-Silent p c in
      let valid = retrieve-IsValid v m in
      let fits = retrieve-Room c.output m n room in ground (arith, same, v, room, valid, fits)

  -- What a step promises: the output buffer stays ready, and the bytes are in order.
  StepLaw : Event → Connection p → ℕ → Type 0
  StepLaw e c n = Ready n (step e c).0 × Continues p c (accepted_by e c) (step e c)

  silent :
      (c : Connection p) (r : Run p) (n : ℕ)
      → Ready (0 + n) c
      → Silent p c r
      → Ready n r.0 × Continues p c [] r
  unfolding Silent Continues
  silent c r n (v, room) (same, quiet) =
      (rw same (v, omega arith), rw (same, quiet) (sym (append-nil (contents c.output))))

  step_lem :
      (e : Event) (c : Connection p) (n : ℕ)
      → Ready (demand e + n) c
      → IsAnswered e c
      → StepLaw e c n
  unfolding step demand IsAnswered accepted_by StepLaw
  step_lem established c n h a = silent c _ n h (connect_established-Silent p c)
  step_lem destroyed c n h a = silent c _ n h (connect_destroyed-Silent p c)
  step_lem shuts c n h a = silent c _ n h (shutdown-Silent p c)
  step_lem forces c n h a = silent c _ n h (force_close-Silent p c)
  step_lem forces_in_loop c n h a = silent c _ n h (force_close_in_loop-Silent p c)
  step_lem closes c n h a = silent c _ n h (handle_close-Silent p c)
  step_lem (sends bytes a) c n (v, room) h =
      (send-Ready c bytes a n (v, room), send-Continues p c bytes a v (omega arith) h)
  step_lem (writable a) c n (v, room) h =
      (handle_write-Ready c a n (v, omega arith), handle_write-Continues p c a v h)
  step_lem (readable a) c n h _ = silent c _ n h (handle_read-Silent p c a)

  unfoldable pub runs : List Event → Connection p → Run p
  runs [] c = (c, [])
  runs (e ∷ es) c =
      let (c', effects) = step e c in let (c'', later) = runs es c' in (c'', effects ++ later)

  unfoldable pub all_accepted : List Event → Connection p → List ℕ
  all_accepted [] c = []
  all_accepted (e ∷ es) c = accepted_by e c ++ all_accepted es (step e c).0

  unfoldable pub demands : List Event → ℕ
  demands [] = 0
  demands (e ∷ es) = demand e + demands es

  unfoldable pub AreAnswered : List Event → Connection p → Type 0
  AreAnswered [] c = Unit {0}
  AreAnswered (e ∷ es) c = IsAnswered e c × AreAnswered es (step e c).0

  sent_of-append : (xs ys : List Effect) → sent_of (xs ++ ys) ≡ sent_of xs ++ sent_of ys
  unfolding sent_of
  sent_of-append [] ys = refl
  sent_of-append (sent bytes ∷ xs) ys =
      ap (λ t. bytes ++ t) (sent_of-append xs ys)
      ∙ sym (append_assoc bytes (sent_of xs) (sent_of ys))
  sent_of-append (write_complete ∷ xs) ys = sent_of-append xs ys
  sent_of-append (shut_down_write ∷ xs) ys = sent_of-append xs ys
  sent_of-append (went_up ∷ xs) ys = sent_of-append xs ys
  sent_of-append (went_down ∷ xs) ys = sent_of-append xs ys
  sent_of-append (closed ∷ xs) ys = sent_of-append xs ys
  sent_of-append (queued_close ∷ xs) ys = sent_of-append xs ys
  sent_of-append (high_water n ∷ xs) ys = sent_of-append xs ys
  sent_of-append (read_data bs ∷ xs) ys = sent_of-append xs ys

  -- Whatever happens to a connection, in whatever order: the bytes that the kernel took, followed by those that
  -- wait in the output buffer, are the bytes that waited before, followed by those that send accepted, in
  -- the order of the calls. The kernel takes no more than it is offered, and the bytes fit the memory.
  pub runs_in_order :
      (es : List Event) (c : Connection p)
      → Ready (demands es) c
      → AreAnswered es c
      → let (c', effects) = runs es c in
        sent_of effects ++ contents c'.output ≡ contents c.output ++ all_accepted es c
  unfolding runs all_accepted demands AreAnswered StepLaw Continues sent_of
  runs_in_order [] c h a = sym (append-nil (contents c.output))
  runs_in_order (e ∷ es) c h (ae, aes) =
      let (ready, first) = step_lem e c (demands es) h ae in
      let (c', effects) = step e c in
      let rest = runs_in_order es c' ready aes in
      let (c'', later) = runs es c' in
      let waiting = contents c''.output in
      let others = all_accepted es c' in
      ap (λ t. t ++ waiting) (sent_of-append effects later)
      ∙ append_assoc (sent_of effects) (sent_of later) waiting
      ∙ ap (λ t. sent_of effects ++ t) rest
      ∙ sym (append_assoc (sent_of effects) (contents c'.output) others)
      ∙ ap (λ t. t ++ others) first
      ∙ append_assoc (contents c.output) (accepted_by e c) others
