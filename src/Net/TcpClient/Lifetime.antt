-- ===== src/Net/TcpClient/Lifetime.antt =====
-- net/TcpClient.cpp: a client has one connection at a time, and destroys each once.
use learning_tools.Prelude.{
  ℕ, ◌+◌, ◌<◌, ◌≡◌, refl, arith, true, false, ◌&&◌, ltb, if◌then◌else◌, List, [], ◌∷◌, ◌++◌, Option,
  none, some,
}
use learning_tools.Net.Connector.{
  Connector, State, disconnected, connecting, connected, is_connecting, is_disconnected, Outcome,
  in_progress, temporary, fatal, Effect, opened, shut, handed, queued_reset, queued_stop,
}
use learning_tools.Net.Connector
use learning_tools.Net.TcpClient.{
  Client, created, Task, establishes, destroys, shuts, Run, connect, shut_task, disconnect, stop,
  enable_retry, Event, connects, disconnects, stops, enables_retry, stops_in_loop, errors, resets,
  writes, closes, serve_one,
}
use learning_tools.Net.TcpClient.Quiet.{
  destroyed, established, held, is_single, Kept, is_quiet, start-is_quiet, did_quiet,
  stop_in_loop-is_quiet, handle_error-is_quiet, handle_write-Kept, remove_connection-Kept,
}

quiet_same :
    (c : Connector) (r run : Connector.Run)
    → some r ≡ some run
    → is_quiet c r ≡ true
    → is_quiet c run ≡ true
quiet_same c r run g q = ground (arith, g, q)

stop-is_quiet : (c : Connector) → is_quiet c (Connector.stop c) ≡ true
unfolding Connector.stop
stop-is_quiet c = ground arith

reset-is_quiet : (c : Connector) → is_quiet c (Connector.reset_channel c) ≡ true
unfolding Connector.reset_channel
reset-is_quiet c = ground arith

shut_task_none :
    (n : ℕ) (o : Option ℕ) → (established n (shut_task o) ≡ 0) × (destroyed n (shut_task o) ≡ 0)
shut_task_none n none = (refl, refl)
shut_task_none n (some id) = (refl, refl)

serve_one-Kept :
    (n : ℕ) (e : Event) (s : Client) (r : Run)
    → serve_one e s ≡ some r
    → is_single s ≡ true
    → Kept n s r
unfolding serve_one connect disconnect stop enable_retry
serve_one-Kept n (connects fd outcome) s r e h =
    let start = Connector.start s.connector fd outcome in
    did_quiet n (some start) (record s { connects = true }) r e
      (λ run g. quiet_same s.connector start run g (start-is_quiet s.connector fd outcome)) h
serve_one-Kept n disconnects s r e h =
    let none_up = shut_task_none n s.connection in
    (ground (arith, e, h), (ground (arith, e, none_up), ground (arith, e, none_up)))
serve_one-Kept n stops s r e h =
    did_quiet n (some (Connector.stop s.connector)) (record s { connects = false }) r e
      (λ run g.
        quiet_same s.connector (Connector.stop s.connector) run g (stop-is_quiet s.connector))
      h
serve_one-Kept n enables_retry s r e h =
    (ground (arith, e, h), (ground (arith, e), ground (arith, e)))
serve_one-Kept n stops_in_loop s r e h =
    did_quiet n (Connector.stop_in_loop s.connector) s r e (stop_in_loop-is_quiet s.connector) h
serve_one-Kept n errors s r e h =
    did_quiet n (Connector.handle_error s.connector) s r e (handle_error-is_quiet s.connector) h
serve_one-Kept n resets s r e h =
    did_quiet n (some (Connector.reset_channel s.connector)) s r e
      (λ run g.
        quiet_same s.connector (Connector.reset_channel s.connector) run g
          (reset-is_quiet s.connector))
      h
serve_one-Kept n (writes err self) s r e h = handle_write-Kept n err self s r h e
serve_one-Kept n (closes id fd outcome) s r e h =
    let kept = remove_connection-Kept n id fd outcome s h in
    (ground (arith, e, kept.0), (ground (arith, e, kept.1.0), ground (arith, e, kept.1.1)))

established-append :
    (n : ℕ) (xs ys : List Task) → established n (xs ++ ys) ≡ established n xs + established n ys
established-append n [] ys = omega arith
established-append n (establishes id fd ∷ xs) ys = omega (arith, established-append n xs ys)
established-append n (destroys id ∷ xs) ys = established-append n xs ys
established-append n (shuts id ∷ xs) ys = established-append n xs ys

destroyed-append :
    (n : ℕ) (xs ys : List Task) → destroyed n (xs ++ ys) ≡ destroyed n xs + destroyed n ys
destroyed-append n [] ys = omega arith
destroyed-append n (establishes id fd ∷ xs) ys = destroyed-append n xs ys
destroyed-append n (destroys id ∷ xs) ys = omega (arith, destroyed-append n xs ys)
destroyed-append n (shuts id ∷ xs) ys = destroyed-append n xs ys

-- The states of a client, with all tasks so far, as long as no call goes through a null pointer.
pub data Reach : Client → List Task → Type 0 where
  start : Reach created []
  next :
      {s s' : Client} {tasks tasks' all : List Task} (e : Event)
      → Reach s tasks
      → serve_one e s ≡ some (s', tasks')
      → all ≡ tasks ++ tasks'
      → Reach s' all

Reach-is_single : {s : Client} {tasks : List Task} → Reach s tasks → is_single s ≡ true
unfolding Connector.init
Reach-is_single start = refl
Reach-is_single (next {s' = s'} {tasks' = tasks'} e r g h) =
    (serve_one-Kept 0 e _ (s', tasks') g (Reach-is_single r)).0

Reach-next_pos : {s : Client} {tasks : List Task} → Reach s tasks → 0 < s.next_conn_id
Reach-next_pos start = omega arith
Reach-next_pos (next {s' = s'} {tasks' = tasks'} e r g h) =
    let pos = Reach-next_pos r in
    let kept = (serve_one-Kept 0 e _ (s', tasks') g (Reach-is_single r)).1.1 in
    ground (arith, pos, kept)

-- Whatever the owner, the connector's loop and the connections do, as long as no call goes through the
-- connector's null channel: each connection that the client made was established once, under a number
-- of its own, and has been destroyed once, except the one that the client holds. So a new connection
-- never takes the place of an old one that is still up.
pub Reach-once :
    {s : Client} {tasks : List Task} (n : ℕ)
    → Reach s tasks
    → (established n tasks ≡ (if ltb 0 n && ltb n s.next_conn_id then 1 else 0))
      × (established n tasks ≡ destroyed n tasks + held n s.connection)
Reach-once n start = (ground arith, refl)
Reach-once n (next {s' = s'} {tasks = tasks} {tasks' = tasks'} e r g h) =
    let ih = Reach-once n r in
    let kept = serve_one-Kept n e _ (s', tasks') g (Reach-is_single r) in
    let more = established-append n tasks tasks' in
    let gone = destroyed-append n tasks tasks' in
    let pos = Reach-next_pos r in
    rw h (ground (arith, ih, kept, more, pos), ground (arith, ih, kept, more, gone))
