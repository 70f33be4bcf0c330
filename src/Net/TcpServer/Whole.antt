-- ===== src/Net/TcpServer/Whole.antt =====
-- net/TcpServer.cpp: a server from its constructor to its stop.
use mathlib.Core.Path.{subst}
use mathlib.Core.Option.{some-injective}
use learning_tools.Prelude.{
  ℕ, ◌<◌, ◌≤◌, ◌≡◌, refl, sym, ap, ◌∙◌, true, false, ltb, ◌&&◌, if◌then◌else◌, arith, List, [], ◌∷◌,
  ◌++◌, length, take, none, some,
}
use learning_tools.Net.Stream.Decimal.{digits}
use learning_tools.Net.Sockets.{SockAddr, Inet, IsInet, is_bytes}
use learning_tools.Net.InetAddress.{to_port}
use learning_tools.Net.InetAddress.Endpoints.{to_ip_port_lem, length-text}
use learning_tools.Net.EventLoopThreadPool.{Pool, created}
use learning_tools.Net.EventLoopThreadPool
use learning_tools.Net.TcpServer.{Server, Event, Task, init, start, serve, stop}
use learning_tools.Net.TcpServer.Balance.{destroyed}
use learning_tools.Net.TcpServer.Lifetime.{is_usable, all_own, serve-stop}

unfoldable pub with_text : ℕ → List ℕ → List ℕ → Server
with_text loop name hostport = record {
  loop = loop;
  hostport = hostport;
  name = name;
  pool = none;
  started = false;
  next_conn_id = 1;
  connections = [];
}

-- The pool of a new server, whatever threads come up.
new_pool : ℕ → ℕ → List ℕ → Pool
new_pool loop threads loops = record {
  base_loop = some loop;
  started = true;
  num_threads = threads;
  next = 0;
  loops = loops;
}

new_pool-usable :
    (loop threads : ℕ) (loops : List ℕ) → is_usable (new_pool loop threads loops) ≡ true
unfolding new_pool
new_pool-usable loop threads [] = refl
new_pool-usable loop threads (l ∷ ls) = ground arith

-- What is shown of a server that runs and stops.
abbrev Ends : ℕ → List ℕ → List Event → ℕ → Server → Type 0
Ends threads spawned es n s =
    (s' s'' : Server) × (tasks tasks' : List Task) × ((serve es (start threads spawned s).0
        ≡ some (s', tasks))
      × ((stop s' ≡ some (s'', tasks'))
          × (destroyed n (tasks ++ tasks') ≡ (if ltb 0 n && ltb n s'.next_conn_id then 1 else 0))))

with_text-Ends :
    (loop : ℕ) (name text : List ℕ) (threads : ℕ) (spawned : List ℕ) (es : List Event) (n : ℕ)
    → length text ≤ 21
    → all_own (start threads spawned (with_text loop name text)).0 es ≡ true
    → length es < 100000000
    → Ends threads spawned es n (with_text loop name text)
unfolding with_text new_pool start EventLoopThreadPool.start EventLoopThreadPool.init created
with_text-Ends loop name text threads spawned es n short own few =
    serve-stop (start threads spawned (with_text loop name text)).0
      (new_pool loop threads (take threads spawned)) es n short refl refl
      (new_pool-usable loop threads (take threads spawned)) refl refl own few

module _ (inet : Inet) (law : IsInet inet) where
  pub init-with_text :
      (buf : List ℕ) (loop : ℕ) (a : SockAddr) (name : List ℕ)
      → length buf ≡ 32
      → length a.addr ≡ 4
      → is_bytes a.addr ≡ true
      → to_port a < 65536
      → init inet buf loop a name
        ≡ some (with_text loop name (inet.ntop a.addr ++ 58 ∷ digits (to_port a)))
  unfolding init with_text
  init-with_text buf loop a name h four bytes small =
      rw (init, to_ip_port_lem inet law buf a h four bytes small)

  -- A server that the constructor makes for an address of four bytes and a port below 2^16, and that start starts
  -- with any number of threads: after fewer than 100,000,000 events, where every close is of a connection of
  -- this server, and a stop, no call went through a null pointer, and connectDestroyed was handed out exactly
  -- once for each connection that was accepted, and for no other.
  pub init-serve-stop :
      (buf : List ℕ) (loop : ℕ) (a : SockAddr) (name : List ℕ) (threads : ℕ) (spawned : List ℕ)
      → (es : List Event) (n : ℕ) (s : Server) → length buf ≡ 32
      → length a.addr ≡ 4
      → is_bytes a.addr ≡ true
      → to_port a < 65536
      → init inet buf loop a name ≡ some s
      → all_own (start threads spawned s).0 es ≡ true
      → length es < 100000000
      → (s' s'' : Server) × (tasks tasks' : List Task) × ((serve es (start threads spawned s).0
            ≡ some (s', tasks))
          × ((stop s' ≡ some (s'', tasks'))
              × (destroyed n (tasks ++ tasks')
                  ≡ (if ltb 0 n && ltb n s'.next_conn_id then 1 else 0))))
  init-serve-stop buf loop a name threads spawned es n s h four bytes small e own few =
      let text = inet.ntop a.addr ++ 58 ∷ digits (to_port a) in
      let made = init-with_text buf loop a name h four bytes small in
      let same = some-injective _ _ (sym e ∙ made) in
      let owns = sym (ap (λ t. all_own (start threads spawned t).0 es) same) ∙ own in
      subst (Ends threads spawned es n) (sym same) (
        with_text-Ends loop name text threads spawned es n
          (length-text inet law a.addr (to_port a) four bytes small) owns few)
