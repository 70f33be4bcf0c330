-- ===== src/Net/TcpServer/Lifetime.antt =====
-- net/TcpServer.cpp: a server from its start to its stop.
use learning_tools.Prelude.{
  ℕ, zero, suc, ◌+◌, ◌<◌, ◌≤◌, ◌≡◌, refl, ap, arith, Bool, true, false, ◌&&◌, ltb, ◌==◌,
  if◌then◌else◌, List, [], ◌∷◌, ◌++◌, length, get_elem?, Option, none, some,
}
use learning_tools.Prelude.Strings.{less_tri}
use learning_tools.Net.EventLoopThreadPool.{Pool, get_next_loop}
use learning_tools.Net.TcpServer.{
  Conn, ConnectionMap, Server, Task, stops_threads, destroys, erase, reset_all, stop, conn_name,
  add_connection, new_connection, remove_connection_in_loop, Event, accepts, closes, serve_one,
  serve,
}
use learning_tools.Net.TcpServer.Balance.{
  destroyed, entries, same, is_named, destroyed-append, is_named-more, put-is_named, erase-is_named,
  put-entries, erase-entries, reset_all-some, is_named_nil, entries_nil,
}

-- A pool that always has a loop to give.
abbrev usable : Option ℕ → List ℕ → ℕ → Bool
usable none [] next = false
usable (some l) [] next = true
usable b (x ∷ xs) next = ltb next (length (x ∷ xs))

abbrev pub is_usable : Pool → Bool
is_usable p = p.started && usable p.base_loop p.loops p.next

get_elem?-some : (xs : List ℕ) (i : ℕ) → i < length xs → (x : ℕ) × (get_elem? xs i ≡ some x)
get_elem?-some [] i h = ground (arith, h)
get_elem?-some (x ∷ xs) zero h = (x, refl)
get_elem?-some (x ∷ xs) (suc i) h = get_elem?-some xs i (omega (arith, h))

Gives : Pool → Type 0
Gives p = (l : ℕ) × (((get_next_loop p).0 ≡ some l) × (is_usable (get_next_loop p).1 ≡ true))

next_loop :
    (b : Option ℕ) (n next : ℕ) (loops : List ℕ)
    → usable b loops next ≡ true
    → Gives (record { base_loop = b; started = true; num_threads = n; next = next; loops = loops })
unfolding Gives get_next_loop
next_loop none n next [] h = ground (arith, h)
next_loop (some l) n next [] h = (l, (refl, refl))
next_loop b n next (x ∷ xs) h =
    let (l, e) = get_elem?-some (x ∷ xs) next (ground (arith, h)) in (l, (e, ground (arith, h)))

get_next_loop-Gives : (p : Pool) → is_usable p ≡ true → Gives p
get_next_loop-Gives p h =
    let up : p.started ≡ true = ground (arith, h) in
    let ready : usable p.base_loop p.loops p.next ≡ true = ground (arith, h) in
    rw up (next_loop p.base_loop p.num_threads p.next p.loops ready)

get_next_loop-some :
    (p : Pool)
    → is_usable p ≡ true
    → (l : ℕ) × (((get_next_loop p).0 ≡ some l) × (is_usable (get_next_loop p).1 ≡ true))
unfolding Gives
get_next_loop-some p h = get_next_loop-Gives p h

-- A close of a connection of this server.
abbrev pub is_own : Server → Event → Bool
is_own t accepts = true
is_own t (closes c) = same c.name (conn_name t c.id) && ltb c.id 100000000

abbrev pub all_own : Server → List Event → Bool
all_own t [] = true
all_own t (e ∷ es) = is_own t e && all_own t es

born : ℕ → ℕ → ℕ
born n next = if ltb n next then 1 else 0

module _ (t : Server) (short : length t.hostport ≤ 21) where
  record Inv (s : Server) : Type 0 where
    name_same : s.name ≡ t.name
    hostport_same : s.hostport ≡ t.hostport
    running : s.started ≡ true
    pool : Pool
    pool_there : s.pool ≡ some pool
    pool_usable : is_usable pool ≡ true
    named : is_named t short s.next_conn_id s.connections ≡ true

  -- What a step owes the account of connection `n`.
  Balanced : ℕ → Server → Server → List Task → Type 0
  Balanced n s s' ts =
      destroyed n ts + entries n s'.connections + born n s.next_conn_id
      ≡ entries n s.connections + born n s'.next_conn_id

  conn_name_same : (s : Server) (i : ℕ) → Inv s → conn_name s i ≡ conn_name t i
  unfolding conn_name
  conn_name_same s i inv = rw (inv.name_same, inv.hostport_same)

  Steps : ℕ → Server → Option (Server × List Task) → ℕ → Type 0
  Steps n s r bound =
      (s' : Server) × (ts : List Task) × ((r ≡ some (s', ts))
        × (Inv s' × (Balanced n s s' ts × (s'.next_conn_id ≤ bound))))

  new_connection-chosen :
      (s : Server) (p : Pool) (l : ℕ)
      → s.pool ≡ some p
      → (get_next_loop p).0 ≡ some l
      → new_connection s ≡ some (add_connection l (get_next_loop p).1 s)
  unfolding new_connection
  new_connection-chosen s p l e g = rw (new_connection, e, g)

  add_connection-Steps :
      (n l : ℕ) (p : Pool) (s : Server)
      → Inv s
      → is_usable p ≡ true
      → s.next_conn_id < 100000000
      → Steps n s (some (add_connection l p s)) (s.next_conn_id + 1)
  unfolding Steps Balanced born add_connection
  add_connection-Steps n l p s inv u h =
      let name = conn_name_same s s.next_conn_id inv in
      let conn : Conn = record {
        id = s.next_conn_id;
        name = conn_name t s.next_conn_id;
        loop = l;
      } in
      let named =
        put-is_named t short (s.next_conn_id + 1) conn s.connections (omega arith)
          (is_named-more t short s.next_conn_id s.connections inv.named) in
      let counted = put-entries t short n s.next_conn_id conn s.connections h refl inv.named in
      (
        _,
        _,
        (
          refl,
          (
            record {
              name_same = inv.name_same;
              hostport_same = inv.hostport_same;
              running = inv.running;
              pool = p;
              pool_there = refl;
              pool_usable = u;
              named = rw name named;
            },
            (rw name (ground (arith, counted)), omega arith),
          ),
        ),
      )

  remove_connection_lem :
      (c : Conn) (s : Server)
      → remove_connection_in_loop c s ≡ (
        record s { connections = (erase c.name s.connections).1 },
        if (erase c.name s.connections).0 == 1 then destroys c ∷ [] else [],
      )
  unfolding remove_connection_in_loop
  remove_connection_lem c s = ground arith

  remove-Steps :
      (n : ℕ) (c : Conn) (s : Server)
      → Inv s
      → s.next_conn_id ≤ 100000000
      → is_own t (closes c) ≡ true
      → Steps n s (some (remove_connection_in_loop c s)) (s.next_conn_id + 1)
  unfolding Steps Balanced born
  remove-Steps n c s inv h own =
      let name : c.name ≡ conn_name t c.id =
        less_tri c.name (conn_name t c.id) (ground (arith, own)) (ground (arith, own)) in
      let named = erase-is_named t short s.next_conn_id c.name s.connections inv.named in
      let counted : entries n (erase c.name s.connections).1
            + (if ((erase c.name s.connections).0 == 1) && (c.id == n) then 1 else 0)
          ≡ entries n s.connections =
        rw name (
          erase-entries t short n c.id s.next_conn_id s.connections h (ground (arith, own))
            inv.named) in
      (
        _,
        _,
        (
          ap some (remove_connection_lem c s),
          (
            record {
              name_same = inv.name_same;
              hostport_same = inv.hostport_same;
              running = inv.running;
              pool = inv.pool;
              pool_there = inv.pool_there;
              pool_usable = inv.pool_usable;
              named = named;
            },
            (ground (arith, counted), omega arith),
          ),
        ),
      )

  serve_one-Steps :
      (n : ℕ) (e : Event) (s : Server)
      → Inv s
      → s.next_conn_id < 100000000
      → is_own t e ≡ true
      → Steps n s (serve_one e s) (s.next_conn_id + 1)
  unfolding serve_one Steps
  serve_one-Steps n accepts s inv h own =
      let (l, (e, u)) = get_next_loop-some inv.pool inv.pool_usable in
      rw (new_connection-chosen s inv.pool l inv.pool_there e)
        (add_connection-Steps n l (get_next_loop inv.pool).1 s inv u h)
  serve_one-Steps n (closes c) s inv h own = remove-Steps n c s inv (omega (arith, h)) own

  serve-Steps :
      (n : ℕ) (es : List Event) (s : Server)
      → Inv s
      → s.next_conn_id + length es ≤ 100000000
      → all_own t es ≡ true
      → Steps n s (serve es s) (s.next_conn_id + length es)
  unfolding serve Steps Balanced
  serve-Steps n [] s inv h own = (s, [], (refl, (inv, (omega arith, omega arith))))
  serve-Steps n (e ∷ es) s inv h own =
      let (s', ts, (r, (inv', (b, small)))) =
        serve_one-Steps n e s inv (omega (arith, h)) (ground (arith, own)) in
      let (s'', ts', (r', (inv'', (b', small')))) =
        serve-Steps n es s' inv' (omega (arith, h, small)) (ground (arith, own)) in
      let both = destroyed-append n ts ts' in
      (
        s'',
        ts ++ ts',
        (rw (serve, r, r'), (inv'', (omega (arith, b, b', both), omega (arith, small, small')))),
      )

stop_running :
    (s : Server) (m : ConnectionMap) (ts : List Task)
    → s.started ≡ true
    → reset_all s.connections ≡ some (m, ts)
    → stop s ≡ some (record s { started = false; connections = m }, ts ++ stops_threads ∷ [])
unfolding stop
stop_running s m ts up e = ground (arith, up, e)

stop-destroys :
    (t : Server) (short : length t.hostport ≤ 21) (n : ℕ) (s : Server)
    → Inv t short s
    → (s' : Server) × (ts : List Task) × ((stop s ≡ some (s', ts))
        × (destroyed n ts ≡ entries n s.connections))
stop-destroys t short n s inv =
    let (m, ts, (e, d)) = reset_all-some t short n s.next_conn_id s.connections inv.named in
    let more = destroyed-append n ts (stops_threads ∷ []) in
    (
      record s { started = false; connections = m },
      ts ++ stops_threads ∷ [],
      (stop_running s m ts inv.running e, omega (arith, more, d)),
    )

-- A server that was started, with a pool that has a loop, an address text of at most 21 characters and
-- no connection yet, serves any sequence of fewer than 10^8 arrivals and closes of its connections,
-- repeated and late closes included, and stops, without a call through a null pointer. Each
-- connection that was accepted is then destroyed exactly once, and no other is.
pub serve-stop :
    (s : Server) (p : Pool) (es : List Event) (n : ℕ)
    → length s.hostport ≤ 21
    → s.started ≡ true
    → s.pool ≡ some p
    → is_usable p ≡ true
    → s.connections ≡ []
    → s.next_conn_id ≡ 1
    → all_own s es ≡ true
    → length es < 100000000
    → (s' s'' : Server) × (tasks tasks' : List Task) × ((serve es s ≡ some (s', tasks))
        × ((stop s' ≡ some (s'', tasks'))
            × (destroyed n (tasks ++ tasks')
                ≡ (if ltb 0 n && ltb n s'.next_conn_id then 1 else 0))))
unfolding Steps Balanced born
serve-stop s p es n short up there u empty first own few =
    let inv : Inv s short s = record {
      name_same = refl;
      hostport_same = refl;
      running = up;
      pool = p;
      pool_there = there;
      pool_usable = u;
      named = is_named_nil s short s.next_conn_id s.connections empty;
    } in
    let (s', tasks, (e, (inv', (b, small)))) =
      serve-Steps s short n es s inv (omega (arith, first, few)) own in
    let (s'', tasks', (g, d)) = stop-destroys s short n s' inv' in
    let both = destroyed-append n tasks tasks' in
    let none_yet = entries_nil n s.connections empty in
    (s', s'', tasks, tasks', (e, (g, ground (arith, b, d, both, none_yet, first))))
