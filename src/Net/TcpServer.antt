-- ===== src/Net/TcpServer.antt =====
-- net/TcpServer.cpp: the connections of a server, over the pool of loops. A connection is known by its
-- number and its name; what is handed to the loops is a list of tasks. `none` is a call through a null
-- pointer.
pub mod Names
pub mod Balance
pub mod Lifetime
pub mod Whole
mod Tests
use learning_tools.Prelude.{
  ℕ, ◌+◌, ◌==◌, Bool, true, false, not, if◌then◌else◌, List, [], ◌∷◌, ◌++◌, take, Option, none,
  some,
}
use learning_tools.Prelude.Strings.{less}
use learning_tools.Net.Stream.Decimal.{digits}
use learning_tools.Net.EventLoopThreadPool.{Pool, created, get_next_loop}
use learning_tools.Net.EventLoopThreadPool
use learning_tools.Net.Sockets.{SockAddr, Inet}
use learning_tools.Net.InetAddress.{to_ip_port}

pub record Conn : Type 0 where
  pub id : ℕ
  pub name : List ℕ
  pub loop : ℕ

-- `connections_`; an entry without a connection is a null pointer.
abbrev pub ConnectionMap : Type 0
ConnectionMap = List (List ℕ × Option Conn)

pub record Server : Type 0 where
  pub loop : ℕ
  pub hostport : List ℕ
  pub name : List ℕ
  pub pool : Option Pool
  pub started : Bool
  pub next_conn_id : ℕ
  pub connections : ConnectionMap

-- The constructor; `buf` is what the array of `toIpPort` holds before the call.
unfoldable pub init : Inet → List ℕ → ℕ → SockAddr → List ℕ → Option Server
unfolding to_ip_port
init inet buf loop listen_addr name = elim (to_ip_port inet buf listen_addr) [
  | none ↦ none
  | some hostport ↦ some (record {
    loop = loop;
    hostport = hostport;
    name = name;
    pool = none;
    started = false;
    next_conn_id = 1;
    connections = [];
  })
]

-- What loops are given to run: `Acceptor::listen`, `connectEstablished` and `connectDestroyed`; and the
-- stop of the pool's threads.
pub data Task : Type 0 where
  listens : ℕ → Task
  stops_threads : Task
  establishes destroys : Conn → Task

-- `connections_[k] = conn`.
unfoldable pub put : List ℕ → Option Conn → ConnectionMap → ConnectionMap
unfolding less
put k v [] = (k, v) ∷ []
put k v ((k', v') ∷ m) =
    let rest = put k v m in
    if less k k' then (k, v) ∷ (k', v') ∷ m else if less k' k then (k', v') ∷ rest else (k', v) ∷ m

-- `connections_.erase(k)`, with the number of entries that went.
unfoldable pub erase : List ℕ → ConnectionMap → ℕ × ConnectionMap
unfolding less
erase k [] = (0, [])
erase k ((k', v') ∷ m) =
    let rest = erase k m in
    if less k k'
    then (0, (k', v') ∷ m)
    else if less k' k
    then (rest.0, (k', v') ∷ rest.1)
    else (1, m)

-- `spawned` is what the new threads return.
unfoldable pub start : ℕ → List ℕ → Server → Server × List Task
unfolding EventLoopThreadPool.start EventLoopThreadPool.init
start worker_thread_count spawned s =
    let pool =
      EventLoopThreadPool.start (EventLoopThreadPool.init created s.loop worker_thread_count)
        spawned in
    if s.started
    then (s, [])
    else (record s { pool = some pool; started = true }, listens s.loop ∷ [])

-- The loop of `stop`.
unfoldable pub reset_all : ConnectionMap → Option (ConnectionMap × List Task)
reset_all [] = some ([], [])
reset_all ((k, none) ∷ m) = none
reset_all ((k, some c) ∷ m) = elim (reset_all m) [
  | none ↦ none
  | some (m', tasks) ↦ some ((k, none) ∷ m', destroys c ∷ tasks)
]

unfoldable pub stop : Server → Option (Server × List Task)
unfolding reset_all
stop s = if not s.started then some (s, []) else elim (reset_all s.connections) [
  | none ↦ none
  | some (m, tasks) ↦
      some (record s { started = false; connections = m }, tasks ++ stops_threads ∷ [])
]

-- The name of a connection; `buf` has 32 bytes.
unfoldable pub conn_name : Server → ℕ → List ℕ
conn_name s id = s.name ++ take 31 (58 ∷ s.hostport ++ 35 ∷ digits id)

-- `newConnection` in the loop that the pool chose.
unfoldable pub add_connection : ℕ → Pool → Server → Server × List Task
unfolding conn_name put
add_connection io_loop pool s =
    let conn : Conn = record {
      id = s.next_conn_id;
      name = conn_name s s.next_conn_id;
      loop = io_loop;
    } in
    (
      record s {
        pool = some pool;
        next_conn_id = s.next_conn_id + 1;
        connections = put (conn_name s s.next_conn_id) (some conn) s.connections;
      },
      establishes conn ∷ [],
    )

unfoldable pub new_connection : Server → Option (Server × List Task)
unfolding add_connection get_next_loop
new_connection s = elim s.pool [
  | none ↦ none
  | some pool ↦ elim (get_next_loop pool).0 [
    | none ↦ none
    | some io_loop ↦ some (add_connection io_loop (get_next_loop pool).1 s)
  ]
]

unfoldable pub remove_connection_in_loop : Conn → Server → Server × List Task
unfolding erase
remove_connection_in_loop conn s =
    let (n, m) = erase conn.name s.connections in
    if not (n == 1)
    then (record s { connections = m }, [])
    else (record s { connections = m }, destroys conn ∷ [])

-- What happens to a started server: someone connects, or a connection closes.
pub data Event : Type 0 where
  accepts : Event
  closes : Conn → Event

unfoldable pub serve_one : Event → Server → Option (Server × List Task)
unfolding new_connection remove_connection_in_loop
serve_one accepts s = new_connection s
serve_one (closes conn) s = some (remove_connection_in_loop conn s)

unfoldable pub serve : List Event → Server → Option (Server × List Task)
unfolding serve_one
serve [] s = some (s, [])
serve (e ∷ es) s = elim (serve_one e s) [
  | none ↦ none
  | some (s', tasks) ↦ elim (serve es s') [
    | none ↦ none
    | some (s'', tasks') ↦ some (s'', tasks ++ tasks')
  ]
]
