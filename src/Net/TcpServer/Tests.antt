-- ===== src/Net/TcpServer/Tests.antt =====
-- A server of net/TcpServer.cpp with two loops, three connections and a close that comes twice.
use learning_tools.Prelude.{
  ◌≡◌, refl, arith, true, false, ltb, ◌&&◌, if◌then◌else◌, List, [], ◌∷◌, ◌++◌, replicate, none,
  some,
}
use learning_tools.Net.Stream.Decimal.{digits}
use learning_tools.Prelude.Strings.{less}
use learning_tools.Net.EventLoopThreadPool.{Pool, created, get_next_loop}
use learning_tools.Net.EventLoopThreadPool
use learning_tools.Net.TcpServer.{
  Conn, Server, Task, listens, stops_threads, destroys, reset_all, start, stop, conn_name, Event,
  accepts, closes, serve,
}
use learning_tools.Net.TcpServer.Balance.{destroyed}
use learning_tools.Net.TcpServer.Whole.{with_text, init-with_text, init-serve-stop}
use learning_tools.Net.Endian.{read_bytes, network_to_host}
use learning_tools.Net.Sockets.{SockAddr}
use learning_tools.Net.InetAddress.{to_port}
use learning_tools.Net.InetAddress.Dotted.{dotted, dotted_inet, dotted_inet-IsInet}

abbrev two_loops : Pool
two_loops = record {
  base_loop = some 9;
  started = true;
  num_threads = 2;
  next = 0;
  loops = 5 ∷ 6 ∷ [];
}

abbrev idle : Server
idle = record {
  loop = 9;
  hostport = 49 ∷ 58 ∷ 56 ∷ 48 ∷ [];
  name = 115 ∷ [];
  pool = none;
  started = false;
  next_conn_id = 1;
  connections = [];
}

abbrev running : Server
running = record idle { pool = some two_loops; started = true }

start_example : start 2 (5 ∷ 6 ∷ []) idle ≡ (running, listens 9 ∷ [])
unfolding start EventLoopThreadPool.start EventLoopThreadPool.init created
start_example = refl

-- The server of 1.2.3.4:80 has connections named like this one.
abbrev first_conn : Conn
first_conn = record {
  id = 1;
  name = 115 ∷ 58 ∷ 49 ∷ 46 ∷ 50 ∷ 46 ∷ 51 ∷ 46 ∷ 52 ∷ 58 ∷ 56 ∷ 48 ∷ 35 ∷ 49 ∷ [];
  loop = 5;
}

abbrev busy_day : List Event
busy_day = accepts ∷ accepts ∷ closes first_conn ∷ closes first_conn ∷ accepts ∷ []

abbrev here : SockAddr
here = record { family = 2; port = 0 ∷ 80 ∷ []; addr = 1 ∷ 2 ∷ 3 ∷ 4 ∷ [] }

here_port : to_port here ≡ 80
unfolding to_port network_to_host read_bytes
here_port = refl

abbrev server : Server
server = with_text 9 (115 ∷ []) (dotted_inet.ntop here.addr ++ 58 ∷ digits (to_port here))

abbrev up : Server
up = (start 2 (5 ∷ 6 ∷ []) server).0

init-serve-stop_example :
    (s' s'' : Server) × (tasks tasks' : List Task) × ((serve busy_day up ≡ some (s', tasks))
      × ((stop s' ≡ some (s'', tasks'))
          × (destroyed 1 (tasks ++ tasks') ≡ (if ltb 0 1 && ltb 1 s'.next_conn_id then 1 else 0))))
unfolding conn_name digits less with_text dotted_inet dotted to_port network_to_host read_bytes
    start EventLoopThreadPool.start EventLoopThreadPool.init created
init-serve-stop_example =
    init-serve-stop dotted_inet dotted_inet-IsInet (replicate 32 205) 9 here (115 ∷ []) 2
      (5 ∷ 6 ∷ []) busy_day 1 server refl refl refl (omega (arith, here_port))
      (init-with_text dotted_inet dotted_inet-IsInet (replicate 32 205) 9 here (115 ∷ []) refl refl
        refl (omega (arith, here_port)))
      refl (omega arith)

-- The entries that `stop` leaves are null pointers, which the next `stop` calls through.
stop_twice : stop (record running { connections = (first_conn.name, none) ∷ [] }) ≡ none
unfolding stop reset_all
stop_twice = refl

stop_example :
    stop (record running { connections = (first_conn.name, some first_conn) ∷ [] })
    ≡ some (
      record running { started = false; connections = (first_conn.name, none) ∷ [] },
      destroys first_conn ∷ stops_threads ∷ [],
    )
unfolding stop reset_all
stop_example = refl
