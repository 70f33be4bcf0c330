-- ===== src/Net/TcpClient.antt =====
-- net/TcpClient.cpp: the one connection of a client, over the model of its Connector, in the thread of
-- the loop. A connection is its number; what is asked of connections is a list of tasks. `none` is a
-- call through the null channel of the connector.
pub mod Quiet
pub mod Lifetime
mod Tests
use learning_tools.Prelude.{
  ℕ, ◌+◌, ◌==◌, Bool, true, false, not, ◌&&◌, if◌then◌else◌, List, [], ◌∷◌, ◌++◌, Option, none,
  some,
}
use learning_tools.Net.Connector.{
  Connector, Outcome, Effect, opened, shut, handed, queued_reset, queued_stop,
}
use learning_tools.Net.Connector

-- The members; `connects` is `connect_`, and `retries` is `retry_`.
pub record Client : Type 0 where
  pub connector : Connector
  pub retries : Bool
  pub connects : Bool
  pub next_conn_id : ℕ
  pub connection : Option ℕ

abbrev pub created : Client
created = record {
  connector = Connector.init;
  retries = false;
  connects = true;
  next_conn_id = 1;
  connection = none;
}

-- `connectEstablished` of the connection with the socket, `connectDestroyed`, and `shutdown`.
pub data Task : Type 0 where
  establishes : ℕ → ℕ → Task
  destroys shuts : ℕ → Task

abbrev pub Run : Type 0
Run = Client × List Task

unfoldable pub new_connection : ℕ → Client → Run
new_connection sockfd s = (
  record s { next_conn_id = s.next_conn_id + 1; connection = some s.next_conn_id },
  establishes s.next_conn_id sockfd ∷ [],
)

-- The connector hands its sockets to `newConnection` at once.
unfoldable pub take_sockets : List Effect → Client → Run
unfolding new_connection
take_sockets [] s = (s, [])
take_sockets (opened fd ∷ es) s = take_sockets es s
take_sockets (shut fd ∷ es) s = take_sockets es s
take_sockets (queued_reset ∷ es) s = take_sockets es s
take_sockets (queued_stop ∷ es) s = take_sockets es s
take_sockets (handed fd ∷ es) s =
    let rest = take_sockets es (new_connection fd s).0 in
    (rest.0, (new_connection fd s).1 ++ rest.1)

-- A call of the connector.
unfoldable pub connector_did : Connector.Run → Client → Run
unfolding take_sockets
connector_did run s = take_sockets run.1 (record s { connector = run.0 })

-- `fd` and `outcome` are the next socket and what becomes of its connect(2).
unfoldable pub connect : ℕ → Outcome → Client → Run
unfolding connector_did Connector.start
connect fd outcome s =
    connector_did (Connector.start s.connector fd outcome) (record s { connects = true })

abbrev shut_task : Option ℕ → List Task
shut_task none = []
shut_task (some id) = shuts id ∷ []

unfoldable pub disconnect : Client → Run
disconnect s = (record s { connects = false }, shut_task s.connection)

unfoldable pub stop : Client → Run
unfolding connector_did Connector.stop
stop s = connector_did (Connector.stop s.connector) (record s { connects = false })

unfoldable pub enable_retry : Client → Client
enable_retry s = record s { retries = true }

abbrev pub is_current : ℕ → Option ℕ → Bool
is_current id none = false
is_current id (some c) = c == id

unfoldable pub remove_connection : ℕ → ℕ → Outcome → Client → Run
unfolding connector_did Connector.restart
remove_connection id fd outcome s =
    let gone = record s { connection = none } in
    let again = connector_did (Connector.restart s.connector fd outcome) gone in
    if not (is_current id s.connection)
    then (s, [])
    else if s.retries && s.connects
    then (again.0, destroys id ∷ again.1)
    else (gone, destroys id ∷ [])

-- The calls of the client's owner, of the connector's loop, and of a connection that closes.
pub data Event : Type 0 where
  connects : ℕ → Outcome → Event
  disconnects stops enables_retry stops_in_loop errors resets : Event
  writes : Bool → Bool → Event
  closes : ℕ → ℕ → Outcome → Event

pub did : Option Connector.Run → Client → Option Run
unfolding connector_did
did none s = none
did (some run) s = some (connector_did run s)

unfoldable pub serve_one : Event → Client → Option Run
unfolding connect disconnect stop enable_retry remove_connection did Connector.stop_in_loop
    Connector.handle_error Connector.handle_write Connector.reset_channel
serve_one (connects fd outcome) s = some (connect fd outcome s)
serve_one disconnects s = some (disconnect s)
serve_one stops s = some (stop s)
serve_one enables_retry s = some (enable_retry s, [])
serve_one stops_in_loop s = did (Connector.stop_in_loop s.connector) s
serve_one errors s = did (Connector.handle_error s.connector) s
serve_one resets s = did (some (Connector.reset_channel s.connector)) s
serve_one (writes err self) s = did (Connector.handle_write s.connector err self) s
serve_one (closes id fd outcome) s = some (remove_connection id fd outcome s)
