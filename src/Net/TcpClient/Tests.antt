-- ===== src/Net/TcpClient/Tests.antt =====
-- A client of net/TcpClient.cpp that connects, closes, and connects again.
use learning_tools.Prelude.{
  ◌+◌, ◌≡◌, refl, true, false, ltb, ◌&&◌, if◌then◌else◌, [], ◌∷◌, none, some,
}
use learning_tools.Net.Connector.{Connector, in_progress}
use learning_tools.Net.Connector
use learning_tools.Net.TcpClient.{
  Client, created, establishes, destroys, new_connection, take_sockets, connector_did, connect,
  remove_connection, enable_retry, connects, enables_retry, writes, closes, did, serve_one,
}
use learning_tools.Net.TcpClient.Quiet.{destroyed, established, held}
use learning_tools.Net.TcpClient.Lifetime.{Reach, start, next, Reach-once}

-- Retries are switched on, and socket 4 comes up; its connection closes, and socket 5 is tried.
abbrev connecting_4 : Client
connecting_4 = record created {
  retries = true;
  connector = record { wants = true; state = Connector.connecting; channel = some 4 };
}

abbrev up : Client
up = record connecting_4 {
  connector = record { wants = true; state = Connector.connected; channel = some 4 };
  next_conn_id = 2;
  connection = some 1;
}

abbrev connecting_5 : Client
connecting_5 = record up {
  connector = record { wants = true; state = Connector.connecting; channel = some 5 };
  connection = none;
}

connecting_5-Reach : Reach connecting_5 (establishes 1 4 ∷ destroys 1 ∷ [])
unfolding serve_one connect connector_did take_sockets enable_retry did new_connection
    remove_connection Connector.init Connector.start Connector.start_in_loop Connector.connect
    Connector.start_connecting Connector.handle_write Connector.hand_over Connector.restart
connecting_5-Reach =
    next (closes 1 5 in_progress)
      (next (writes false false)
        (next (connects 4 in_progress) (next enables_retry start refl refl) refl refl) refl refl)
      refl refl

Reach-once_example :
    (established 1 (establishes 1 4 ∷ destroys 1 ∷ [])
      ≡ (if ltb 0 1 && ltb 1 connecting_5.next_conn_id then 1 else 0))
    × (established 1 (establishes 1 4 ∷ destroys 1 ∷ [])
        ≡ destroyed 1 (establishes 1 4 ∷ destroys 1 ∷ []) + held 1 connecting_5.connection)
Reach-once_example = Reach-once 1 connecting_5-Reach

-- Without retries, a client whose connection has closed does not connect again: the connector still
-- counts as connected.
abbrev left_alone : Client
left_alone = record up { retries = false; connection = none }

connect_again : connect 6 in_progress left_alone ≡ (left_alone, [])
unfolding connect connector_did take_sockets Connector.start Connector.start_in_loop
connect_again = refl

closes_once :
    remove_connection 1 5 in_progress (record up { retries = false })
    ≡ (left_alone, destroys 1 ∷ [])
unfolding remove_connection
closes_once = refl
