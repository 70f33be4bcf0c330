-- ===== src/Net/TcpClient/Quiet.antt =====
-- net/TcpClient.cpp: what the calls of the connector and of a closing connection do to the account of
-- the connections.
use learning_tools.Prelude.{
  ℕ, ◌+◌, ◌≡◌, refl, sym, ap, ◌∙◌, arith, Bool, true, false, Bool-cases, ◌&&◌, ◌||◌, ltb, ◌==◌, not,
  if◌then◌else◌, List, [], ◌∷◌, Option, inl, inr, none, some,
}
use learning_tools.Net.Connector.{
  Connector, State, disconnected, connecting, connected, is_connecting, is_disconnected, Outcome,
  in_progress, temporary, fatal, Effect, opened, shut, handed, queued_reset, queued_stop,
}
use learning_tools.Net.Connector
use learning_tools.Net.TcpClient.{
  Client, Task, establishes, destroys, shuts, Run, new_connection, take_sockets, connector_did,
  remove_connection, did,
}

abbrev pub destroyed : ℕ → List Task → ℕ
destroyed n [] = 0
destroyed n (establishes id fd ∷ ts) = destroyed n ts
destroyed n (destroys id ∷ ts) = (if id == n then 1 else 0) + destroyed n ts
destroyed n (shuts id ∷ ts) = destroyed n ts

abbrev pub established : ℕ → List Task → ℕ
established n [] = 0
established n (establishes id fd ∷ ts) = (if id == n then 1 else 0) + established n ts
established n (destroys id ∷ ts) = established n ts
established n (shuts id ∷ ts) = established n ts

-- Whether the connection is the client's.
abbrev pub held : ℕ → Option ℕ → ℕ
held n none = 0
held n (some id) = if id == n then 1 else 0

abbrev is_connected : State → Bool
is_connected disconnected = false
is_connected connecting = false
is_connected connected = true

abbrev has_connection : Option ℕ → Bool
has_connection none = false
has_connection (some id) = true

-- With a connection, the connector is connected: it has no socket to hand over.
abbrev pub is_single : Client → Bool
is_single s = not (has_connection s.connection) || is_connected s.connector.state

-- Whether the number was given out.
abbrev born : ℕ → ℕ → ℕ
born n next = if ltb n next then 1 else 0

abbrev pub Kept : ℕ → Client → Run → Type 0
Kept n s r =
    (is_single r.0 ≡ true)
    × ((established n r.1 + held n s.connection ≡ destroyed n r.1 + held n r.0.connection)
        × (born n s.next_conn_id + established n r.1 ≡ born n r.0.next_conn_id))

-- Effects of a connector that hands nothing over.
abbrev hands : List Effect → Bool
hands [] = false
hands (opened fd ∷ es) = hands es
hands (shut fd ∷ es) = hands es
hands (queued_reset ∷ es) = hands es
hands (queued_stop ∷ es) = hands es
hands (handed fd ∷ es) = true

take_sockets_none : (es : List Effect) (s : Client) → hands es ≡ false → take_sockets es s ≡ (s, [])
unfolding take_sockets
take_sockets_none [] s h = refl
take_sockets_none (opened fd ∷ es) s h = take_sockets_none es s h
take_sockets_none (shut fd ∷ es) s h = take_sockets_none es s h
take_sockets_none (queued_reset ∷ es) s h = take_sockets_none es s h
take_sockets_none (queued_stop ∷ es) s h = take_sockets_none es s h
take_sockets_none (handed fd ∷ es) s h = ground (arith, h)

-- A run that hands nothing over and leaves a connected connector connected.
abbrev pub is_quiet : Connector → Connector.Run → Bool
is_quiet c r = not (hands r.1) && (not (is_connected c.state) || is_connected r.0.state)

connector_did_quiet :
    (n : ℕ) (r : Connector.Run) (s : Client)
    → is_quiet s.connector r ≡ true
    → is_single s ≡ true
    → Kept n s (connector_did r s)
unfolding connector_did
connector_did_quiet n r s q h =
    let same = take_sockets_none r.1 (record s { connector = r.0 }) (ground (arith, q)) in
    rw same (ground (arith, q, h), (refl, omega arith))

pub start-is_quiet :
    (c : Connector) (fd : ℕ) (o : Outcome) → is_quiet c (Connector.start c fd o) ≡ true
unfolding Connector.start Connector.start_in_loop Connector.connect Connector.retry
    Connector.start_connecting
start-is_quiet c fd in_progress = ground arith
start-is_quiet c fd temporary = ground arith
start-is_quiet c fd fatal = ground arith

restart-hands : (c : Connector) (fd : ℕ) (o : Outcome) → hands (Connector.restart c fd o).1 ≡ false
unfolding Connector.restart Connector.start_in_loop Connector.connect Connector.retry
    Connector.start_connecting
restart-hands c fd in_progress = ground arith
restart-hands c fd temporary = ground arith
restart-hands c fd fatal = ground arith

pub did_quiet :
    (n : ℕ) (o : Option Connector.Run) (s : Client) (r : Run)
    → did o s ≡ some r
    → ((run : Connector.Run) → o ≡ some run → is_quiet s.connector run ≡ true)
    → is_single s ≡ true
    → Kept n s r
unfolding did
did_quiet n none s r e q h = ground (arith, e)
did_quiet n (some run) s r e q h =
    let kept = connector_did_quiet n run s (q run refl) h in
    (ground (arith, kept.0, e), (ground (arith, kept.1.0, e), ground (arith, kept.1.1, e)))

retry_channel-is_quiet :
    (c : Connector) (ch : Option ℕ) (run : Connector.Run)
    → is_connecting c.state ≡ true
    → Connector.retry_channel c ch ≡ some run
    → is_quiet c run ≡ true
unfolding Connector.retry_channel Connector.retry
retry_channel-is_quiet c none run h e = ground (arith, e)
retry_channel-is_quiet c (some fd) run h e = ground (arith, h, e)

pub stop_in_loop-is_quiet :
    (c : Connector) (run : Connector.Run)
    → Connector.stop_in_loop c ≡ some run
    → is_quiet c run ≡ true
unfolding Connector.stop_in_loop
stop_in_loop-is_quiet c run e =
    let again = retry_channel-is_quiet c c.channel run in ground (arith, again, e)

pub handle_error-is_quiet :
    (c : Connector) (run : Connector.Run)
    → Connector.handle_error c ≡ some run
    → is_quiet c run ≡ true
unfolding Connector.handle_error
handle_error-is_quiet c run e =
    let again = retry_channel-is_quiet c c.channel run in ground (arith, again, e)

-- Whether `handleWrite` comes to hand the socket over.
abbrev is_handing : Connector → Bool → Bool → Bool
is_handing c err self = is_connecting c.state && not (err || self) && c.wants

hand_over-is_quiet :
    (c : Connector) (ch : Option ℕ) (run : Connector.Run)
    → c.wants ≡ false
    → Connector.hand_over c ch ≡ some run
    → is_quiet c run ≡ true
unfolding Connector.hand_over
hand_over-is_quiet c none run h e = ground (arith, e)
hand_over-is_quiet c (some fd) run h e = ground (arith, h, e)

handle_write-is_quiet :
    (c : Connector) (err self : Bool) (run : Connector.Run)
    → is_handing c err self ≡ false
    → Connector.handle_write c err self ≡ some run
    → is_quiet c run ≡ true
unfolding Connector.handle_write
handle_write-is_quiet c err self run h e =
    let again = retry_channel-is_quiet c c.channel run in
    let over = hand_over-is_quiet c c.channel run in ground (arith, again, over, h, e)

held_none : (n : ℕ) (o : Option ℕ) → has_connection o ≡ false → held n o ≡ 0
held_none n none h = refl
held_none n (some id) h = ground (arith, h)

hand_over-Kept :
    (n : ℕ) (ch : Option ℕ) (s : Client) (r : Run)
    → is_connecting s.connector.state ≡ true
    → s.connector.wants ≡ true
    → is_single s ≡ true
    → did (Connector.hand_over s.connector ch) s ≡ some r
    → Kept n s r
unfolding Connector.hand_over did connector_did take_sockets new_connection
hand_over-Kept n none s r c w h e = ground (arith, e)
hand_over-Kept n (some fd) s r c w h e =
    let free = held_none n s.connection in
    (ground (arith, e), (ground (arith, e, c, w, h, free), ground (arith, e, c, w)))

pub handle_write-Kept :
    (n : ℕ) (err self : Bool) (s : Client) (r : Run)
    → is_single s ≡ true
    → did (Connector.handle_write s.connector err self) s ≡ some r
    → Kept n s r
unfolding Connector.handle_write
handle_write-Kept n err self s r h e = elim (Bool-cases (is_handing s.connector err self)) [
  | inr quiet ↦
      did_quiet n (Connector.handle_write s.connector err self) s r e
        (λ run g. handle_write-is_quiet s.connector err self run quiet g) h
  | inl over_now ↦
      let over : Connector.handle_write s.connector err self
          ≡ Connector.hand_over s.connector s.connector.channel =
        ground (arith, over_now) in
      hand_over-Kept n s.connector.channel s r (ground (arith, over_now)) (ground (arith, over_now))
        h (ap (λ o. did o s) (sym over) ∙ e)
]

pub remove_connection-Kept :
    (n id fd : ℕ) (o : Outcome) (s : Client)
    → is_single s ≡ true
    → Kept n s (remove_connection id fd o s)
unfolding remove_connection connector_did
remove_connection-Kept n id fd o s h =
    let again =
      take_sockets_none (Connector.restart s.connector fd o).1
        (record s { connection = none; connector = (Connector.restart s.connector fd o).0 })
        (restart-hands s.connector fd o) in
    (ground (arith, again, h), (ground (arith, again, h), ground (arith, again)))
