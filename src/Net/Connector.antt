-- ===== src/Net/Connector.antt =====
-- net/Connector.cpp, in the thread of its loop. A socket is its descriptor; what happens to sockets is
-- a list of effects. `none` is a call through the null pointer of `channel_`.
pub mod Sockets
mod Tests
use learning_tools.Prelude.{
  ℕ, Bool, true, false, not, ◌||◌, if◌then◌else◌, List, [], ◌∷◌, ◌++◌, Option, none, some,
}

pub data State : Type 0 where
  disconnected connecting connected : State

abbrev pub is_disconnected : State → Bool
is_disconnected disconnected = true
is_disconnected connecting = false
is_disconnected connected = false

abbrev pub is_connecting : State → Bool
is_connecting disconnected = false
is_connecting connecting = true
is_connecting connected = false

-- `channel` is the descriptor of the channel, if there is one. The delay of `retry` is not used by the code.
pub record Connector : Type 0 where
  pub wants : Bool
  pub state : State
  pub channel : Option ℕ

-- How connect(2) ended: going on (0, EINPROGRESS, EINTR, EISCONN), an error after which `retry` is
-- called, or any other.
pub data Outcome : Type 0 where
  in_progress temporary fatal : Outcome

pub data Effect : Type 0 where
  opened shut handed : ℕ → Effect
  queued_reset queued_stop : Effect

abbrev pub Run : Type 0
Run = Connector × List Effect

unfoldable pub init : Connector
init = record { wants = false; state = disconnected; channel = none }

unfoldable pub retry : Connector → ℕ → Run
retry c fd = (record c { state = disconnected }, shut fd ∷ [])

unfoldable pub start_connecting : Connector → ℕ → Connector
start_connecting c fd = record c { state = connecting; channel = some fd }

-- `fd` is the new socket.
unfoldable pub connect : Connector → ℕ → Outcome → Run
unfolding retry start_connecting
connect c fd in_progress = (start_connecting c fd, opened fd ∷ [])
connect c fd temporary = let (c', es) = retry c fd in (c', opened fd ∷ es)
connect c fd fatal = (c, opened fd ∷ shut fd ∷ [])

unfoldable pub start_in_loop : Connector → ℕ → Outcome → Run
unfolding connect
start_in_loop c fd outcome =
    if not (is_disconnected c.state)
    then (c, [])
    else if c.wants
    then connect c fd outcome
    else (c, [])

unfoldable pub start : Connector → ℕ → Outcome → Run
unfolding start_in_loop
start c fd outcome = start_in_loop (record c { wants = true }) fd outcome

unfoldable pub restart : Connector → ℕ → Outcome → Run
unfolding start_in_loop
restart c fd outcome = start_in_loop (record c { state = disconnected; wants = true }) fd outcome

unfoldable pub stop : Connector → Run
stop c = (record c { wants = false }, queued_stop ∷ [])

-- `removeAndResetChannel` hands back the descriptor, and the channel goes later, by `reset_channel`.
unfoldable pub retry_channel : Connector → Option ℕ → Option Run
unfolding retry
retry_channel c none = none
retry_channel c (some fd) = let (c', es) = retry c fd in some (c', queued_reset ∷ es)

unfoldable pub stop_in_loop : Connector → Option Run
unfolding retry_channel
stop_in_loop c = if is_connecting c.state then retry_channel c c.channel else some (c, [])

-- The part of `handleWrite` behind the tests of the socket.
unfoldable pub hand_over : Connector → Option ℕ → Option Run
hand_over c none = none
hand_over c (some fd) = some (
  record c { state = connected },
  queued_reset ∷ (if c.wants then handed fd ∷ [] else shut fd ∷ []),
)

-- `err`: SO_ERROR is set; `self`: the socket is connected to itself.
unfoldable pub handle_write : Connector → Bool → Bool → Option Run
unfolding retry_channel hand_over
handle_write c err self =
    if is_connecting c.state
    then (if err || self then retry_channel c c.channel else hand_over c c.channel)
    else some (c, [])

unfoldable pub handle_error : Connector → Option Run
unfolding retry_channel
handle_error c = if is_connecting c.state then retry_channel c c.channel else some (c, [])

unfoldable pub reset_channel : Connector → Run
reset_channel c = (record c { channel = none }, [])
