-- ===== src/Net/TcpConnection.antt =====
-- net/TcpConnection.cpp: a connection, in the thread of its loop. What it does to the socket and to
-- its owner is a list of effects; what the system calls answer is an argument.
pub mod Stream
pub mod Wire
pub mod Setup
pub mod Interest
pub mod Drains
mod Tests
use learning_tools.Prelude.{
  ℕ, ◌+◌, ◌-◌, ◌%◌, ◌^◌, Bool, true, false, not, ◌&&◌, ◌||◌, ◌==◌, ltb, leb, if◌then◌else◌, List,
  [], ◌∷◌, ◌++◌, length, take, drop, sub_size,
}
use learning_tools.Net.Buffer.{Buffer, readable_bytes, retrieve, append}
use learning_tools.Net.Buffer.ReadFd.{ReadvAnswer, ReadResult, read_error, read_count, read_fd}
use learning_tools.Net.Buffer.Contents.{contents}
use learning_tools.Net.Channel.{
  Channel, Polling, is_writing, enable_reading, enable_writing, disable_writing, disable_all,
  remove,
}

pub data State : Type 0 where
  disconnected connecting connected disconnecting : State

abbrev pub is_disconnected : State → Bool
is_disconnected disconnected = true
is_disconnected connecting = false
is_disconnected connected = false
is_disconnected disconnecting = false

abbrev pub is_connecting : State → Bool
is_connecting disconnected = false
is_connecting connecting = true
is_connecting connected = false
is_connecting disconnecting = false

abbrev pub is_connected : State → Bool
is_connected disconnected = false
is_connected connecting = false
is_connected connected = true
is_connected disconnecting = false

abbrev pub is_disconnecting : State → Bool
is_disconnecting disconnected = false
is_disconnecting connecting = false
is_disconnecting connected = false
is_disconnecting disconnecting = true

-- `write`: how many bytes the kernel took, or an error, which is a fault for EPIPE and ECONNRESET.
pub data Answer : Type 0 where
  wrote : ℕ → Answer
  write_error : Bool → Answer

-- `read_data` shows the bytes that the message callback finds. `queued_close` is `forceCloseInLoop`, queued.
pub data Effect : Type 0 where
  sent : List ℕ → Effect
  write_complete shut_down_write went_up went_down closed queued_close : Effect
  high_water : ℕ → Effect
  read_data : List ℕ → Effect

module _ (p : Polling) where
  pub record Connection : Type 0 where
    pub state : State
    pub channel : Channel
    pub poller : p.State
    pub output : Buffer
    pub input : Buffer
    pub high_water_mark : ℕ
    pub has_high_water : Bool
    pub has_write_complete : Bool

  abbrev pub Run : Type 0
  Run = Connection × List Effect

  -- A change of the events; its result is not looked at.
  abbrev pub polled : Connection → Bool × (Channel × p.State) → Connection
  polled c r = record c { channel = r.1.0; poller = r.1.1 }

  unfoldable pub handle_close : Connection → Run
  unfolding disable_all
  handle_close c = if is_disconnected c.state then (c, []) else (
    polled (record c { state = disconnected }) (disable_all p.update c.poller c.channel),
    went_down ∷ closed ∷ [],
  )

  -- The end of `sendInLoop`, behind the direct write: what it left goes to the output buffer.
  unfoldable pub keep_rest : Connection → List ℕ → ℕ → ℕ → Run
  unfolding enable_writing
  keep_rest c bytes nwrote remaining =
      let old_len = readable_bytes c.output in
      let warns =
        leb c.high_water_mark (old_len + remaining)
        && ltb old_len c.high_water_mark
        && c.has_high_water in
      let kept = record c { output = append c.output (take remaining (drop nwrote bytes)) } in
      if ltb 0 remaining
      then (
        (if is_writing c.channel
            then kept
            else polled kept (enable_writing p.update c.poller c.channel)),
        (if warns then high_water (old_len + remaining) ∷ [] else []),
      )
      else (c, [])

  unfoldable pub after_write : Connection → List ℕ → Answer → Run
  unfolding keep_rest
  after_write c bytes (write_error fault) =
      if fault then (c, []) else keep_rest c bytes 0 (length bytes)
  after_write c bytes (wrote n) =
      let remaining = sub_size (length bytes) n in
      let done = if (remaining == 0) && c.has_write_complete then write_complete ∷ [] else [] in
      let (c', warned) = keep_rest c bytes n remaining in
      if ltb (length bytes) remaining
      then (c, sent (take n bytes) ∷ done)
      else (c', sent (take n bytes) ∷ done ++ warned)

  unfoldable pub send_in_loop : Connection → List ℕ → Answer → Run
  unfolding after_write
  send_in_loop c bytes answer =
      if is_disconnected c.state
      then (c, [])
      else if not (is_writing c.channel) && (readable_bytes c.output == 0)
      then after_write c bytes answer
      else keep_rest c bytes 0 (length bytes)

  unfoldable pub send : Connection → List ℕ → Answer → Run
  unfolding send_in_loop
  send c bytes answer = if is_connected c.state then send_in_loop c bytes answer else (c, [])

  unfoldable pub shutdown_in_loop : Connection → List Effect
  shutdown_in_loop c = if not (is_writing c.channel) then shut_down_write ∷ [] else []

  unfoldable pub shutdown : Connection → Run
  unfolding shutdown_in_loop
  shutdown c =
      if is_connected c.state
      then (
        record c { state = disconnecting },
        shutdown_in_loop (record c { state = disconnecting }),
      )
      else (c, [])

  unfoldable pub force_close : Connection → Run
  force_close c =
      if is_connected c.state || is_disconnecting c.state
      then (record c { state = disconnecting }, queued_close ∷ [])
      else (c, [])

  unfoldable pub force_close_in_loop : Connection → Run
  unfolding handle_close
  force_close_in_loop c =
      if is_connected c.state || is_disconnecting c.state then handle_close c else (c, [])

  unfoldable pub connect_established : Connection → Run
  unfolding handle_close enable_reading
  connect_established c =
      let up = record c { state = connected; channel = record c.channel { tied = true } } in
      let r = enable_reading p.update up.poller up.channel in
      if not (is_connecting c.state)
      then (c, [])
      else if not r.0
      then handle_close (polled up r)
      else (polled up r, went_up ∷ [])

  unfoldable pub connect_destroyed : Connection → Run
  unfolding disable_all remove
  connect_destroyed c =
      let down =
        polled (record c { state = disconnected }) (disable_all p.update c.poller c.channel) in
      let c' = if is_connected c.state then down else c in
      let (ch, s) = remove p.remove_channel c'.poller c'.channel in
      (
        record c' { channel = ch; poller = s },
        (if is_connected c.state then went_down ∷ [] else []),
      )

  unfoldable pub handle_error : Connection → Run
  unfolding handle_close
  handle_error c = handle_close c

  unfoldable pub handle_write : Connection → Answer → Run
  unfolding handle_close disable_writing shutdown_in_loop
  handle_write c (write_error fault) = if is_writing c.channel then handle_close c else (c, [])
  handle_write c (wrote n) =
      let after = record c { output = (retrieve c.output n).1 } in
      let idle = polled after (disable_writing p.update c.poller c.channel) in
      let last =
        (if c.has_write_complete then write_complete ∷ [] else [])
        ++ (if is_disconnecting c.state then shutdown_in_loop idle else []) in
      if is_writing c.channel
      then (if ltb 0 n
          then (if readable_bytes after.output == 0
              then (idle, sent (take n (contents c.output)) ∷ last)
              else (after, sent (take n (contents c.output)) ∷ []))
          else handle_close c)
      else (c, [])

  unfoldable pub handle_read : Connection → ReadvAnswer → Run
  unfolding handle_error handle_close
  handle_read c answer =
      let (result, input) = read_fd c.input answer in
      let c' = record c { input = input } in
      elim result [
        | read_error errno ↦ handle_error c'
        | read_count n ↦ if ltb 0 n then (c', read_data (contents input) ∷ []) else handle_close c'
      ]
