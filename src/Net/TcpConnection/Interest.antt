-- ===== src/Net/TcpConnection/Interest.antt =====
-- net/TcpConnection.cpp: bytes that wait are never forgotten.
use learning_tools.Prelude.{
  ℕ, ◌+◌, ◌*◌, ◌/◌, ◌%◌, ◌≡◌, ap, arith, true, ◌||◌, ◌==◌, ltb, if◌then◌else◌, List, [], ◌∷◌,
  length, sub_size,
}
use learning_tools.Net.Buffer.{readable_bytes}
use learning_tools.Net.Buffer.ReadFd.{ReadvAnswer, ReadResult, read_fd, read_error, read_count}
use learning_tools.Net.Buffer.Contents.{contents}
use learning_tools.Net.Channel.{
  Polling, has_bit, is_writing, enable_reading, enable_writing, remove,
}
use learning_tools.Net.TcpConnection.{
  is_disconnected, Answer, wrote, write_error, read_data, Connection, Run, handle_close,
  handle_error, keep_rest, after_write, send_in_loop, send, shutdown, force_close,
  force_close_in_loop, connect_established, connect_destroyed, handle_write, handle_read,
}
use learning_tools.Net.TcpConnection.Wire.{
  Event, established, destroyed, shuts, forces, forces_in_loop, closes, sends, writable, readable,
  step, runs,
}

module _ (p : Polling) where
  -- The connection is disconnected, or no byte waits in its output buffer, or the channel asks for
  -- room to write.
  abbrev pub IsAwake : Connection p → Type 0
  IsAwake c =
      (is_disconnected c.state || (readable_bytes c.output == 0) || is_writing c.channel) ≡ true

  handle_close-IsAwake : (c : Connection p) → IsAwake c → IsAwake (handle_close p c).0
  unfolding handle_close
  handle_close-IsAwake c h = ground arith

  set_bit : (e : ℕ) → has_bit (if has_bit e 4 then e else e + 4) 4 ≡ true
  set_bit e = ground arith

  keep_rest-IsAwake :
      (c : Connection p) (bytes : List ℕ) (k r : ℕ)
      → IsAwake c
      → IsAwake (keep_rest p c bytes k r).0
  unfolding keep_rest enable_writing
  keep_rest-IsAwake c bytes k r h =
      let asked = record c.channel {
        events = if is_writing c.channel then c.channel.events else c.channel.events + 4;
      } in
      let kept = p.update-events c.poller asked in
      let on = set_bit c.channel.events in ground (arith, kept, on)

  send-IsAwake :
      (c : Connection p) (bytes : List ℕ) (a : Answer) → IsAwake c → IsAwake (send p c bytes a).0
  unfolding send send_in_loop after_write
  send-IsAwake c bytes (write_error fault) h =
      let whole = keep_rest-IsAwake c bytes 0 (length bytes) h in ground (arith, whole)
  send-IsAwake c bytes (wrote m) h =
      let whole = keep_rest-IsAwake c bytes 0 (length bytes) h in
      let left = keep_rest-IsAwake c bytes m (sub_size (length bytes) m) h in
      ground (arith, whole, left)

  established-IsAwake : (c : Connection p) → IsAwake c → IsAwake (connect_established p c).0
  unfolding connect_established handle_close enable_reading
  established-IsAwake c h =
      let asked = record c.channel { tied = true; events = c.channel.events / 4 * 4 + 3 } in
      let kept = p.update-events c.poller asked in
      let same : has_bit (c.channel.events / 4 * 4 + 3) 4 ≡ has_bit c.channel.events 4 =
        ap (λ (e : ℕ). (e % 2) == 1) (omega arith) in
      ground (arith, kept, same)

  destroyed-IsAwake : (c : Connection p) → IsAwake c → IsAwake (connect_destroyed p c).0
  unfolding connect_destroyed remove
  destroyed-IsAwake c h = ground arith

  handle_write-IsAwake :
      (c : Connection p) (a : Answer) → IsAwake c → IsAwake (handle_write p c a).0
  unfolding handle_write
  handle_write-IsAwake c (write_error fault) h =
      let gone = handle_close-IsAwake c h in ground (arith, gone)
  handle_write-IsAwake c (wrote m) h = let gone = handle_close-IsAwake c h in ground (arith, gone)

  -- The output, the state and the channel are what matters.
  answer_read : Connection p → ReadResult → Run p
  answer_read c (read_error errno) = handle_error p c
  answer_read c (read_count n) =
      if ltb 0 n then (c, read_data (contents c.input) ∷ []) else handle_close p c

  answer_read-IsAwake :
      (c : Connection p) (r : ReadResult) → IsAwake c → IsAwake (answer_read c r).0
  unfolding answer_read handle_error
  answer_read-IsAwake c (read_error errno) h = handle_close-IsAwake c h
  answer_read-IsAwake c (read_count n) h =
      let gone = handle_close-IsAwake c h in ground (arith, gone)

  handle_read-IsAwake :
      (c : Connection p) (a : ReadvAnswer) → IsAwake c → IsAwake (handle_read p c a).0
  unfolding handle_read answer_read
  handle_read-IsAwake c a h =
      answer_read-IsAwake (record c { input = (read_fd c.input a).1 }) (read_fd c.input a).0 h

  step-IsAwake : (e : Event) (c : Connection p) → IsAwake c → IsAwake (step p e c).0
  unfolding step shutdown force_close force_close_in_loop
  step-IsAwake established c h = established-IsAwake c h
  step-IsAwake destroyed c h = destroyed-IsAwake c h
  step-IsAwake shuts c h = ground arith
  step-IsAwake forces c h = ground arith
  step-IsAwake forces_in_loop c h = let gone = handle_close-IsAwake c h in ground (arith, gone)
  step-IsAwake closes c h = handle_close-IsAwake c h
  step-IsAwake (sends bytes a) c h = send-IsAwake c bytes a h
  step-IsAwake (writable a) c h = handle_write-IsAwake c a h
  step-IsAwake (readable a) c h = handle_read-IsAwake c a h

  -- Whatever happens to a connection: as long as it is not disconnected, bytes that wait in its output buffer
  -- make its channel ask for room to write, so that no accepted byte is left behind unasked for.
  pub runs-IsAwake : (es : List Event) (c : Connection p) → IsAwake c → IsAwake (runs p es c).0
  unfolding runs
  runs-IsAwake [] c h = h
  runs-IsAwake (e ∷ es) c h = runs-IsAwake es (step p e c).0 (step-IsAwake e c h)
