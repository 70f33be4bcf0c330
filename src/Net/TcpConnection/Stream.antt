-- ===== src/Net/TcpConnection/Stream.antt =====
-- net/TcpConnection.cpp: the bytes that a connection puts on the wire.
use mathlib.Core.List.{append-nil}
use learning_tools.Prelude.{
  ℕ, ◌-◌, ◌≤◌, ◌≡◌, refl, ap, sym, ◌∙◌, arith, not, ◌&&◌, ◌==◌, ltb, if◌then◌else◌, List, [], ◌∷◌,
  ◌++◌, length, take, drop, sub_size, take-append-drop, length-drop,
}
use learning_tools.Prelude.Slices.{take_all}
use learning_tools.Net.Buffer.{Buffer, readable_bytes}
use learning_tools.Net.Buffer.ReadFd.{ReadvAnswer, read_fd, read_error, read_count}
use learning_tools.Net.Buffer.Invariant.{IsValid, Fits}
use learning_tools.Net.Buffer.Contents.{contents, append-contents, retrieve-contents}
use learning_tools.Net.Buffer.Queue.{readable-contents}
use learning_tools.Net.Channel.{Polling, is_writing, enable_reading, disable_writing, disable_all}
use learning_tools.Net.TcpConnection.{
  is_connected, Answer, wrote, write_error, Effect, sent, write_complete, shut_down_write, went_up,
  went_down, closed, queued_close, high_water, read_data, Connection, handle_close, keep_rest,
  after_write, send_in_loop, send, shutdown, shutdown_in_loop, force_close, force_close_in_loop,
  connect_established, connect_destroyed, handle_error, handle_write, handle_read, Run,
}

-- The bytes that the kernel took.
unfoldable pub sent_of : List Effect → List ℕ
sent_of [] = []
sent_of (sent bytes ∷ es) = bytes ++ sent_of es
sent_of (write_complete ∷ es) = sent_of es
sent_of (shut_down_write ∷ es) = sent_of es
sent_of (went_up ∷ es) = sent_of es
sent_of (went_down ∷ es) = sent_of es
sent_of (closed ∷ es) = sent_of es
sent_of (queued_close ∷ es) = sent_of es
sent_of (high_water n ∷ es) = sent_of es
sent_of (read_data bytes ∷ es) = sent_of es

no_bytes : (xs : List ℕ) → length xs ≡ 0 → xs ≡ []
no_bytes [] h = refl
no_bytes (x ∷ xs) h = absurd (omega arith)

idle-empty : {b : Buffer} → IsValid b → readable_bytes b ≡ 0 → contents b ≡ []
idle-empty {b} v h = no_bytes (contents b) (sym (readable-contents v) ∙ h)

module _ (p : Polling) where
  -- A run that leaves the output alone.
  unfoldable pub Silent : Connection p → Run p → Type 0
  Silent c (c', es) = (c'.output ≡ c.output) × (sent_of es ≡ [])

  pub handle_close-Silent : (c : Connection p) → Silent c (handle_close p c)
  unfolding handle_close disable_all sent_of Silent
  handle_close-Silent c = ground arith

  pub connect_established-Silent : (c : Connection p) → Silent c (connect_established p c)
  unfolding connect_established handle_close disable_all sent_of Silent enable_reading
  connect_established-Silent c = ground arith

  pub connect_destroyed-Silent : (c : Connection p) → Silent c (connect_destroyed p c)
  unfolding connect_destroyed sent_of Silent
  connect_destroyed-Silent c = ground arith

  pub shutdown-Silent : (c : Connection p) → Silent c (shutdown p c)
  unfolding shutdown shutdown_in_loop sent_of Silent
  shutdown-Silent c = ground arith

  pub force_close_in_loop-Silent : (c : Connection p) → Silent c (force_close_in_loop p c)
  unfolding force_close_in_loop handle_close disable_all sent_of Silent
  force_close_in_loop-Silent c = ground arith

  pub force_close-Silent : (c : Connection p) → Silent c (force_close p c)
  unfolding force_close sent_of Silent
  force_close-Silent c = ground arith

  keep_rest-lem :
      (c : Connection p) (bytes : List ℕ) (k r : ℕ)
      → IsValid c.output
      → Fits c.output (length (take r (drop k bytes)))
      → let (c', es) = keep_rest p c bytes k r in
        (contents c'.output ≡ contents c.output ++ take r (drop k bytes)) × (sent_of es ≡ [])
  unfolding keep_rest sent_of
  keep_rest-lem c bytes k r v f =
      let kept = append-contents v (take r (drop k bytes)) f in
      ground (arith, kept, append-nil (contents c.output))

  keep_rest-whole :
      (c : Connection p) (bytes : List ℕ)
      → IsValid c.output
      → Fits c.output (length bytes)
      → let (c', es) = keep_rest p c bytes 0 (length bytes) in
        (contents c'.output ≡ contents c.output ++ bytes) × (sent_of es ≡ [])
  keep_rest-whole c bytes v f =
      let all = take_all (length bytes) bytes (omega arith) in
      let fits : Fits c.output (length (take (length bytes) bytes)) = rw all f in
      let (kept, quiet) = keep_rest-lem c bytes 0 (length bytes) v fits in
      (kept ∙ ap (λ more. contents c.output ++ more) all, quiet)

  keep_rest-left :
      (c : Connection p) (bytes : List ℕ) (n : ℕ)
      → IsValid c.output
      → Fits c.output (length bytes)
      → n ≤ length bytes
      → let (c', es) = keep_rest p c bytes n (length bytes - n) in
        (contents c'.output ≡ contents c.output ++ drop n bytes) × (sent_of es ≡ [])
  keep_rest-left c bytes n v f h =
      let shorter = length-drop n bytes in
      let all = take_all (length bytes - n) (drop n bytes) (omega (arith, shorter)) in
      let fits : Fits c.output (length (take (length bytes - n) (drop n bytes))) =
        rw all (omega (arith, shorter)) in
      let (kept, quiet) = keep_rest-lem c bytes n (length bytes - n) v fits in
      (kept ∙ ap (λ more. contents c.output ++ more) all, quiet)

  pub handle_read-Silent : (c : Connection p) (a : ReadvAnswer) → Silent c (handle_read p c a)
  unfolding handle_read handle_error handle_close disable_all sent_of Silent
  handle_read-Silent c a =
      elim (read_fd c.input a).0
        as (λ r.
          let c' = record c { input = (read_fd c.input a).1 } in
          Silent c (elim r [
            | read_error errno ↦ handle_error p c'
            | read_count n ↦
                if ltb 0 n then (c', read_data (contents c'.input) ∷ []) else handle_close p c'
          ])) [ read_error errno ↦ ground arith | read_count n ↦ ground arith ]

  -- The bytes that a call to send is answerable for: none where the connection is not up, and none where the kernel
  -- refuses them for good.
  unfoldable pub accepted : Connection p → List ℕ → Answer → List ℕ
  accepted c bytes (wrote n) = if is_connected c.state then bytes else []
  accepted c bytes (write_error fault) =
      if is_connected c.state
      then (if fault && not (is_writing c.channel) && (readable_bytes c.output == 0)
          then []
          else bytes)
      else []

  -- The kernel takes no more than it is offered.
  abbrev pub IsAnswer : List ℕ → Answer → Type 0
  IsAnswer bytes (wrote n) = n ≤ length bytes
  IsAnswer bytes (write_error fault) = Unit {0}

  unfoldable pub Continues : Connection p → List ℕ → Run p → Type 0
  Continues c more (c', es) = sent_of es ++ contents c'.output ≡ contents c.output ++ more

  pub send-Continues :
      (c : Connection p) (bytes : List ℕ) (a : Answer)
      → IsValid c.output
      → Fits c.output (length bytes)
      → IsAnswer bytes a
      → Continues c (accepted c bytes a) (send p c bytes a)
  unfolding send send_in_loop after_write Continues accepted sent_of
  send-Continues c bytes (write_error fault) v f h =
      let (kept, quiet) = keep_rest-whole c bytes v f in
      ground (arith, kept, quiet, append-nil (contents c.output))
  send-Continues c bytes (wrote n) v f h =
      let (kept, quiet) = keep_rest-whole c bytes v f in
      let (left, silent) = keep_rest-left c bytes n v f h in
      let exact : sub_size (length bytes) n ≡ length bytes - n = omega arith in
      let empty = idle-empty v in
      ground (
        arith,
        kept,
        quiet,
        left,
        silent,
        exact,
        empty,
        append-nil (contents c.output),
        append-nil bytes,
        append-nil (take n bytes),
        take-append-drop n bytes,
      )

  pub handle_write-Continues :
      (c : Connection p) (a : Answer)
      → IsValid c.output
      → IsAnswer (contents c.output) a
      → Continues c [] (handle_write p c a)
  unfolding handle_write disable_writing shutdown_in_loop Continues sent_of Silent
  handle_write-Continues c (write_error fault) v h =
      let (same, quiet) = handle_close-Silent c in
      ground (arith, same, quiet, append-nil (contents c.output))
  handle_write-Continues c (wrote n) v h =
      let (same, quiet) = handle_close-Silent c in
      let (_, rest) = retrieve-contents v n in
      ground (
        arith,
        same,
        quiet,
        rest,
        append-nil (contents c.output),
        append-nil (take n (contents c.output)),
        take-append-drop n (contents c.output),
      )
