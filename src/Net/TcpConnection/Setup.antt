-- ===== src/Net/TcpConnection/Setup.antt =====
-- net/TcpConnection.cpp: the constructor, `send` of a Buffer, and the default callback for messages.
use learning_tools.Prelude.{
  ℕ, ◌*◌, ◌<◌, ◌^◌, ◌≡◌, refl, arith, true, false, if◌then◌else◌, List, [], ◌++◌, ap, ◌∙◌,
  Bool-cases, inl, inr,
}
use learning_tools.Prelude.Slices.{slice}
use learning_tools.Net.Buffer.{Buffer, readable_bytes, retrieve_all}
use learning_tools.Net.Buffer
use learning_tools.Net.Buffer.Invariant.{init-IsValid}
use learning_tools.Net.Buffer.Contents.{contents}
use learning_tools.Net.Channel.{Polling, is_writing}
use learning_tools.Net.Channel
use learning_tools.Net.TcpConnection.{
  Connection, Run, connecting, is_connected, Answer, send, send_in_loop,
}
use learning_tools.Net.TcpConnection.Interest.{IsAwake, runs-IsAwake}
use learning_tools.Net.TcpConnection.Stream.{sent_of}
use learning_tools.Net.TcpConnection.Wire.{
  Event, runs, all_accepted, AreAnswered, demands, Ready, runs_in_order,
}

-- `defaultMessageCallback`.
unfoldable pub default_message_callback : Buffer → Buffer
unfolding retrieve_all
default_message_callback buf = retrieve_all buf

module _ (p : Polling) where
  unfoldable pub init : p.State → ℕ → ℕ → Connection p
  unfolding Buffer.init
  init poller address sockfd = record {
    state = connecting;
    channel = record (Channel.init address sockfd) {
      read_callback = true;
      write_callback = true;
      close_callback = true;
      error_callback = true;
    };
    poller = poller;
    output = Buffer.init 1024;
    input = Buffer.init 1024;
    high_water_mark = 64 * 1024 * 1024;
    has_high_water = false;
    has_write_complete = false;
  }

  -- In the thread of the loop: what is left of `buf` is the second part of the result.
  unfoldable pub send_buffer : Connection p → Buffer → Answer → Run p × Buffer
  unfolding send_in_loop retrieve_all
  send_buffer c buf answer =
      if is_connected c.state
      then (send_in_loop p c (contents buf) answer, retrieve_all buf)
      else ((c, []), buf)

  -- A Buffer that is sent goes out as its contents do, and is empty then; where the connection is not up, it stays.
  send_buffer-contents :
      (c : Connection p) (buf : Buffer) (answer : Answer)
      → ((send_buffer c buf answer).0 ≡ send p c (contents buf) answer)
        × (contents (send_buffer c buf answer).1
            ≡ (if is_connected c.state then [] else contents buf))
  unfolding send_buffer send retrieve_all contents slice
  send_buffer-contents c buf answer = elim (Bool-cases (is_connected c.state)) [
    | inl up ↦ (rw (send_buffer, send, up), rw (send_buffer, up))
    | inr down ↦ (rw (send_buffer, send, down), rw (send_buffer, down))
  ]

  init-IsAwake : (poller : p.State) (address sockfd : ℕ) → IsAwake p (init poller address sockfd)
  unfolding init Buffer.init readable_bytes
  init-IsAwake poller address sockfd = refl

  init-Ready :
      (poller : p.State) (address sockfd n : ℕ)
      → n < 2 ^ 62
      → Ready p n (init poller address sockfd)
  unfolding init Buffer.init
  init-Ready poller address sockfd n few =
      (init-IsValid 1024 (omega arith), (omega (arith, few), omega (arith, few)))

  init-contents :
      (poller : p.State) (address sockfd : ℕ) → contents (init poller address sockfd).output ≡ []
  unfolding init Buffer.init contents slice
  init-contents poller address sockfd = refl

  -- A connection from its constructor on, whatever happens to it, in whatever order: the bytes that the kernel
  -- took, followed by those that wait in the output buffer, are the bytes that send accepted, in the order of the
  -- calls; and as long as the connection is not disconnected, bytes that wait make its channel ask for room to
  -- write. The kernel takes no more than it is offered, and fewer than 2^62 bytes are sent.
  pub init-runs :
      (poller : p.State) (address sockfd : ℕ) (es : List Event)
      → demands p es < 2 ^ 62
      → AreAnswered p es (init poller address sockfd)
      → let (c', effects) = runs p es (init poller address sockfd) in
        (sent_of effects ++ contents c'.output ≡ all_accepted p es (init poller address sockfd))
        × IsAwake p c'
  init-runs poller address sockfd es few answered =
      let c = init poller address sockfd in
      let ready = init-Ready poller address sockfd (demands p es) few in
      (
        runs_in_order p es c ready answered
            ∙ ap (λ t. t ++ all_accepted p es c) (init-contents poller address sockfd),
        runs-IsAwake p es c (init-IsAwake poller address sockfd),
      )
