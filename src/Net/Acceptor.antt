-- ===== src/Net/Acceptor.antt =====
-- net/Acceptor.cpp, with Socket::accept and sockets::accept of net/Sockets.cpp: the socket that connections
-- arrive at. The descriptors of the process and the connections that wait are a parameter.
pub mod Descriptors
mod Tests
use learning_tools.Prelude.{
  ℕ, ◌+◌, ◌≡◌, Bool, true, false, not, ◌&&◌, ◌||◌, ◌==◌, if◌then◌else◌, List, [], ◌∷◌, Option, none,
  some,
}
use learning_tools.Net.Channel.{
  Channel, Polling, Update, enable_reading, disable_all, remove, is_none_event,
}
use learning_tools.Net.Channel
use learning_tools.Net.Sockets.{SockAddr}

pub data Answer : Type 0 where
  accepted : ℕ → SockAddr → Answer
  failed : ℕ → Answer

-- accept(2) on the listening socket, close(2), and open(2) of /dev/null, where `none` is -1.
pub record Kernel : Type 1 where
  pub State : Type 0
  pub accept : State → Answer × State
  pub close : ℕ → State → State
  pub open_null : State → Option ℕ × State
  pub is_open : State → ℕ → Bool
  pub waiting : State → ℕ

abbrev pub is_idle : Option ℕ → ℕ → Bool
is_idle none n = false
is_idle (some fd) n = fd == n

-- The new descriptor of a call, and how many connections it took.
abbrev pub fd_of : Answer → Option ℕ
fd_of (accepted fd peer) = some fd
fd_of (failed errno) = none

abbrev pub taken : Answer → ℕ
taken (accepted fd peer) = 1
taken (failed errno) = 0

abbrev pub emfile : ℕ
emfile = 24

abbrev pub is_emfile : Answer → Bool
is_emfile (accepted fd peer) = false
is_emfile (failed errno) = errno == emfile

-- accept(2), close(2) and open(2): a new descriptor is one that was not open; accept takes the connection that it
-- answers from the queue, and none where it fails with EMFILE.
pub record IsKernel (kernel : Kernel) : Type 0 where
  pub accept_fresh :
      (k : kernel.State) (n : ℕ)
      → (kernel.is_open k n && is_idle (fd_of (kernel.accept k).0) n) ≡ false
  pub accept_open :
      (k : kernel.State) (n : ℕ)
      → kernel.is_open (kernel.accept k).1 n
        ≡ (kernel.is_open k n || is_idle (fd_of (kernel.accept k).0) n)
  pub accept_takes :
      (k : kernel.State) (fd : ℕ) (peer : SockAddr)
      → (kernel.accept k).0 ≡ accepted fd peer
      → kernel.waiting (kernel.accept k).1 + 1 ≡ kernel.waiting k
  pub accept_emfile :
      (k : kernel.State)
      → (kernel.accept k).0 ≡ failed emfile
      → kernel.waiting (kernel.accept k).1 ≡ kernel.waiting k
  pub close_open :
      (k : kernel.State) (fd n : ℕ)
      → kernel.is_open (kernel.close fd k) n ≡ (kernel.is_open k n && not (fd == n))
  pub close_waiting :
      (k : kernel.State) (fd : ℕ) → kernel.waiting (kernel.close fd k) ≡ kernel.waiting k
  pub null_fresh :
      (k : kernel.State) (n : ℕ) → (kernel.is_open k n && is_idle (kernel.open_null k).0 n) ≡ false
  pub null_open :
      (k : kernel.State) (n : ℕ)
      → kernel.is_open (kernel.open_null k).1 n
        ≡ (kernel.is_open k n || is_idle (kernel.open_null k).0 n)
  pub null_waiting : (k : kernel.State) → kernel.waiting (kernel.open_null k).1 ≡ kernel.waiting k

-- EAGAIN, ECONNABORTED, EINTR, EPROTO, EPERM and EMFILE.
abbrev pub is_expected : ℕ → Bool
is_expected errno =
    errno == 11 || errno == 103 || errno == 4 || errno == 71 || errno == 1 || errno == emfile

-- `sockets::accept`; any other error ends the process (`none`). The value of errno is put back after the log.
unfoldable pub checked : Answer → Option Answer
checked (accepted fd peer) = some (accepted fd peer)
checked (failed errno) = if is_expected errno then some (failed errno) else none

module _ (p : Polling) where
  pub record Acceptor : Type 0 where
    pub socket : ℕ
    pub channel : Channel
    pub poller : p.State
    pub callback : Bool
    pub listenning : Bool
    pub idle_fd : Option ℕ

  -- The constructor: `created` is the answer of socket(2), `null_fd` that of open(2) and `bound` whether
  -- bind(2) succeeded.
  unfoldable pub init : p.State → ℕ → Option ℕ → Option ℕ → Bool → Option Acceptor
  init poller address none null_fd bound = none
  init poller address (some fd) null_fd bound =
      if bound
      then some (record {
        socket = fd;
        channel = record (Channel.init address fd) { read_callback = true };
        poller = poller;
        callback = false;
        listenning = false;
        idle_fd = null_fd;
      })
      else none

  unfoldable pub set_new_connection_callback : Acceptor → Acceptor
  set_new_connection_callback a = record a { callback = true }

  -- `listened` is whether listen(2) succeeded.
  unfoldable pub listen : Bool → Acceptor → Option Acceptor
  unfolding enable_reading
  listen listened a =
      let (_, (channel, poller)) = enable_reading p.update a.poller a.channel in
      if listened
      then some (record a { listenning = true; channel = channel; poller = poller })
      else none

module _ (kernel : Kernel) where
  -- `::close(idleFd_)`; close(2) of -1 does nothing.
  abbrev pub close_idle : Option ℕ → kernel.State → kernel.State
  close_idle none k = k
  close_idle (some fd) k = kernel.close fd k

  -- The connection is taken in place of the idle descriptor, and closed.
  unfoldable pub refuse : Option ℕ → kernel.State → Option ℕ × kernel.State
  refuse idle_fd k =
      let (answer, k') = kernel.accept (close_idle idle_fd k) in
      kernel.open_null (close_idle (fd_of answer) k')

  module _ (p : Polling) where
    -- What is passed to the callback, the acceptor and the kernel.
    abbrev pub Handled : Type 0
    Handled = List (ℕ × SockAddr) × (Acceptor p × kernel.State)

    -- `after_log` is the value that errno has behind the line of the log.
    unfoldable pub handle_failed : ℕ → Acceptor p → kernel.State → Handled
    unfolding refuse
    handle_failed after_log a k =
        let (idle_fd, k') = refuse a.idle_fd k in
        if after_log == emfile then ([], (record a { idle_fd = idle_fd }, k')) else ([], (a, k))

    unfoldable pub handle_answer : (ℕ → ℕ) → Answer → Acceptor p → kernel.State → Handled
    unfolding handle_failed
    handle_answer log (accepted fd peer) a k =
        if a.callback then ((fd, peer) ∷ [], (a, k)) else ([], (a, kernel.close fd k))
    handle_answer log (failed errno) a k = handle_failed (log errno) a k

    -- `log` says what a line of the log leaves in errno.
    unfoldable pub handle_read : (ℕ → ℕ) → Acceptor p → kernel.State → Option Handled
    unfolding handle_answer checked
    handle_read log a k =
        let (answer, k') = kernel.accept k in
        elim (checked answer) [ none ↦ none | some answer' ↦ some (handle_answer log answer' a k') ]

    -- The destructor, with that of the socket.
    unfoldable pub destroy : Acceptor p → kernel.State → p.State × kernel.State
    unfolding disable_all remove
    destroy a k =
        let (_, (channel, poller)) = disable_all p.update a.poller a.channel in
        let (_, poller') = remove p.remove_channel poller channel in
        (poller', kernel.close a.socket (close_idle a.idle_fd k))
