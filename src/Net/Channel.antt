-- ===== src/Net/Channel.antt =====
-- net/Channel.cpp: which events a descriptor waits for, and what is called when some have happened.
-- Sets of events are numbers with the bits of poll(2).
pub mod Dispatch
mod Tests
use learning_tools.Prelude.{
  ℕ, ◌≡◌, ◌+◌, ◌-◌, ◌*◌, ◌/◌, ◌%◌, Bool, true, false, not, ◌&&◌, ◌||◌, ◌==◌, if◌then◌else◌, List,
  [], ◌∷◌, ◌++◌,
}

-- `index_`, by which a poller remembers a channel: -1, or a number that the poller chose.
pub data Index : Type 0 where
  k_new : Index
  at : ℕ → Index

-- `address` stands for the pointer `this`. The callbacks are told apart only by whether they are set.
pub record Channel : Type 0 where
  pub address : ℕ
  pub fd : ℕ
  pub events : ℕ
  pub revents : ℕ
  pub index : Index
  pub tied : Bool
  pub read_callback : Bool
  pub write_callback : Bool
  pub close_callback : Bool
  pub error_callback : Bool

abbrev pub init : ℕ → ℕ → Channel
init address fd = record {
  address = address;
  fd = fd;
  events = 0;
  revents = 0;
  index = k_new;
  tied = false;
  read_callback = false;
  write_callback = false;
  close_callback = false;
  error_callback = false;
}

-- Whether the bit of the given weight is set.
abbrev pub has_bit : ℕ → ℕ → Bool
has_bit events weight = events / weight % 2 == 1

abbrev pub pollin : ℕ
pollin = 1

abbrev pub pollpri : ℕ
pollpri = 2

abbrev pub pollout : ℕ
pollout = 4

abbrev pub pollerr : ℕ
pollerr = 8

abbrev pub pollhup : ℕ
pollhup = 16

abbrev pub pollnval : ℕ
pollnval = 32

abbrev pub pollrdhup : ℕ
pollrdhup = 8192

abbrev pub is_none_event : Channel → Bool
is_none_event c = c.events == 0

abbrev pub is_writing : Channel → Bool
is_writing c = has_bit c.events pollout

-- `updateChannel` of the poller behind the loop: its result, the channel and the poller afterwards.
abbrev pub Update : Type 0 → Type 0
Update S = S → Channel → Bool × (Channel × S)

-- `kReadEvent` is the two lowest bits.
module _ {S : Type 0} (update : Update S) (s : S) (c : Channel) where
  unfoldable pub enable_reading : Bool × (Channel × S)
  enable_reading = update s (record c { events = c.events / 4 * 4 + 3 })

  unfoldable pub disable_reading : Bool × (Channel × S)
  disable_reading = update s (record c { events = c.events / 4 * 4 })

  unfoldable pub enable_writing : Bool × (Channel × S)
  enable_writing = update s (record c { events = if is_writing c then c.events else c.events + 4 })

  unfoldable pub disable_writing : Bool × (Channel × S)
  disable_writing = update s (record c { events = if is_writing c then c.events - 4 else c.events })

  unfoldable pub disable_all : Bool × (Channel × S)
  disable_all = update s (record c { events = 0 })

-- `remove_channel` of the poller.
unfoldable pub remove : {S : Type 0} → (S → Channel → Channel × S) → S → Channel → Channel × S
remove remove_channel s c = if not (is_none_event c) then (c, s) else remove_channel s c

-- What a connection needs of the poller behind its loop: that a call leaves the events of the channel
-- as they are.
pub record Polling : Type 1 where
  pub State : Type 0
  pub update : Update State
  pub remove_channel : State → Channel → Channel × State
  pub update-events : (s : State) (c : Channel) → (update s c).1.0.events ≡ c.events

pub data Call : Type 0 where
  close error read write : Call

-- One of the guarded calls.
abbrev pub call_if : Bool → Call → List Call
call_if true k = k ∷ []
call_if false k = []

unfoldable pub handle_event_with_guard : Channel → List Call
handle_event_with_guard c =
    call_if (has_bit c.revents pollhup && not (has_bit c.revents pollin) && c.close_callback) close
    ++ call_if ((has_bit c.revents pollerr || has_bit c.revents pollnval) && c.error_callback) error
    ++ call_if
        ((has_bit c.revents pollin || has_bit c.revents pollpri || has_bit c.revents pollrdhup)
          && c.read_callback)
        read
    ++ call_if (has_bit c.revents pollout && c.write_callback) write

-- `alive`: the owner that the channel is tied to still exists.
unfoldable pub handle_event : Channel → Bool → List Call
unfolding handle_event_with_guard
handle_event c alive =
    if c.tied then (if alive then handle_event_with_guard c else []) else handle_event_with_guard c
