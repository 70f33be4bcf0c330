-- ===== src/Net/PollPoller.antt =====
-- net/PollPoller.cpp: the array that poll(2) is given, and the channels by their descriptors. The channels are
-- in a store, by their addresses, since a call changes the index of another channel.
pub mod Slots
pub mod Consistent
pub mod Removal
pub mod Polls
pub mod Calls
mod Tests
use learning_tools.Prelude.Int.{ℤ, pos, negsuc}
use learning_tools.Prelude.{
  ℕ, ◌+◌, ◌-◌, Bool, true, false, not, ◌&&◌, ◌||◌, ◌==◌, ltb, leb, if◌then◌else◌, List, [], ◌∷◌,
  ◌++◌, length, take, get_elem?, set, Option, none, some,
}
use learning_tools.Net.Channel.{Channel, Index, k_new, at, is_none_event}

-- `struct pollfd`. poll(2) leaves out an entry whose descriptor is negative.
pub record PollFd : Type 0 where
  pub fd : ℤ
  pub events : ℕ
  pub revents : ℕ

pub record Poller : Type 0 where
  pub channels : ℕ → Option ℕ
  pub pollfds : List PollFd
  pub store : ℕ → Channel

abbrev pub is_entry : Option ℕ → ℕ → Bool
is_entry none address = false
is_entry (some a) address = a == address

abbrev pub is_some : Option ℕ → Bool
is_some none = false
is_some (some _) = true

-- `channels_[fd] = channel` and `channels_.erase(fd)`.
unfoldable pub put : (ℕ → Option ℕ) → ℕ → Option ℕ → ℕ → Option ℕ
put channels fd entry fd' = if fd == fd' then entry else channels fd'

-- A write to the channel at an address.
unfoldable pub write : (ℕ → Channel) → ℕ → Channel → ℕ → Channel
write store a c a' = if a == a' then c else store a'

unfoldable pub set_index : (ℕ → Channel) → ℕ → ℕ → ℕ → Channel
unfolding write
set_index store a idx = write store a (record (store a) { index = at idx })

-- -fd - 1, which is how an entry is put out of use, and back.
abbrev pub owner : ℤ → ℕ
owner (pos fd) = fd
owner (negsuc fd) = fd

unfoldable pub add_new : ℕ → Poller → Poller
unfolding put set_index
add_new a s =
    let c = s.store a in
    record {
      channels = put s.channels c.fd (some a);
      pollfds = s.pollfds ++ record { fd = pos c.fd; events = c.events; revents = 0 } ∷ [];
      store = set_index s.store a (length s.pollfds);
    }

unfoldable pub renew : Channel → PollFd → PollFd
renew c pfd = record {
  fd = if is_none_event c then negsuc c.fd else pfd.fd;
  events = c.events;
  revents = 0;
}

unfoldable pub update_existing : Poller → Channel → ℕ → Bool × Poller
unfolding renew
update_existing s c idx = elim (get_elem? s.pollfds idx) [
  | none ↦ (false, s)
  | some pfd ↦ (true, record s { pollfds = set s.pollfds idx (renew c pfd) })
]

-- `updateChannel` of the channel at the address `a`.
unfoldable pub update_channel : ℕ → Poller → Bool × Poller
unfolding add_new update_existing
update_channel a s =
    let c = s.store a in
    elim c.index [
      | k_new ↦ if is_some (s.channels c.fd) then (false, s) else (true, add_new a s)
      | at idx ↦ if is_entry (s.channels c.fd) a then update_existing s c idx else (false, s)
    ]

-- The last entry goes to the place of the one at `idx`, and its channel gets that index; `none` is a call
-- through a null pointer.
unfoldable pub swap_out : Poller → ℕ → PollFd → Option Poller
unfolding set_index
swap_out s idx last = elim (s.channels (owner last.fd)) [
  | none ↦ none
  | some b ↦ some (record s {
    pollfds = take (length s.pollfds - 1) (set s.pollfds idx last);
    store = set_index s.store b idx;
  })
]

-- The end of `removeChannel`, behind the erase; `none` is a place outside the array.
unfoldable pub remove_at : Poller → ℕ → Option Poller
unfolding swap_out
remove_at s idx =
    if idx + 1 == length s.pollfds
    then some (record s { pollfds = take (length s.pollfds - 1) s.pollfds })
    else if leb (length s.pollfds) idx
    then none
    else (elim (get_elem? s.pollfds (length s.pollfds - 1)) [
      | none ↦ none
      | some last ↦ swap_out s idx last
    ])

unfoldable pub remove_channel : ℕ → Poller → Option Poller
unfolding remove_at put
remove_channel a s =
    let c = s.store a in
    if not (is_entry (s.channels c.fd) a) || not (is_none_event c) then some s else elim c.index [
      | k_new ↦ none
      | at idx ↦ remove_at (record s { channels = put s.channels c.fd none }) idx
    ]

-- The channel of an entry; a negative descriptor is in no map.
unfoldable pub find : Poller → ℤ → Option ℕ
find s (pos fd) = elim (s.channels fd) [
  | none ↦ none
  | some a ↦ if (s.store a).fd == fd then some a else none
]
find s (negsuc fd) = none

-- What became active, and the store with the events that happened.
unfoldable pub fill_active_channels : ℕ → List PollFd → Poller → List ℕ × Poller
unfolding find write
fill_active_channels num_events [] s = ([], s)
fill_active_channels num_events (pfd ∷ pfds) s =
    if num_events == 0
    then ([], s)
    else if pfd.revents == 0
    then fill_active_channels num_events pfds s
    else (elim (find s pfd.fd) [
      | none ↦ fill_active_channels (num_events - 1) pfds s
      | some a ↦
          let s' = record s {
            store = write s.store a (record (s.store a) { revents = pfd.revents });
          } in
          let (active, s'') = fill_active_channels (num_events - 1) pfds s' in (a ∷ active, s'')
    ])

-- What poll(2) writes.
unfoldable pub set_revents : List PollFd → List ℕ → List PollFd
set_revents [] rs = []
set_revents (pfd ∷ pfds) [] = pfd ∷ pfds
set_revents (pfd ∷ pfds) (r ∷ rs) = record pfd { revents = r } ∷ set_revents pfds rs

-- `none` is an error; otherwise the events of the entries, and how many of them have some.
unfoldable pub poll : Option (ℕ × List ℕ) → Poller → List ℕ × Poller
unfolding fill_active_channels set_revents
poll none s = ([], s)
poll (some (num_events, revents)) s =
    let pollfds = set_revents s.pollfds revents in
    if num_events == 0
    then ([], record s { pollfds = pollfds })
    else fill_active_channels num_events pollfds (record s { pollfds = pollfds })
