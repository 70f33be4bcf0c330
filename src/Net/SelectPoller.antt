-- ===== src/Net/SelectPoller.antt =====
-- net/SelectPoller.cpp: the poller for Windows. It keeps a list of events as epoll(7) would, which only the
-- updates of channels look at, and asks select(2), which is a parameter. The channels are in a store, by
-- their addresses.
pub mod Listed
pub mod Ready
pub mod Answers
mod Tests
use learning_tools.Prelude.{
  ℕ, zero, suc, ◌+◌, ◌*◌, Bool, true, false, not, ◌&&◌, ◌||◌, ◌==◌, ltb, leb, if◌then◌else◌, List,
  [], ◌∷◌, ◌++◌, length, replicate, Option, none, some,
}
use learning_tools.Net.Channel.{Channel, Index, k_new, at, has_bit, pollin, pollout, is_none_event}

-- `struct epoll_event`; the null pointer of an entry that `resize` makes is the address 0.
pub record Event : Type 0 where
  pub events : ℕ
  pub ptr : ℕ

-- `channels_` is in the order of the descriptors.
pub record Poller : Type 0 where
  pub channels : List (ℕ × ℕ)
  pub events : List Event
  pub store : ℕ → Channel

abbrev pub k_added : ℕ
k_added = 1

abbrev pub k_deleted : ℕ
k_deleted = 2

unfoldable pub find : ℕ → List (ℕ × ℕ) → Option ℕ
find fd [] = none
find fd ((fd', a) ∷ cs) = let rest = find fd cs in if fd == fd' then some a else rest

-- `channels_[fd] = channel`.
unfoldable pub put : ℕ → ℕ → List (ℕ × ℕ) → List (ℕ × ℕ)
put fd a [] = (fd, a) ∷ []
put fd a ((fd', a') ∷ cs) =
    let rest = put fd a cs in
    if ltb fd fd'
    then (fd, a) ∷ (fd', a') ∷ cs
    else if fd == fd'
    then (fd, a) ∷ cs
    else (fd', a') ∷ rest

unfoldable pub erase : ℕ → List (ℕ × ℕ) → List (ℕ × ℕ)
erase fd [] = []
erase fd ((fd', a') ∷ cs) = let rest = erase fd cs in if fd == fd' then cs else (fd', a') ∷ rest

abbrev pub is_entry : Option ℕ → ℕ → Bool
is_entry none address = false
is_entry (some a) address = a == address

abbrev pub is_some : Option ℕ → Bool
is_some none = false
is_some (some _) = true

unfoldable pub has_channel : ℕ → Poller → Bool
unfolding find
has_channel a s = is_entry (find (s.store a).fd s.channels) a

unfoldable pub write : (ℕ → Channel) → ℕ → Channel → ℕ → Channel
write store a c a' = if a == a' then c else store a'

unfoldable pub set_index : ℕ → Index → Poller → Poller
unfolding write
set_index a i s = record s { store = write s.store a (record (s.store a) { index = i }) }

-- The loops of `update`, for XEPOLL_CTL_DEL and XEPOLL_CTL_MOD; `none` where they find nothing.
unfoldable pub delete : ℕ → List Event → Option (List Event)
delete a [] = none
delete a (e ∷ es) =
    let rest = delete a es in
    if e.ptr == a then some es else (elim rest [ none ↦ none | some es' ↦ some (e ∷ es') ])

unfoldable pub modify : ℕ → ℕ → List Event → Option (List Event)
modify a events [] = none
modify a events (e ∷ es) =
    let rest = modify a events es in
    if e.ptr == a
    then some (record e { events = events } ∷ es)
    else (elim rest [ none ↦ none | some es' ↦ some (e ∷ es') ])

pub data Op : Type 0 where
  ctl_add ctl_mod ctl_del : Op

abbrev pub updated : Poller → Option (List Event) → Bool × Poller
updated s none = (false, s)
updated s (some es) = (true, record s { events = es })

unfoldable pub update : Op → ℕ → Poller → Bool × Poller
unfolding delete modify
update ctl_add a s =
    (true, record s { events = s.events ++ record { events = (s.store a).events; ptr = a } ∷ [] })
update ctl_mod a s = updated s (modify a (s.store a).events s.events)
update ctl_del a s = updated s (delete a s.events)

unfoldable pub update_new : ℕ → Poller → Bool × Poller
unfolding find put set_index update
update_new a s =
    let fd = (s.store a).fd in
    if is_some (find fd s.channels)
    then (false, s)
    else update ctl_add a (set_index a (at k_added) (record s { channels = put fd a s.channels }))

unfoldable pub update_deleted : ℕ → Poller → Bool × Poller
unfolding has_channel set_index update
update_deleted a s =
    if has_channel a s then update ctl_add a (set_index a (at k_added) s) else (false, s)

unfoldable pub update_added : ℕ → ℕ → Poller → Bool × Poller
unfolding has_channel set_index update
update_added a index s =
    let (ok, s') = update ctl_del a s in
    if not (has_channel a s) || not (index == k_added)
    then (false, s)
    else if is_none_event (s.store a)
    then (if ok then (true, set_index a (at k_deleted) s') else (false, s'))
    else update ctl_mod a s

unfoldable pub update_channel : ℕ → Poller → Bool × Poller
unfolding update_new update_deleted update_added
update_channel a s = elim (s.store a).index [
  | k_new ↦ update_new a s
  | at n ↦ if n == k_deleted then update_deleted a s else update_added a n s
]

-- The call that would take the channel from the list of events is commented out.
unfoldable pub remove_channel : ℕ → Poller → Poller
unfolding has_channel erase set_index
remove_channel a s =
    let fd = (s.store a).fd in
    if not (has_channel a s) || not (is_none_event (s.store a))
    then s
    else set_index a k_new (record s { channels = erase fd s.channels })

-- The descriptors of the channels that ask for the event. FD_SET leaves out what comes when there are
-- FD_SETSIZE of them: `room` is what is left.
unfoldable pub fd_set : ℕ → ℕ → (ℕ → Channel) → List (ℕ × ℕ) → List ℕ
fd_set zero weight store cs = []
fd_set (suc room) weight store [] = []
fd_set (suc room) weight store ((fd, a) ∷ cs) =
    let more = fd_set room weight store cs in
    let rest = fd_set (suc room) weight store cs in
    if has_bit (store a).events weight then fd ∷ more else rest

-- FD_ISSET
unfoldable pub is_set : List ℕ → ℕ → Bool
is_set [] fd = false
is_set (fd' ∷ fds) fd = (fd == fd') || is_set fds fd

unfoldable pub max_fd : ℕ → List (ℕ × ℕ) → ℕ
max_fd maxfd [] = maxfd
max_fd maxfd ((fd, a) ∷ cs) = max_fd (if ltb maxfd fd then fd else maxfd) cs

unfoldable pub add_revents : ℕ → Channel → Channel
add_revents weight c = record c {
  revents = if has_bit c.revents weight then c.revents else c.revents + weight;
}

abbrev pub is_ready : (ℕ → Bool) → (ℕ → Bool) → ℕ → Bool
is_ready readfds writefds fd = readfds fd || writefds fd

unfoldable pub mark : (ℕ → Bool) → (ℕ → Bool) → ℕ → Channel → Channel
unfolding add_revents
mark readfds writefds fd c =
    let c' = if readfds fd then add_revents pollin c else c in
    if writefds fd then add_revents pollout c' else c'

-- The channels that became active; the loop ends at the channel with which there are `num_events`.
unfoldable pub fill_active_channels :
    ℕ → (ℕ → Bool) → (ℕ → Bool) → ℕ → List (ℕ × ℕ) → (ℕ → Channel) → List ℕ × (ℕ → Channel)
unfolding write mark
fill_active_channels num_events readfds writefds count [] store = ([], store)
fill_active_channels num_events readfds writefds count ((fd, a) ∷ cs) store =
    let store' = write store a (mark readfds writefds fd (store a)) in
    let (active, store'') =
      fill_active_channels num_events readfds writefds (count + 1) cs store' in
    let rest = fill_active_channels num_events readfds writefds count cs store in
    if not (is_ready readfds writefds fd)
    then rest
    else if leb num_events (count + 1)
    then (a ∷ [], store')
    else (a ∷ active, store'')

-- select(2): the two sets that it leaves, and how many descriptors they have in all; `none` is an error.
abbrev pub Select : Type 0
Select = ℕ → List ℕ → List ℕ → Option (ℕ × List ℕ × List ℕ)

-- `events_.resize(events_.size() * 2)`.
unfoldable pub grow : ℕ → List Event → List Event
grow num_events es =
    if num_events == length es
    then es ++ replicate (length es) (record { events = 0; ptr = 0 })
    else es

unfoldable pub poll : ℕ → Select → Poller → List ℕ × Poller
unfolding fd_set max_fd is_set fill_active_channels grow
poll fd_setsize select s =
    let answer =
      select (max_fd 0 s.channels + 1) (fd_set fd_setsize pollin s.store s.channels)
        (fd_set fd_setsize pollout s.store s.channels) in
    elim answer [
      | none ↦ ([], s)
      | some (num_events, readfds, writefds) ↦
          let (active, store) =
            fill_active_channels num_events (is_set readfds) (is_set writefds) 0 s.channels
              s.store in
          if num_events == 0
          then ([], s)
          else (active, record s { store = store; events = grow num_events s.events })
    ]
