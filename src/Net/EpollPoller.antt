-- ===== src/Net/EpollPoller.antt =====
-- net/EpollPoller.cpp: the channels that a poller watches. The kernel's epoll object is a parameter.
pub mod Registration
pub mod Faults
pub mod Interface
mod Tests
use learning_tools.Prelude.{
  ℕ, ◌*◌, ◌≡◌, ◌≢◌, Bool, true, false, not, ◌||◌, ◌&&◌, ◌==◌, if◌then◌else◌, List, [], ◌∷◌, ◌++◌,
  length, Option, none, some,
}
use learning_tools.Net.Channel.{Channel, Index, k_new, at, is_none_event}

pub data Op : Type 0 where
  ctl_add ctl_mod ctl_del : Op

abbrev pub is_add : Op → Bool
is_add ctl_add = true
is_add ctl_mod = false
is_add ctl_del = false

abbrev pub is_set : Op → Bool
is_set ctl_add = true
is_set ctl_mod = true
is_set ctl_del = false

-- What epoll_ctl(2) and epoll_wait(2) work on. `ctl` answers whether the call succeeded; `interest` is
-- what the kernel watches a descriptor for, with the pointer that was registered.
pub record Epoll : Type 1 where
  pub Kernel : Type 0
  pub ctl : Kernel → Op → ℕ → ℕ → ℕ → Bool × Kernel
  pub interest : Kernel → ℕ → Option (ℕ × ℕ)

-- epoll_ctl(2): a call that fails changes nothing, a call concerns one descriptor, and ENOENT and
-- EEXIST.
pub record IsEpoll (ep : Epoll) : Type 0 where
  pub failed :
      (k : ep.Kernel) (op : Op) (fd events ptr fd' : ℕ)
      → (ep.ctl k op fd events ptr).0 ≡ false
      → ep.interest (ep.ctl k op fd events ptr).1 fd' ≡ ep.interest k fd'
  pub set :
      (k : ep.Kernel) (op : Op) (fd events ptr : ℕ)
      → is_set op ≡ true
      → (ep.ctl k op fd events ptr).0 ≡ true
      → ep.interest (ep.ctl k op fd events ptr).1 fd ≡ some (events, ptr)
  pub deleted :
      (k : ep.Kernel) (fd events ptr : ℕ)
      → (ep.ctl k ctl_del fd events ptr).0 ≡ true
      → ep.interest (ep.ctl k ctl_del fd events ptr).1 fd ≡ none
  pub other :
      (k : ep.Kernel) (op : Op) (fd events ptr fd' : ℕ)
      → fd ≢ fd'
      → ep.interest (ep.ctl k op fd events ptr).1 fd' ≡ ep.interest k fd'
  pub not_there :
      (k : ep.Kernel) (op : Op) (fd events ptr : ℕ)
      → is_add op ≡ false
      → ep.interest k fd ≡ none
      → (ep.ctl k op fd events ptr).0 ≡ false

-- kAdded and kDeleted; kNew is `k_new`.
abbrev pub k_added : ℕ
k_added = 1

abbrev pub k_deleted : ℕ
k_deleted = 2

-- Whether `channels_` has this very channel: a missing entry is not it.
abbrev pub is_entry : Option ℕ → ℕ → Bool
is_entry none address = false
is_entry (some a) address = a == address

abbrev pub is_some : Option ℕ → Bool
is_some none = false
is_some (some _) = true

-- `channels_[fd] = channel` and `channels_.erase(fd)`.
unfoldable pub put : (ℕ → Option ℕ) → ℕ → Option ℕ → ℕ → Option ℕ
put channels fd entry fd' = if fd == fd' then entry else channels fd'

module _ (ep : Epoll) where
  -- `events_` is the array that the kernel fills; only its size is state.
  pub record Poller : Type 0 where
    pub kernel : ep.Kernel
    pub channels : ℕ → Option ℕ
    pub events_size : ℕ

  unfoldable pub has_channel : Poller → Channel → Bool
  has_channel s c = is_entry (s.channels c.fd) c.address

  unfoldable pub update : Op → Poller → Channel → Bool × Poller
  update op s c =
      let (ok, kernel) = ep.ctl s.kernel op c.fd c.events c.address in
      (ok, record s { kernel = kernel })

  -- The end of the first branch of `updateChannel`: the index is set before the kernel is asked.
  add : Poller → Channel → Bool × (Channel × Poller)
  unfolding update
  add s c =
      let c' = record c { index = at k_added } in
      let (ok, s') = update ctl_add s c' in (ok, (c', s'))

  update_new : Poller → Channel → Bool × (Channel × Poller)
  unfolding add put
  update_new s c =
      if is_some (s.channels c.fd)
      then (false, (c, s))
      else add (record s { channels = put s.channels c.fd (some c.address) }) c

  update_deleted : Poller → Channel → Bool × (Channel × Poller)
  unfolding add has_channel
  update_deleted s c = if has_channel s c then add s c else (false, (c, s))

  update_added : Poller → Channel → ℕ → Bool × (Channel × Poller)
  unfolding update has_channel
  update_added s c index =
      if not (has_channel s c) || not (index == k_added)
      then (false, (c, s))
      else if is_none_event c
      then (let (ok, s') = update ctl_del s c in
          (ok, ((if ok then record c { index = at k_deleted } else c), s')))
      else (let (ok, s') = update ctl_mod s c in (ok, (c, s')))

  unfoldable pub update_channel : Poller → Channel → Bool × (Channel × Poller)
  unfolding update_new update_deleted update_added
  update_channel s c = elim c.index [
    | k_new ↦ update_new s c
    | at n ↦ if n == k_deleted then update_deleted s c else update_added s c n
  ]

  erase : Poller → Channel → ℕ → Channel × Poller
  unfolding update put
  erase s c index =
      let s' = record s { channels = put s.channels c.fd none } in
      let s'' = if index == k_added then (update ctl_del s' c).1 else s' in
      (record c { index = k_new }, s'')

  unfoldable pub remove_channel : Poller → Channel → Channel × Poller
  unfolding erase has_channel
  remove_channel s c =
      if not (has_channel s c) || not (is_none_event c) then (c, s) else elim c.index [
        | k_new ↦ (c, s)
        | at n ↦ if not (n == k_added) && not (n == k_deleted) then (c, s) else erase s c n
      ]

  -- An event that the kernel delivers: the bits and the pointer. `fd_of` reads the descriptor behind a
  -- pointer. An event of a channel that is not watched ends the loop.
  unfoldable pub fill_active_channels : Poller → (ℕ → ℕ) → List (ℕ × ℕ) → List (ℕ × ℕ)
  fill_active_channels s fd_of [] = []
  fill_active_channels s fd_of ((revents, ptr) ∷ es) =
      let rest = fill_active_channels s fd_of es in
      if is_entry (s.channels (fd_of ptr)) ptr then (ptr, revents) ∷ rest else []

  -- `epoll_wait` fills no more than `events_size` entries; `none` is an error.
  unfoldable pub poll : Poller → (ℕ → ℕ) → Option (List (ℕ × ℕ)) → List (ℕ × ℕ) × Poller
  unfolding fill_active_channels
  poll s fd_of none = ([], s)
  poll s fd_of (some []) = ([], s)
  poll s fd_of (some (e ∷ es)) =
      let size = if length (e ∷ es) == s.events_size then s.events_size * 2 else s.events_size in
      (fill_active_channels s fd_of (e ∷ es), record s { events_size = size })
