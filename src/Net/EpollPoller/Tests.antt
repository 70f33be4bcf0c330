-- ===== src/Net/EpollPoller/Tests.antt =====
-- Runs of the poller over an epoll object that keeps a table, and takes descriptors below a limit.
use learning_tools.Prelude.{
  ℕ, ◌≡◌, ◌≢◌, refl, arith, Bool, true, false, not, ◌&&◌, Option, none, some, ltb, ◌==◌,
  if◌then◌else◌, inl,
}
use learning_tools.Net.Channel.{Channel, init, at}
use learning_tools.Net.EpollPoller.{
  Op, ctl_add, ctl_mod, ctl_del, is_add, is_set, Epoll, IsEpoll, Poller, update_channel,
  remove_channel, k_added,
}
use learning_tools.Net.EpollPoller.Registration.{
  IsNew, update_channel-IsRegistered, IsRegistered, watched, remove_channel_lem,
}

abbrev Table : Type 0
Table = ℕ → Option (ℕ × ℕ)

abbrev is_there : Option (ℕ × ℕ) → Bool
is_there none = false
is_there (some _) = true

abbrev store : Table → ℕ → Option (ℕ × ℕ) → Table
store t fd entry fd' = if fd == fd' then entry else t fd'

abbrev answer : Table → Op → ℕ → Bool
answer t ctl_add fd = not (is_there (t fd)) && ltb fd 100
answer t ctl_mod fd = is_there (t fd)
answer t ctl_del fd = is_there (t fd)

abbrev entry_of : Op → ℕ → ℕ → Option (ℕ × ℕ)
entry_of ctl_add events ptr = some (events, ptr)
entry_of ctl_mod events ptr = some (events, ptr)
entry_of ctl_del events ptr = none

abbrev table_epoll : Epoll
table_epoll = record {
  Kernel = Table;
  ctl = λ t op fd events ptr.
      (answer t op fd, if answer t op fd then store t fd (entry_of op events ptr) else t);
  interest = λ t fd. t fd;
}

same_store : (t : Table) (fd : ℕ) (entry : Option (ℕ × ℕ)) → store t fd entry fd ≡ entry
same_store t fd entry = ground arith

other_store :
    (t : Table) (fd fd' : ℕ) (entry : Option (ℕ × ℕ)) → fd ≢ fd' → store t fd entry fd' ≡ t fd'
other_store t fd fd' entry ne = ground arith

set_entry :
    (op : Op) (events ptr : ℕ) → is_set op ≡ true → entry_of op events ptr ≡ some (events, ptr)
set_entry ctl_add events ptr h = refl
set_entry ctl_mod events ptr h = refl
set_entry ctl_del events ptr h = ground arith

other_entry :
    (b : Bool) (t : Table) (fd fd' : ℕ) (entry : Option (ℕ × ℕ))
    → fd ≢ fd'
    → (if b then store t fd entry else t) fd' ≡ t fd'
other_entry true t fd fd' entry ne = other_store t fd fd' entry ne
other_entry false t fd fd' entry ne = refl

refuses : (t : Table) (op : Op) (fd : ℕ) → is_add op ≡ false → t fd ≡ none → answer t op fd ≡ false
refuses t ctl_add fd h e = ground arith
refuses t ctl_mod fd h e = rw e
refuses t ctl_del fd h e = rw e

table_epoll-IsEpoll : IsEpoll table_epoll
table_epoll-IsEpoll = record {
  failed = λ t op fd events ptr fd' fails. rw fails;
  set = λ t op fd events ptr h done.
      rw (done, set_entry op events ptr h) (same_store t fd (some (events, ptr)));
  deleted = λ t fd events ptr done. rw done (same_store t fd none);
  other = λ t op fd events ptr fd' ne.
      other_entry (answer t op fd) t fd fd' (entry_of op events ptr) ne;
  not_there = λ t op fd events ptr h e. refuses t op fd h e;
}

abbrev empty : Poller table_epoll
empty = record { kernel = λ fd. none; channels = λ fd. none; events_size = 16 }

abbrev listener : Channel
listener = record (init 5000 7) { events = 3 }

abbrev beyond : Channel
beyond = record (init 6000 100) { events = 3 }

abbrev known : Poller table_epoll
known = record {
  kernel = store (λ fd. none) 7 (some (3, 5000));
  channels = λ fd. if 7 == fd then some 5000 else none;
  events_size = 16;
}

granted : (update_channel table_epoll empty listener).0 ≡ true
unfolding update_channel
granted = refl

update_channel-IsRegistered_example :
    let (_, (c, s)) = update_channel table_epoll empty listener in
    IsRegistered table_epoll s c
    × (watched (s.kernel 7) ≡ 3)
    × (s.kernel 8 ≡ none)
    × (s.channels 8 ≡ none)
update_channel-IsRegistered_example =
    update_channel-IsRegistered table_epoll table_epoll-IsEpoll empty listener 8
      (inl (refl, refl, refl)) granted (omega arith)

remove_channel_lem_example :
    let (c, s) = remove_channel table_epoll known (record (init 5000 7) { index = at k_added }) in
    IsNew table_epoll s c
remove_channel_lem_example =
    remove_channel_lem table_epoll table_epoll-IsEpoll known
      (record (init 5000 7) { index = at k_added }) refl (inl ((refl, refl, (3, refl)), refl))

refused : (update_channel table_epoll empty beyond).0 ≡ false
unfolding update_channel
refused = refl
