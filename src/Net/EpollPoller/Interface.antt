-- ===== src/Net/EpollPoller/Interface.antt =====
-- net/EpollPoller.cpp as the poller of a connection.
use learning_tools.Prelude.{◌≡◌, arith, Bool, ◌==◌, if◌then◌else◌}
use learning_tools.Net.Channel.{Channel, Index, k_new, at, Polling}
use learning_tools.Net.EpollPoller.{
  Epoll, Poller, add, update, update_new, update_deleted, update_added, update_channel,
  remove_channel, k_deleted,
}

module _ (ep : Epoll) where
  EventsKept : Channel → Bool × (Channel × Poller ep) → Type 0
  EventsKept c r = r.1.0.events ≡ c.events

  by_index :
      (s : Poller ep) (c : Channel) (i : Index)
      → EventsKept c (elim i [
        | k_new ↦ update_new ep s c
        | at n ↦ if n == k_deleted then update_deleted ep s c else update_added ep s c n
      ])
  unfolding EventsKept update_new update_deleted update_added add update
  by_index s c k_new = ground arith
  by_index s c (at n) = ground arith

  -- `updateChannel` changes the index of a channel, and never its events.
  pub update_channel-events :
      (s : Poller ep) (c : Channel) → (update_channel ep s c).1.0.events ≡ c.events
  unfolding update_channel EventsKept
  update_channel-events s c = by_index s c c.index

  abbrev pub epoll_polling : Polling
  epoll_polling = record {
    State = Poller ep;
    update = λ s c. update_channel ep s c;
    remove_channel = λ s c. remove_channel ep s c;
    update-events = λ s c. update_channel-events s c;
  }
