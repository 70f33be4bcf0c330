-- ===== src/Net/SelectPoller/Tests.antt =====
-- Two channels of net/SelectPoller.cpp.
use learning_tools.Prelude.{
  ℕ, ◌+◌, ◌≡◌, refl, true, false, ◌==◌, [], ◌∷◌, some, length, arith, Bool, inl, inr, if◌then◌else◌,
}
use learning_tools.Net.Channel.{Channel, k_new, at, has_bit, pollout}
use learning_tools.Net.Channel
use learning_tools.Net.SelectPoller.{
  Poller, Select, find, has_channel, set_index, update_channel, erase, remove_channel, max_fd,
  fd_set, poll,
}
use learning_tools.Net.SelectPoller.Listed.{IsListed, watches, asked, update_channel-IsListed}
use learning_tools.Net.SelectPoller.Answers.{kept, IsSelect, all_distinct, wanted, poll-wanted}

-- The channel at the address `a` has the descriptor `a` + 10, and asks for both.
abbrev busy : ℕ → Channel
busy a = record (Channel.init a (a + 10)) { events = 7; index = at 1 }

abbrev both : Poller
both = record {
  channels = (11, 1) ∷ (12, 2) ∷ [];
  events = record { events = 7; ptr = 1 } ∷ record { events = 7; ptr = 2 } ∷ [];
  store = busy;
}

-- 11 is ready to be read and written, and 12 to be read.
abbrev can_write : ℕ → Bool
can_write fd = fd == 11

abbrev system_select : Select
system_select nfds readfds writefds =
    let rs = kept false (λ fd. true) nfds readfds in
    let ws = kept false can_write nfds writefds in some (length rs + length ws, rs, ws)

system_select-IsSelect : IsSelect system_select false (λ fd. true) can_write
system_select-IsSelect = record {
  leaves = λ nfds num rs ws rs' ws' e. (ground (arith, e), (ground (arith, e), ground (arith, e)));
}

poll-wanted_example :
    (poll 64 system_select both).0 ≡ wanted (λ fd. true) can_write both.store both.channels
unfolding fd_set all_distinct find max_fd kept
poll-wanted_example =
    poll-wanted 64 system_select false (λ fd. true) can_write both 3 (11 ∷ 12 ∷ []) (11 ∷ [])
      system_select-IsSelect refl (omega arith) refl

-- Channel 1 was ready to be written once, and asks for it no more.
abbrev quiet : Poller
quiet = record both {
  store = (λ a. record (busy a) { events = 3; revents = if a == 1 then 4 else 0 });
}

-- Nothing is ready.
abbrev nothing : Select
nothing nfds readfds writefds = some (0, [], [])

update_channel-IsListed_example :
    let (ok, s') = update_channel 1 both in
    (ok ≡ true)
    × IsListed 1 s'
    × (asked (watches 1 s'.events) ≡ 7)
    × (watches 2 s'.events ≡ watches 2 both.events)
unfolding find
update_channel-IsListed_example =
    update_channel-IsListed 1 2 both (inr (inl (refl, refl, (7, refl)))) refl

-- A channel that asks for nothing, and is removed while its index is kAdded, leaves its entry.
abbrev idle : Poller
idle = record both { store = (λ a. record (busy a) { events = 0 }) }

left_over : watches 1 (remove_channel 1 idle).events ≡ 7 ∷ []
unfolding remove_channel erase set_index find has_channel
left_over = refl
