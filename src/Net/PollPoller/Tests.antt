-- ===== src/Net/PollPoller/Tests.antt =====
-- Three channels of net/PollPoller.cpp that come and go.
use learning_tools.Prelude.Int.{pos, negsuc}
use learning_tools.Prelude.{
  Bool-cases, inl, inr, ℕ, zero, suc, ◌+◌, ◌≡◌, refl, arith, Bool, true, false, List, [], ◌∷◌,
  Option, none, some, map, ◌==◌, if◌then◌else◌,
}
use learning_tools.Net.Channel.{Channel, k_new, at}
use learning_tools.Net.Channel
use learning_tools.Net.PollPoller.{
  Poller, owner, put, write, set_index, add_new, renew, update_existing, update_channel, swap_out,
  remove_at, remove_channel, set_revents, find, fill_active_channels, poll,
}
use learning_tools.Net.PollPoller.Slots.{owner_at}
use learning_tools.Net.PollPoller.Consistent.{Entry, Slot, IsConsistent}
use learning_tools.Net.PollPoller.Polls.{reported, poll-reported}
use learning_tools.Net.PollPoller.Calls.{
  Call, updates, removes, polls, set_events, step, runs, runs-IsConsistent,
}

-- The channel at the address `a` has the descriptor `a` + 10.
abbrev fresh : ℕ → Channel
fresh a = Channel.init a (a + 10)

abbrev empty : Poller
empty = record { channels = (λ fd. none); pollfds = []; store = fresh }

empty-IsConsistent : IsConsistent empty
empty-IsConsistent = record {
  entry = λ fd a e. ground (arith, e);
  slot = λ i fd e. ground (arith, e);
}

-- The first channel leaves, and the last entry takes its place.
abbrev calls : List Call
calls =
    updates 1 3
    ∷ updates 2 3
    ∷ updates 3 3
    ∷ polls (some (1, 0 ∷ 1 ∷ 0 ∷ []))
    ∷ updates 1 0
    ∷ removes 1
    ∷ []

runs-IsConsistent_example : (s' : Poller) × ((runs calls empty ≡ some s') × IsConsistent s')
runs-IsConsistent_example = runs-IsConsistent calls empty empty-IsConsistent

abbrev pollfds_of : Option Poller → List ℕ
pollfds_of none = []
pollfds_of (some s) = map (λ p. owner p.fd) s.pollfds

left : pollfds_of (runs calls empty) ≡ 13 ∷ 12 ∷ []
unfolding runs step set_events update_channel add_new put set_index write update_existing renew
    remove_channel remove_at swap_out poll set_revents fill_active_channels find
left = refl

-- A channel that left keeps its index, and cannot come back.
abbrev one : Poller
one = record empty {
  channels = (λ fd. if fd == 11 then some 1 else none);
  pollfds = record { fd = pos 11; events = 3; revents = 0 } ∷ [];
  store = (λ a. if a == 1 then record (fresh 1) { index = at 0; events = 3 } else fresh a);
}

abbrev updated : Option Poller → Bool
updated none = true
updated (some s) = (update_channel 1 s).0

comes_back : updated (runs (updates 1 0 ∷ removes 1 ∷ []) one) ≡ false
unfolding runs step set_events update_channel add_new put set_index write update_existing renew
    remove_channel remove_at swap_out
comes_back = refl

one-Slot : (i fd : ℕ) → owner_at one.pollfds i ≡ some fd → Slot one i fd
one-Slot zero fd e = (1, (ground (arith, e), refl))
one-Slot (suc i) fd e = ground (arith, e)

one-IsConsistent : IsConsistent one
one-IsConsistent = record {
  entry = λ fd a e. (ground (arith, e), (0, (ground (arith, e), ground (arith, e))));
  slot = one-Slot;
}

ready : (poll (some (2, 1 ∷ [])) one).0 ≡ 1 ∷ []
unfolding poll set_revents fill_active_channels find write
ready = refl

-- The first entry is out of use, and the second has events.
abbrev two : Poller
two = record one {
  channels = (λ fd. if fd == 11 then some 1 else if fd == 12 then some 2 else none);
  pollfds =
      record { fd = negsuc 11; events = 0; revents = 0 }
      ∷ record { fd = pos 12; events = 3; revents = 0 }
      ∷ [];
  store = (λ a.
      if a == 1
      then record (fresh 1) { index = at 0 }
      else if a == 2
      then record (fresh 2) { index = at 1; events = 3 }
      else fresh a);
}

two-Slot : (i fd : ℕ) → owner_at two.pollfds i ≡ some fd → Slot two i fd
two-Slot zero fd e = (1, (ground (arith, e), refl))
two-Slot (suc zero) fd e = (2, (ground (arith, e), refl))
two-Slot (suc (suc i)) fd e = ground (arith, e)

two-Entry : (fd a : ℕ) → two.channels fd ≡ some a → Entry two fd a
two-Entry fd a e = elim (Bool-cases (fd == 11)) [
  | inl first ↦
      (ground (arith, e, first), (0, (ground (arith, e, first), ground (arith, e, first))))
  | inr other ↦
      (ground (arith, e, other), (1, (ground (arith, e, other), ground (arith, e, other))))
]

poll-reported_example :
    (poll (some (1, 0 ∷ 1 ∷ [])) two).0
    ≡ reported two.channels (set_revents two.pollfds (0 ∷ 1 ∷ []))
unfolding set_revents
poll-reported_example =
    poll-reported 1 (0 ∷ 1 ∷ []) two (record { entry = two-Entry; slot = two-Slot }) refl
