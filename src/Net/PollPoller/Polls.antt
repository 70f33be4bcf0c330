-- ===== src/Net/PollPoller/Polls.antt =====
-- net/PollPoller.cpp: what poll makes active, and what it leaves.
use learning_tools.Prelude.Int.{ℤ, pos, negsuc}
use learning_tools.Prelude.{
  ℕ, zero, suc, ◌+◌, ◌-◌, ◌≡◌, refl, sym, ap, ◌∙◌, Bool, true, false, not, ◌==◌, if◌then◌else◌,
  arith, List, [], ◌∷◌, Option, none, some, Bool-cases, Option-cases, inl, inr,
}
use learning_tools.Net.PollPoller.{
  PollFd, Poller, write, find, fill_active_channels, set_revents, poll,
}
use learning_tools.Net.PollPoller.Slots.{owner_at}
use learning_tools.Net.PollPoller.Consistent.{IsConsistent}

owner_at-set_revents :
    (ps : List PollFd) (rs : List ℕ) (i : ℕ) → owner_at (set_revents ps rs) i ≡ owner_at ps i
unfolding set_revents
owner_at-set_revents [] rs i = refl
owner_at-set_revents (p ∷ ps) [] i = refl
owner_at-set_revents (p ∷ ps) (r ∷ rs) zero = refl
owner_at-set_revents (p ∷ ps) (r ∷ rs) (suc i) = owner_at-set_revents ps rs i

set_revents-IsConsistent :
    (s : Poller) (rs : List ℕ)
    → IsConsistent s
    → IsConsistent (record s { pollfds = set_revents s.pollfds rs })
set_revents-IsConsistent s rs inv = record {
  entry = λ fd b e.
      let (own, (i, (place, owns))) = inv.entry fd b e in
      (own, (i, (place, owner_at-set_revents s.pollfds rs i ∙ owns)));
  slot = λ i fd e. inv.slot i fd (sym (owner_at-set_revents s.pollfds rs i) ∙ e);
}

-- The events that happened to the channel at `a`.
abbrev marked : Poller → ℕ → ℕ → Poller
marked s a revents = record s { store = write s.store a (record (s.store a) { revents = revents }) }

marked-IsConsistent :
    (s : Poller) (a revents : ℕ) → IsConsistent s → IsConsistent (marked s a revents)
unfolding write
marked-IsConsistent s a revents inv = record {
  entry = λ fd b e.
      let (own, (i, (place, owns))) = inv.entry fd b e in
      (ground (arith, own), (i, (ground (arith, place), owns)));
  slot = λ i fd e. let (b, (known, place)) = inv.slot i fd e in (b, (known, ground (arith, place)));
}

fill-IsConsistent :
    (num : ℕ) (ps : List PollFd) (s : Poller)
    → IsConsistent s
    → IsConsistent (fill_active_channels num ps s).1
unfolding fill_active_channels
fill-IsConsistent num [] s inv = inv
fill-IsConsistent num (p ∷ ps) s inv = elim (Bool-cases (num == 0)) [
  | inl enough ↦ rw (fill_active_channels, enough) inv
  | inr more ↦ elim (Bool-cases (p.revents == 0)) [
    | inl idle ↦ rw (fill_active_channels, more, idle) (fill-IsConsistent num ps s inv)
    | inr busy ↦ elim (Option-cases (find s p.fd)) [
      | inl lost ↦
          rw (fill_active_channels, more, busy, lost) (fill-IsConsistent (num - 1) ps s inv)
      | inr (a, found) ↦
          rw (fill_active_channels, more, busy, found)
            (fill-IsConsistent (num - 1) ps (marked s a p.revents)
              (marked-IsConsistent s a p.revents inv))
    ]
  ]
]

pub poll-IsConsistent :
    (answer : Option (ℕ × List ℕ)) (s : Poller) → IsConsistent s → IsConsistent (poll answer s).1
unfolding poll
poll-IsConsistent none s inv = inv
poll-IsConsistent (some (num, revents)) s inv =
    let s' = record s { pollfds = set_revents s.pollfds revents } in
    let inv' = set_revents-IsConsistent s revents inv in
    elim (Bool-cases (num == 0)) [
      | inl idle ↦ rw (poll, idle) inv'
      | inr busy ↦ rw (poll, busy) (fill-IsConsistent num s'.pollfds s' inv')
    ]

abbrev one_if : Bool → ℕ
one_if true = 1
one_if false = 0

-- What poll(2) returns: how many entries have events.
abbrev pub ready_count : List PollFd → ℕ
ready_count [] = 0
ready_count (p ∷ ps) = one_if (not (p.revents == 0)) + ready_count ps

-- The channel of an entry, by the map alone: an entry that is out of use has none.
abbrev pub channel_of : (ℕ → Option ℕ) → ℤ → Option ℕ
channel_of channels (pos fd) = channels fd
channel_of channels (negsuc fd) = none

-- The channels of the entries with events, in the order of the array.
abbrev pub reported : (ℕ → Option ℕ) → List PollFd → List ℕ
reported channels [] = []
reported channels (p ∷ ps) =
    let rest = reported channels ps in
    if p.revents == 0
    then rest
    else (elim (channel_of channels p.fd) as (λ o. List ℕ) [ none ↦ rest | some a ↦ a ∷ rest ])

find-channel_of : (s : Poller) (fd : ℤ) → IsConsistent s → find s fd ≡ channel_of s.channels fd
unfolding find
find-channel_of s (negsuc fd) inv = refl
find-channel_of s (pos fd) inv = elim (Option-cases (s.channels fd)) [
  | inl absent ↦ rw (find, absent)
  | inr (a, there) ↦
      let (own, _) = inv.entry fd a there in
      let same : ((s.store a).fd == fd) ≡ true = ground (arith, own) in rw (find, there, same)
]

reported_nil :
    (channels : ℕ → Option ℕ) (ps : List PollFd) → ready_count ps ≡ 0 → reported channels ps ≡ []
reported_nil channels [] h = refl
reported_nil channels (p ∷ ps) h =
    let idle : (p.revents == 0) ≡ true = ground (arith, h) in
    let rest = reported_nil channels ps (ground (arith, h)) in rw idle rest

fill-reported :
    (num : ℕ) (ps : List PollFd) (s : Poller)
    → IsConsistent s
    → num ≡ ready_count ps
    → (fill_active_channels num ps s).0 ≡ reported s.channels ps
unfolding fill_active_channels
fill-reported num [] s inv h = refl
fill-reported num (p ∷ ps) s inv h = elim (Bool-cases (num == 0)) [
  | inl enough ↦
      let idle = reported_nil s.channels (p ∷ ps) (ground (arith, h, enough)) in
      rw (fill_active_channels, enough) (sym idle)
  | inr more ↦ elim (Bool-cases (p.revents == 0)) [
    | inl idle ↦
        rw (fill_active_channels, more, idle) (fill-reported num ps s inv (ground (arith, h, idle)))
    | inr busy ↦
        let left : num - 1 ≡ ready_count ps = ground (arith, h, busy) in
        let same = find-channel_of s p.fd inv in
        elim (Option-cases (find s p.fd)) [
          | inl lost ↦
              let none_there = sym same ∙ lost in
              rw (fill_active_channels, more, busy, lost, none_there)
                (fill-reported (num - 1) ps s inv left)
          | inr (a, found) ↦
              let there = sym same ∙ found in
              let rest =
                fill-reported (num - 1) ps (marked s a p.revents)
                  (marked-IsConsistent s a p.revents inv) left in
              rw (fill_active_channels, more, busy, found, there) (ap (◌∷◌ a) rest)
        ]
  ]
]

-- Where the array, the map and the indices agree, and poll(2) answers with the number of the entries that have
-- events: poll makes active the channels of just these entries, each once, in the order of the array, and skips
-- the entries that are out of use.
pub poll-reported :
    (num : ℕ) (revents : List ℕ) (s : Poller)
    → IsConsistent s
    → num ≡ ready_count (set_revents s.pollfds revents)
    → (poll (some (num, revents)) s).0 ≡ reported s.channels (set_revents s.pollfds revents)
unfolding poll
poll-reported num revents s inv h =
    let s' = record s { pollfds = set_revents s.pollfds revents } in
    elim (Bool-cases (num == 0)) [
      | inl idle ↦
          rw (poll, idle) (sym (reported_nil s.channels s'.pollfds (ground (arith, h, idle))))
      | inr busy ↦
          rw (poll, busy)
            (fill-reported num s'.pollfds s' (set_revents-IsConsistent s revents inv) h)
    ]
