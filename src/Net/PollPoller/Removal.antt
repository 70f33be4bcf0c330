-- ===== src/Net/PollPoller/Removal.antt =====
-- net/PollPoller.cpp: what removeChannel leaves of the array.
use learning_tools.Prelude.{
  ℕ, ◌+◌, ◌-◌, ◌<◌, ◌≡◌, refl, ap, ◌∙◌, true, false, ◌==◌, ltb, leb, if◌then◌else◌, arith, List,
  length, take, get_elem?, set, Option, none, some, Bool-cases, inl, inr,
}
use learning_tools.Net.Channel.{at}
use learning_tools.Net.PollPoller.{
  PollFd, Poller, put, write, set_index, owner, swap_out, remove_at,
}
use learning_tools.Net.PollPoller.Slots.{
  owner_at, owner_at-set, owner_at-take, owner_at_behind, owner_at-get_elem?, entry_at,
}
use learning_tools.Net.PollPoller.Consistent.{Entry, Slot, IsConsistent}

-- What is left of the array when the last entry has gone to the place `idx`.
abbrev pub moved : List PollFd → ℕ → ℕ → Option ℕ
moved ps idx i =
    if ltb i (length ps - 1)
    then (if i == idx then owner_at ps (length ps - 1) else owner_at ps i)
    else none

module _ (a idx : ℕ) (s : Poller) (inv : IsConsistent s)
    (known : s.channels (s.store a).fd ≡ some a) (place : (s.store a).index ≡ at idx) where
  mine : owner_at s.pollfds idx ≡ some (s.store a).fd
  mine =
      let (_, (i, (same, owns))) = inv.entry (s.store a).fd a known in
      ground (arith, same, place, owns)

  -- The channel of the last entry may be told its new place.
  abbrev pub Forgets : Poller → Type 0
  Forgets s' =
      ((i : ℕ) → owner_at s'.pollfds i ≡ moved s.pollfds idx i)
      × ((fd : ℕ) → s'.channels fd ≡ (if (s.store a).fd == fd then none else s.channels fd))
      × ((b : ℕ) → (s'.store b).fd ≡ (s.store b).fd)
      × ((b i : ℕ)
          → (s.store b).index ≡ at i
          → s.channels (s.store b).fd ≡ some b
          → ((s.store a).fd == (s.store b).fd) ≡ false
          → (s'.store b).index ≡ (if i + 1 == length s.pollfds then at idx else at i))

  Forgets-Entry : (s' : Poller) → Forgets s' → (fd b : ℕ) → s'.channels fd ≡ some b → Entry s' fd b
  Forgets-Entry s' (slots, known', fds, places) fd b e =
      let old : s.channels fd ≡ some b = ground (arith, known' fd, e) in
      let ne : ((s.store a).fd == fd) ≡ false = ground (arith, known' fd, e) in
      let (own, (j, (at_j, owns_j))) = inv.entry fd b old in
      let inside = owner_at_behind s.pollfds j in
      let known_b : s.channels (s.store b).fd ≡ some b = ap s.channels own ∙ old in
      let other : ((s.store a).fd == (s.store b).fd) ≡ false = ground (arith, ne, own) in
      let to = places b j at_j known_b other in
      let apart : (j == idx) ≡ false = ground (arith, mine, owns_j, ne) in
      (
        fds b ∙ own,
        elim (Bool-cases (j + 1 == length s.pollfds)) [
          | inl last ↦ (
            idx,
            (
              ground (arith, to, last),
              slots idx
                  ∙ ground
                      (arith, last, inside, owns_j, apart, owner_at_behind s.pollfds idx, mine),
            ),
          )
          | inr before ↦ (
            j,
            (ground (arith, to, before), slots j ∙ ground (arith, before, inside, owns_j, apart)),
          )
        ],
      )

  Forgets-Slot :
      (s' : Poller) → Forgets s' → (i fd : ℕ) → owner_at s'.pollfds i ≡ some fd → Slot s' i fd
  Forgets-Slot s' (slots, known', fds, places) i fd e =
      let from = if i == idx then length s.pollfds - 1 else i in
      let before : ltb i (length s.pollfds - 1) ≡ true = ground (arith, slots i, e) in
      let old : owner_at s.pollfds from ≡ some fd = ground (arith, slots i, e) in
      let (b, (known_b, at_b)) = inv.slot from fd old in
      let (own, _) = inv.entry fd b known_b in
      let known_b' : s.channels (s.store b).fd ≡ some b = ap s.channels own ∙ known_b in
      let ne : ((s.store a).fd == fd) ≡ false =
        ground (arith, before, known, known_b, place, at_b) in
      let to = places b from at_b known_b' (ground (arith, ne, own)) in
      (b, (known' fd ∙ ground (arith, ne, known_b), to ∙ ground (arith, before)))

  pub Forgets-IsConsistent : (s' : Poller) → Forgets s' → IsConsistent s'
  Forgets-IsConsistent s' f = record { entry = Forgets-Entry s' f; slot = Forgets-Slot s' f }

  -- Behind the erase.
  abbrev pub erased : Poller
  erased = record s { channels = put s.channels (s.store a).fd none }

  owns_of :
      (b i : ℕ)
      → (s.store b).index ≡ at i
      → s.channels (s.store b).fd ≡ some b
      → owner_at s.pollfds i ≡ some (s.store b).fd
  owns_of b i at_b known_b =
      let (_, (j, (at_j, owns_j))) = inv.entry (s.store b).fd b known_b in
      ground (arith, at_b, at_j, owns_j)

  within : idx < length s.pollfds
  within = ground (arith, mine, owner_at_behind s.pollfds idx)

  -- Where the last entry is another one.
  swap_out-Forgets :
      (last : PollFd)
      → (idx + 1 == length s.pollfds) ≡ false
      → get_elem? s.pollfds (length s.pollfds - 1) ≡ some last
      → (s' : Poller) × ((swap_out erased idx last ≡ some s') × Forgets s')
  unfolding swap_out put set_index write
  swap_out-Forgets last before there =
      let at_end = length s.pollfds - 1 in
      let owns : owner_at s.pollfds at_end ≡ some (owner last.fd) =
        owner_at-get_elem? s.pollfds at_end ∙ rw there in
      let (b, (known_b, at_b)) = inv.slot at_end (owner last.fd) owns in
      let (own_b, _) = inv.entry (owner last.fd) b known_b in
      let ne : ((s.store a).fd == owner last.fd) ≡ false =
        ground (arith, known, known_b, place, at_b, before, within) in
      let found : erased.channels (owner last.fd) ≡ some b = ground (arith, ne, known_b) in
      (
        record erased {
          pollfds = take at_end (set s.pollfds idx last);
          store = set_index s.store b idx;
        },
        (
          rw (swap_out, found),
          (
            λ i.
                let cut = owner_at-take at_end (set s.pollfds idx last) i in
                let put_there = owner_at-set s.pollfds last idx i within in
                ground (arith, cut, put_there, owns, within),
            λ fd. refl,
            λ d. ground arith,
            λ d i at_d known_d other.
                let owns_d = owns_of d i at_d known_d in
                ground (arith, at_d, at_b, owns_d, known_d, known_b, own_b, owns, within),
          ),
        ),
      )

  pub remove_at-Forgets : (s' : Poller) × ((remove_at erased idx ≡ some s') × Forgets s')
  unfolding remove_at put
  remove_at-Forgets = elim (Bool-cases (idx + 1 == length s.pollfds)) [
    | inl last ↦ (
      record erased { pollfds = take (length s.pollfds - 1) s.pollfds },
      (
        rw (remove_at, last),
        (
          λ i. owner_at-take (length s.pollfds - 1) s.pollfds i ∙ ground (arith, last),
          λ fd. refl,
          λ b. refl,
          λ b i at_b known_b other.
              let owns_b = owns_of b i at_b known_b in
              ground (arith, at_b, owns_b, other, mine, last),
        ),
      ),
    )
    | inr before ↦
        let (last, there) = entry_at s.pollfds (length s.pollfds - 1) (omega (arith, within)) in
        let inside : leb (length s.pollfds) idx ≡ false = ground (arith, within) in
        let (s', (done, f)) = swap_out-Forgets last before there in
        (s', (rw (remove_at, before, inside, there) done, f))
  ]
