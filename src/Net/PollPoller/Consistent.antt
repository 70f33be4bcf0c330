-- ===== src/Net/PollPoller/Consistent.antt =====
-- net/PollPoller.cpp: the array, the map and the indices of the channels agree.
use learning_tools.Prelude.Int.{pos}
use learning_tools.Prelude.{
  ℕ, ◌≡◌, refl, sym, ◌∙◌, true, false, ◌==◌, arith, length, get_elem?, set, Option, none, some,
  Bool-cases, Option-cases, inl, inr, ◌⊎◌,
}
use learning_tools.Net.Channel.{Channel, Index, k_new, at}
use learning_tools.Net.PollPoller.{
  PollFd, Poller, is_entry, is_some, put, write, set_index, add_new, renew, update_existing,
  update_channel,
}
use learning_tools.Net.PollPoller.Slots.{
  owner_at, owner_at-append, owner_at-set, owner_at_behind, owner_at-get_elem?,
}

-- A channel of the map knows its place, and the entry there is of its descriptor.
abbrev pub Entry : Poller → ℕ → ℕ → Type 0
Entry s fd a =
    ((s.store a).fd ≡ fd)
    × ((i : ℕ) × (((s.store a).index ≡ at i) × (owner_at s.pollfds i ≡ some fd)))

-- An entry of the array belongs to a channel of the map that knows its place.
abbrev pub Slot : Poller → ℕ → ℕ → Type 0
Slot s i fd = (a : ℕ) × ((s.channels fd ≡ some a) × ((s.store a).index ≡ at i))

pub record IsConsistent (s : Poller) : Type 0 where
  pub entry : (fd a : ℕ) → s.channels fd ≡ some a → Entry s fd a
  pub slot : (i fd : ℕ) → owner_at s.pollfds i ≡ some fd → Slot s i fd

module _ (a : ℕ) (s : Poller) (inv : IsConsistent s) (new : (s.store a).index ≡ k_new)
    (free : s.channels (s.store a).fd ≡ none) where
  pfd : PollFd
  pfd = record { fd = pos (s.store a).fd; events = (s.store a).events; revents = 0 }

  add_new-Entry : (fd b : ℕ) → (add_new a s).channels fd ≡ some b → Entry (add_new a s) fd b
  unfolding add_new put set_index write pfd
  add_new-Entry fd b e = elim (Bool-cases ((s.store a).fd == fd)) [
    | inl mine ↦
        let there = owner_at-append s.pollfds (pfd) (length s.pollfds) in
        (
          ground (arith, mine, e),
          (length s.pollfds, (ground (arith, mine, e), ground (arith, mine, e, there))),
        )
    | inr other ↦
        let old : s.channels fd ≡ some b = ground (arith, other, e) in
        let (same, (i, (place, owns))) = inv.entry fd b old in
        let there = owner_at-append s.pollfds (pfd) i in
        let behind = owner_at_behind s.pollfds i in
        (
          ground (arith, same, place, new),
          (i, (ground (arith, place, new), ground (arith, there, behind, owns))),
        )
  ]

  add_new-Slot : (i fd : ℕ) → owner_at (add_new a s).pollfds i ≡ some fd → Slot (add_new a s) i fd
  unfolding add_new put set_index write pfd
  add_new-Slot i fd e =
      let there = owner_at-append s.pollfds pfd i in
      elim (Bool-cases (i == length s.pollfds)) [
        | inl last ↦ (a, (ground (arith, last, e, there), ground (arith, last)))
        | inr before ↦
            let old : owner_at s.pollfds i ≡ some fd = ground (arith, before, e, there) in
            let (b, (known, place)) = inv.slot i fd old in
            (b, (ground (arith, known, free), ground (arith, place, new)))
      ]

  add_new-IsConsistent : IsConsistent (add_new a s)
  add_new-IsConsistent = record { entry = add_new-Entry; slot = add_new-Slot }

-- An entry that is rewritten keeps its owner.
renew-owner_at :
    (s : Poller) (c : Channel) (idx : ℕ) (pfd : PollFd) (i : ℕ)
    → get_elem? s.pollfds idx ≡ some pfd
    → owner_at s.pollfds idx ≡ some c.fd
    → owner_at (set s.pollfds idx (renew c pfd)) i ≡ owner_at s.pollfds i
unfolding renew
renew-owner_at s c idx pfd i there owns =
    let inside = owner_at_behind s.pollfds idx in
    let same = owner_at-get_elem? s.pollfds idx in
    let changed = owner_at-set s.pollfds (renew c pfd) idx i in
    ground (arith, there, owns, inside, same, changed)

update_existing-IsConsistent :
    (a idx : ℕ) (s : Poller)
    → IsConsistent s
    → (s.store a).index ≡ at idx
    → s.channels (s.store a).fd ≡ some a
    → IsConsistent (update_existing s (s.store a) idx).1
unfolding update_existing
update_existing-IsConsistent a idx s inv place known =
    elim (Option-cases (get_elem? s.pollfds idx)) [
      | inl absent ↦ rw (update_existing, absent) inv
      | inr (pfd, there) ↦
          let (_, (i, (same, owns))) = inv.entry (s.store a).fd a known in
          let mine : owner_at s.pollfds idx ≡ some (s.store a).fd =
            ground (arith, same, place, owns) in
          let kept = λ (j : ℕ). renew-owner_at s (s.store a) idx pfd j there mine in
          rw (update_existing, there)
            (record {
              entry = λ fd b e.
                  let (own, (j, (at_j, owns_j))) = inv.entry fd b e in
                  (own, (j, (at_j, kept j ∙ owns_j)));
              slot = λ j fd e. inv.slot j fd (sym (kept j) ∙ e);
            })
    ]

pub Index-cases : (i : Index) → (i ≡ k_new) ⊎ ((n : ℕ) × (i ≡ at n))
Index-cases k_new = inl refl
Index-cases (at n) = inr (n, refl)

pub is_entry_lem : (o : Option ℕ) (a : ℕ) → is_entry o a ≡ true → o ≡ some a
is_entry_lem none a h = ground (arith, h)
is_entry_lem (some b) a h = ground (arith, h)

is_some_lem : (o : Option ℕ) → is_some o ≡ false → o ≡ none
is_some_lem none h = refl
is_some_lem (some b) h = ground (arith, h)

pub update_channel-IsConsistent :
    (a : ℕ) (s : Poller) → IsConsistent s → IsConsistent (update_channel a s).1
unfolding update_channel
update_channel-IsConsistent a s inv = elim (Index-cases (s.store a).index) [
  | inl new ↦ elim (Bool-cases (is_some (s.channels (s.store a).fd))) [
    | inl taken ↦ rw (update_channel, new, taken) inv
    | inr free ↦
        rw (update_channel, new, free) (add_new-IsConsistent a s inv new (is_some_lem _ free))
  ]
  | inr (idx, place) ↦ elim (Bool-cases (is_entry (s.channels (s.store a).fd) a)) [
    | inl known ↦
        rw (update_channel, place, known)
          (update_existing-IsConsistent a idx s inv place (is_entry_lem _ a known))
    | inr foreign ↦ rw (update_channel, place, foreign) inv
  ]
]
