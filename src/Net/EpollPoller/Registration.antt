-- ===== src/Net/EpollPoller/Registration.antt =====
-- net/EpollPoller.cpp: what the kernel watches after the poller's calls.
use learning_tools.Prelude.{
  ℕ, ◌≡◌, ◌≢◌, refl, ap, ◌∙◌, arith, Bool, true, false, ◌==◌, if◌then◌else◌, Option, none, some,
  Bool-cases, inl, inr, ◌⊎◌,
}
use learning_tools.Net.Channel.{Channel, k_new, at, is_none_event}
use learning_tools.Net.EpollPoller.{
  ctl_add, ctl_mod, ctl_del, Epoll, IsEpoll, k_added, k_deleted, Poller, put, has_channel, update,
  add, update_new, update_deleted, update_added, update_channel, erase, remove_channel,
}

eq_refl : (n : ℕ) → (n == n) ≡ true
eq_refl n = ground arith

eq-ne : (m n : ℕ) → m ≢ n → (m == n) ≡ false
eq-ne m n h = ground arith

module _ (ep : Epoll) (s : Poller ep) (c : Channel) where
  -- What the index of a channel says of the poller and the kernel: a new channel is unknown to both, an
  -- added one is watched under its own address, and a deleted one is known to the poller only.
  abbrev pub IsNew : Type 0
  IsNew = (c.index ≡ k_new) × (s.channels c.fd ≡ none) × (ep.interest s.kernel c.fd ≡ none)

  abbrev pub IsAdded : Type 0
  IsAdded =
      (c.index ≡ at k_added)
      × (s.channels c.fd ≡ some c.address)
      × ((e : ℕ) × (ep.interest s.kernel c.fd ≡ some (e, c.address)))

  abbrev pub IsDeleted : Type 0
  IsDeleted =
      (c.index ≡ at k_deleted)
      × (s.channels c.fd ≡ some c.address)
      × (ep.interest s.kernel c.fd ≡ none)

  abbrev pub IsRegistered : Type 0
  IsRegistered = IsNew ⊎ (IsAdded ⊎ IsDeleted)

-- The events that the kernel watches a descriptor for.
abbrev pub watched : Option (ℕ × ℕ) → ℕ
watched none = 0
watched (some (events, _)) = events

module _ (ep : Epoll) where
  -- What a call of updateChannel for the channel promises.
  abbrev pub Updates : Poller ep → Channel → Bool × (Channel × Poller ep) → Type 0
  Updates s c r =
      (r.0 ≡ true
        → IsRegistered ep r.1.1 r.1.0 × (watched (ep.interest r.1.1.kernel c.fd) ≡ c.events))
      × ((fd : ℕ)
          → c.fd ≢ fd
          → (ep.interest r.1.1.kernel fd ≡ ep.interest s.kernel fd)
            × (r.1.1.channels fd ≡ s.channels fd))

  module _ (law : IsEpoll ep) where
    add_lem :
        (s : Poller ep) (c : Channel) → s.channels c.fd ≡ some c.address → Updates s c (add ep s c)
    unfolding add update
    add_lem s c e = (
      (λ ok.
          let there = law.set s.kernel ctl_add c.fd c.events c.address refl ok in
          (inr (inl (refl, e, (c.events, there))), ap watched there)),
      λ fd ne. (law.other s.kernel ctl_add c.fd c.events c.address fd ne, refl),
    )

    modify_lem :
        (s : Poller ep) (c : Channel)
        → s.channels c.fd ≡ some c.address
        → c.index ≡ at k_added
        → let (ok, s') = update ep ctl_mod s c in Updates s c (ok, (c, s'))
    unfolding update
    modify_lem s c e i = (
      (λ ok.
          let there = law.set s.kernel ctl_mod c.fd c.events c.address refl ok in
          (inr (inl (i, e, (c.events, there))), ap watched there)),
      λ fd ne. (law.other s.kernel ctl_mod c.fd c.events c.address fd ne, refl),
    )

    delete_lem :
        (s : Poller ep) (c : Channel)
        → s.channels c.fd ≡ some c.address
        → c.index ≡ at k_added
        → is_none_event c ≡ true
        → let (ok, s') = update ep ctl_del s c in
          Updates s c (ok, ((if ok then record c { index = at k_deleted } else c), s'))
    unfolding update
    delete_lem s c e i idle = (
      (λ ok.
          let gone = law.deleted s.kernel c.fd c.events c.address ok in
          rw ok (inr (inr (refl, e, gone)), ap watched gone ∙ ground (arith, idle))),
      λ fd ne. (law.other s.kernel ctl_del c.fd c.events c.address fd ne, refl),
    )

    update_channel_lem :
        (s : Poller ep) (c : Channel) → IsRegistered ep s c → Updates s c (update_channel ep s c)
    unfolding put update_channel
    update_channel_lem s c (inl (i, e, k)) =
        let s' = record s { channels = put s.channels c.fd (some c.address) } in
        let mine : s'.channels c.fd ≡ some c.address = rw (put, eq_refl c.fd) in
        let (here, others) = add_lem s' c mine in
        rw (update_channel, i, update_new, e)
          (here, λ fd ne. ((others fd ne).0, (others fd ne).1 ∙ rw (put, eq-ne c.fd fd ne)))
    update_channel_lem s c (inr (inl (i, e, (ev, k)))) =
        let mine : (c.address == c.address) ≡ true = eq_refl c.address in
        elim (Bool-cases (is_none_event c)) [
          | inl idle ↦
              rw (update_channel, i, update_added, has_channel, e, mine, idle, update)
                (delete_lem s c e i idle)
          | inr busy ↦
              rw (update_channel, i, update_added, has_channel, e, mine, busy, update)
                (modify_lem s c e i)
        ]
    update_channel_lem s c (inr (inr (i, e, k))) =
        let mine : (c.address == c.address) ≡ true = eq_refl c.address in
        rw (update_channel, i, update_deleted, has_channel, e, mine) (add_lem s c e)

    -- A call of updateChannel that succeeds, for a channel whose index is true: the index is true again,
    -- the kernel watches the channel for just the events that it asks for, and another descriptor as before.
    pub update_channel-IsRegistered :
        (s : Poller ep) (c : Channel) (fd : ℕ)
        → IsRegistered ep s c
        → (update_channel ep s c).0 ≡ true
        → c.fd ≢ fd
        → let (_, (c', s')) = update_channel ep s c in
          IsRegistered ep s' c'
          × (watched (ep.interest s'.kernel c.fd) ≡ c.events)
          × (ep.interest s'.kernel fd ≡ ep.interest s.kernel fd)
          × (s'.channels fd ≡ s.channels fd)
    update_channel-IsRegistered s c fd h done other =
        let (here, others) = update_channel_lem s c h in
        let (registered, asked) = here done in
        let (kernel, channels) = others fd other in (registered, asked, kernel, channels)

    -- removeChannel of a channel that asks for no events and that the poller knows makes it unknown to the poller
    -- and to the kernel, where the kernel lets go of it, and so it can be added again.
    pub remove_channel_lem :
        (s : Poller ep) (c : Channel)
        → c.events ≡ 0
        → IsAdded ep s c × ((ep.ctl s.kernel ctl_del c.fd c.events c.address).0 ≡ true)
          ⊎ IsDeleted ep s c
        → let (c', s') = remove_channel ep s c in IsNew ep s' c'
    unfolding put remove_channel
    remove_channel_lem s c idle (inl ((i, e, _), ok)) =
        let mine : (c.address == c.address) ≡ true = eq_refl c.address in
        let nothing : is_none_event c ≡ true = ground (arith, idle) in
        rw (remove_channel, i, has_channel, e, mine, nothing, erase, update)
          (refl, rw (put, eq_refl c.fd), law.deleted s.kernel c.fd c.events c.address ok)
    remove_channel_lem s c idle (inr (i, e, k)) =
        let mine : (c.address == c.address) ≡ true = eq_refl c.address in
        let nothing : is_none_event c ≡ true = ground (arith, idle) in
        rw (remove_channel, i, has_channel, e, mine, nothing, erase)
          (refl, rw (put, eq_refl c.fd), k)

    -- The index says that the kernel watches the channel, and it does not.
    abbrev pub IsLost : Poller ep → Channel → Type 0
    IsLost s c = (c.index ≡ at k_added) × (ep.interest s.kernel c.fd ≡ none)

    -- No call changes that, and each of them fails.
    pub IsLost-update_channel :
        (s : Poller ep) (c : Channel)
        → IsLost s c
        → let (ok, (c', s')) = update_channel ep s c in (ok ≡ false) × IsLost s' c' × (c'.fd ≡ c.fd)
    unfolding update_channel
    IsLost-update_channel s c (i, k) = elim (Bool-cases (has_channel ep s c)) [
      | inr foreign ↦ rw (update_channel, i, update_added, foreign) (refl, (i, k), refl)
      | inl mine ↦ elim (Bool-cases (is_none_event c)) [
        | inl idle ↦
            let refused = law.not_there s.kernel ctl_del c.fd c.events c.address refl k in
            let same = law.failed s.kernel ctl_del c.fd c.events c.address c.fd refused in
            rw (update_channel, i, update_added, mine, idle, update, refused)
              (refl, (i, same ∙ k), refl)
        | inr busy ↦
            let refused = law.not_there s.kernel ctl_mod c.fd c.events c.address refl k in
            let same = law.failed s.kernel ctl_mod c.fd c.events c.address c.fd refused in
            rw (update_channel, i, update_added, mine, busy, update, refused)
              (refl, (i, same ∙ k), refl)
      ]
    ]
