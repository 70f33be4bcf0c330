-- ===== src/Net/SelectPoller/Ready.antt =====
-- net/SelectPoller.cpp: which channels poll makes active.
use learning_tools.Prelude.{
  ℕ, ◌+◌, ◌≤◌, ◌≡◌, refl, sym, ap, ◌∙◌, Bool, true, false, ◌==◌, leb, if◌then◌else◌, arith, List,
  [], ◌∷◌, some, Bool-cases, Option-cases, inl, inr,
}
use learning_tools.Net.Channel.{Channel, has_bit, pollin, pollout}
use learning_tools.Net.SelectPoller.{
  Poller, write, fd_set, max_fd, is_set, add_revents, is_ready, mark, fill_active_channels, Select,
  poll,
}

module _ (readfds writefds : ℕ → Bool) where
  -- The channels of the ready descriptors, in the order of the map.
  abbrev pub ready : List (ℕ × ℕ) → List ℕ
  ready [] = []
  ready ((fd, a) ∷ cs) = if is_ready readfds writefds fd then a ∷ ready cs else ready cs

  abbrev one : Bool → ℕ
  one true = 1
  one false = 0

  -- What select(2) returns: a descriptor that is ready for both counts twice.
  abbrev pub bits : List (ℕ × ℕ) → ℕ
  bits [] = 0
  bits ((fd, a) ∷ cs) = one (readfds fd) + one (writefds fd) + bits cs

  ready_nil : (cs : List (ℕ × ℕ)) → bits cs ≡ 0 → ready cs ≡ []
  ready_nil [] h = refl
  ready_nil ((fd, a) ∷ cs) h = let ih = ready_nil cs in ground (arith, ih, h)

  fill-ready :
      (num count : ℕ) (cs : List (ℕ × ℕ)) (store : ℕ → Channel)
      → count + bits cs ≤ num
      → (fill_active_channels num readfds writefds count cs store).0 ≡ ready cs
  unfolding fill_active_channels
  fill-ready num count [] store h = refl
  fill-ready num count ((fd, a) ∷ cs) store h =
      let store' = write store a (mark readfds writefds fd (store a)) in
      let on = fill-ready num (count + 1) cs store' in
      let skip = fill-ready num count cs store in
      let nothing = ready_nil cs in
      elim (Bool-cases (is_ready readfds writefds fd)) [
        | inl set ↦ elim (Bool-cases (leb num (count + 1))) [
          | inl full ↦
              let none_left : bits cs ≡ 0 = ground (arith, h, set, full) in
              rw (fill_active_channels, set, full, nothing none_left)
          | inr more ↦
              let room : count + 1 + bits cs ≤ num = ground (arith, h, set) in
              rw (fill_active_channels, set, more) (ap (◌∷◌ a) (on room))
        ]
        | inr clear ↦ rw (fill_active_channels, clear) (skip (ground (arith, h)))
      ]

-- The loop over the channels, for an answer that counts the bits that are set for them.
pub poll-ready :
    (fd_setsize : ℕ) (select : Select) (s : Poller) (num : ℕ) (readfds writefds : List ℕ)
    → select
        (max_fd 0 s.channels + 1)
        (fd_set fd_setsize pollin s.store s.channels)
        (fd_set fd_setsize pollout s.store s.channels)
      ≡ some (num, readfds, writefds)
    → num ≡ bits (is_set readfds) (is_set writefds) s.channels
    → (poll fd_setsize select s).0 ≡ ready (is_set readfds) (is_set writefds) s.channels
unfolding poll
poll-ready fd_setsize select s num readfds writefds answer counted =
    let reads = is_set readfds in
    let writes = is_set writefds in
    elim (Bool-cases (num == 0)) [
      | inl zero_bits ↦
          let idle = ready_nil reads writes s.channels (ground (arith, zero_bits, counted)) in
          rw (poll, answer, zero_bits) (sym idle)
      | inr some_bits ↦
          rw (poll, answer, some_bits)
            (fill-ready reads writes num 0 s.channels s.store (omega (arith, counted)))
    ]

add-keeps :
    (r : ℕ)
    → has_bit r pollout ≡ true
    → has_bit (if has_bit r pollin then r else r + pollin) pollout ≡ true
add-keeps r h = ground (arith, h)

mark-keeps :
    (readfds writefds : ℕ → Bool) (fd : ℕ) (c : Channel)
    → has_bit c.revents pollout ≡ true
    → has_bit (mark readfds writefds fd c).revents pollout ≡ true
unfolding mark add_revents
mark-keeps readfds writefds fd c h = let kept = add-keeps c.revents h in ground (arith, kept, h)

write-keeps :
    (readfds writefds : ℕ → Bool) (fd a b : ℕ) (store : ℕ → Channel)
    → has_bit (store b).revents pollout ≡ true
    → has_bit (write store a (mark readfds writefds fd (store a)) b).revents pollout ≡ true
unfolding write
write-keeps readfds writefds fd a b store h = elim (Bool-cases (a == b)) [
  | inl same ↦
      let e : b ≡ a = ground (arith, same) in
      rw same (
        mark-keeps readfds writefds fd (store a)
          (ap (λ n. has_bit (store n).revents pollout) (sym e) ∙ h))
  | inr other ↦ rw other h
]

fill-keeps :
    (num : ℕ) (readfds writefds : ℕ → Bool) (count : ℕ) (cs : List (ℕ × ℕ)) (store : ℕ → Channel)
    (b : ℕ)
    → has_bit (store b).revents pollout ≡ true
    → has_bit ((fill_active_channels num readfds writefds count cs store).1 b).revents pollout
      ≡ true
unfolding fill_active_channels
fill-keeps num readfds writefds count [] store b h = h
fill-keeps num readfds writefds count ((fd, a) ∷ cs) store b h =
    let marked = mark readfds writefds fd (store a) in
    let store' = write store a marked in
    let stays : has_bit (store' b).revents pollout ≡ true =
      write-keeps readfds writefds fd a b store h in
    let on = fill-keeps num readfds writefds (count + 1) cs store' b stays in
    let skip = fill-keeps num readfds writefds count cs store b h in
    elim (Bool-cases (is_ready readfds writefds fd)) [
      | inl set ↦ elim (Bool-cases (leb num (count + 1))) [
        | inl full ↦ rw (fill_active_channels, set, full) stays
        | inr more ↦ rw (fill_active_channels, set, more) on
      ]
      | inr clear ↦ rw (fill_active_channels, clear) skip
    ]

-- Whatever select(2) answers, a channel that was once found ready to be written counts as ready to be written after
-- every later poll, also when it does not ask for that any more.
poll-keeps :
    (fd_setsize : ℕ) (select : Select) (s : Poller) (b : ℕ)
    → has_bit (s.store b).revents pollout ≡ true
    → has_bit ((poll fd_setsize select s).1.store b).revents pollout ≡ true
unfolding poll
poll-keeps fd_setsize select s b h =
    elim (Option-cases (
      select (max_fd 0 s.channels + 1) (fd_set fd_setsize pollin s.store s.channels)
        (fd_set fd_setsize pollout s.store s.channels))) [
          | inl failed ↦ rw (poll, failed) h
          | inr ((num, readfds, writefds), answer) ↦ elim (Bool-cases (num == 0)) [
            | inl zero_bits ↦ rw (poll, answer, zero_bits) h
            | inr some_bits ↦
                rw (poll, answer, some_bits)
                  (fill-keeps num (is_set readfds) (is_set writefds) 0 s.channels s.store b h)
          ]
        ]
