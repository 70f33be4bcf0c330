-- ===== src/Net/EventLoop/Channels.antt =====
-- net/EventLoop.cpp: the constructor and the destructor, and the channels of a loop, over the poller. A loop is its
-- address; the answer of eventfd(2) is an argument.
use learning_tools.Prelude.{
  ℕ, ◌≡◌, refl, ap, Bool, true, false, not, ◌==◌, if◌then◌else◌, Option, none, some,
}
use learning_tools.Net.Channel.{
  Channel, Polling, has_bit, pollin, enable_reading, disable_all, remove, is_none_event,
}
use learning_tools.Net.Channel

module _ (p : Polling) where
  -- `this` and `owner` are the loop and the one that the channel belongs to.
  unfoldable pub update_channel : ℕ → ℕ → p.State → Channel → Bool × (Channel × p.State)
  update_channel this owner s c = if not (owner == this) then (false, (c, s)) else p.update s c

  unfoldable pub remove_channel : ℕ → ℕ → p.State → Channel → Channel × p.State
  remove_channel this owner s c = if not (owner == this) then (c, s) else p.remove_channel s c

  -- The loop of a thread, its poller and the channel of the eventfd.
  pub record Reactor : Type 0 where
    pub this : ℕ
    pub poller : p.State
    pub wakeup_channel : Channel

  -- `created` is the descriptor of eventfd(2), and `in_thread` is `t_loopInThisThread`; `none` as a result is the
  -- end of the process.
  unfoldable pub init : ℕ → ℕ → p.State → Option ℕ → Option ℕ → Option Reactor
  unfolding enable_reading
  init this address s none in_thread = none
  init this address s (some fd) (some other) = none
  init this address s (some fd) none =
      let c = record (Channel.init address fd) { read_callback = true } in
      let (_, (c', s')) = enable_reading p.update s c in
      some (record { this = this; poller = s'; wakeup_channel = c' })

  -- What is left: the poller, the descriptor that is closed, and `t_loopInThisThread`.
  unfoldable pub destroy : Reactor → p.State × (ℕ × Option ℕ)
  unfolding disable_all remove
  destroy r =
      let (_, (c, s)) = disable_all p.update r.poller r.wakeup_channel in
      let (c', s') = remove p.remove_channel s c in (s', (r.wakeup_channel.fd, none))

  -- A loop that was made asks to be told of the writes to its eventfd; a second loop in a thread ends the process.
  init_lem :
      (this address other fd : ℕ) (s : p.State)
      → (init this address s (some fd) (some other) ≡ none)
        × ((r : Reactor) × ((init this address s (some fd) none ≡ some r)
              × (has_bit r.wakeup_channel.events pollin ≡ true)))
  unfolding init enable_reading
  init_lem this address other fd s =
      let c = record (Channel.init address fd) { read_callback = true; events = 3 } in
      let kept = p.update-events s c in
      (
        refl,
        (
          record { this = this; poller = (p.update s c).1.1; wakeup_channel = (p.update s c).1.0 },
          (refl, ap (λ e. has_bit e pollin) kept),
        ),
      )
