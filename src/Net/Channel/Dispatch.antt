-- ===== src/Net/Channel/Dispatch.antt =====
-- net/Channel.cpp: which callbacks an event reaches, and the interest bits.
use learning_tools.Prelude.{
  ℕ, ◌+◌, ◌%◌, ◌≡◌, ◌<◌, refl, arith, ◌∙◌, Bool, true, false, not, ◌&&◌, ◌||◌, ◌==◌, if◌then◌else◌,
  List, [], ◌∷◌, ◌++◌,
}
use learning_tools.Net.Channel.{
  Channel, Call, close, error, read, write, call_if, has_bit, handle_event, handle_event_with_guard,
  is_writing, pollin, pollpri, pollout, pollerr, pollhup, pollnval, pollrdhup, Update,
  enable_reading, disable_reading, enable_writing, disable_writing,
}

-- The order of the calls.
abbrev pub rank : Call → ℕ
rank close = 0
rank error = 1
rank read = 2
rank write = 3

abbrev pub Ordered : List Call → Type 0
Ordered [] = Unit {0}
Ordered (k ∷ []) = Unit {0}
Ordered (k ∷ l ∷ ks) = (rank k < rank l) × Ordered (l ∷ ks)

abbrev pub calls : List Call → Call → Bool
calls [] k = false
calls (l ∷ ks) k = (rank l == rank k) || calls ks k

-- What each callback waits for: hanging up without data to read, an error, something to read (or the
-- end of it), and room to write.
abbrev pub is_wanted : Channel → Call → Bool
is_wanted c close = has_bit c.revents pollhup && not (has_bit c.revents pollin) && c.close_callback
is_wanted c error = (has_bit c.revents pollerr || has_bit c.revents pollnval) && c.error_callback
is_wanted c read =
    (has_bit c.revents pollin || has_bit c.revents pollpri || has_bit c.revents pollrdhup)
    && c.read_callback
is_wanted c write = has_bit c.revents pollout && c.write_callback

module _ (a b c d : Bool) where
  four : List Call
  four = call_if a close ++ call_if b error ++ call_if c read ++ call_if d write

four-Ordered : (a b c d : Bool) → Ordered (four a b c d)
unfolding four
four-Ordered a b c d = ground arith

pick : Bool → Bool → Bool → Bool → Call → Bool
pick a b c d close = a
pick a b c d error = b
pick a b c d read = c
pick a b c d write = d

four-calls_of : (a b c d : Bool) (k : Call) → calls (four a b c d) k ≡ pick a b c d k
unfolding four pick
four-calls_of a b c d close = ground arith
four-calls_of a b c d error = ground arith
four-calls_of a b c d read = ground arith
four-calls_of a b c d write = ground arith

picked :
    (c : Channel) (k : Call)
    → pick (is_wanted c close) (is_wanted c error) (is_wanted c read) (is_wanted c write) k
      ≡ is_wanted c k
unfolding pick
picked c close = refl
picked c error = refl
picked c read = refl
picked c write = refl

gated :
    (tied alive w : Bool) (l : List Call) (k : Call)
    → Ordered l
    → calls l k ≡ w
    → Ordered (if tied then (if alive then l else []) else l)
      × (calls (if tied then (if alive then l else []) else l) k ≡ ((not tied || alive) && w))
gated true true w l k o e = (o, e)
gated true false w l k o e = (tt, refl)
gated false alive w l k o e = (o, e)

-- Each callback is called at most once, in the order close, error, read, write, and just when it is
-- set, its events have happened, and the owner that the channel is tied to (if it is) still exists.
pub handle_event_lem :
    (c : Channel) (alive : Bool)
    → (k : Call)
    → Ordered (handle_event c alive)
      × (calls (handle_event c alive) k ≡ ((not c.tied || alive) && is_wanted c k))
unfolding handle_event handle_event_with_guard four
handle_event_lem c alive k =
    let a = is_wanted c close in
    let b = is_wanted c error in
    let d = is_wanted c read in
    let e = is_wanted c write in
    gated c.tied alive (is_wanted c k) (four a b d e) k (four-Ordered a b d e)
      (four-calls_of a b d e k ∙ picked c k)

-- What the poller is shown.
abbrev pub shown : {S : Type 0} → (Update S → S → Channel → Bool × (Channel × S)) → S → Channel → ℕ
shown f s c = (f (λ s c. (true, (c, s))) s c).1.0.events

-- The interests in reading and writing are independent: switching one on or off leaves the other, and this
-- is what the poller is shown.
pub interests_lem :
    {S : Type 0} (s : S) (c : Channel)
    → c.events < 8
    → let reading = c.events % 4 in
      let writing : ℕ = if is_writing c then 4 else 0 in
      (c.events ≡ reading + writing)
      × (shown enable_reading s c ≡ 3 + writing)
      × (shown disable_reading s c ≡ writing)
      × (shown enable_writing s c ≡ reading + 4)
      × (shown disable_writing s c ≡ reading)
unfolding enable_reading disable_reading enable_writing disable_writing
interests_lem s c h = ground arith
